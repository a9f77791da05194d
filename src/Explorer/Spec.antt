-- ===== src/Explorer/Spec.antt =====
-- What each entry point of the explorer promises: its guards in the order in which they are tried,
-- and the change that it makes to what can be seen of the storage.
mod Guards
mod Handover
mod Registry
mod Ring
mod Contract
pub use Guards.{emit}
unfoldable pub use Handover.*
unfoldable pub use Registry.*
unfoldable pub use Ring.*
unfoldable pub use Contract.*
