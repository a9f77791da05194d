-- ===== src/Explorer/Refine.antt =====
-- Every entry point of the explorer does what its specification promises, over every host.
mod Handover
mod Registry
mod Ring
mod Contract
mod Run
pub use Handover.*
pub use Registry.*
pub use Ring.*
pub use Contract.*
pub use Run.*
