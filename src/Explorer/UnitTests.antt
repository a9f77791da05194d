-- ===== src/Explorer/UnitTests.antt =====
-- explorer/src/lib.rs, `mod tests`: the contract's own unit tests as scripts, by the sections of that
-- module, and how each of them ends.
mod Setup
mod Basic
mod Diagnostics
mod Pages
mod Versions
mod Handover
mod Upgrades
mod Lifetimes
mod Suite
mod Verdicts
pub use Setup.*
pub use Basic.*
pub use Diagnostics.*
pub use Pages.*
pub use Versions.*
pub use Handover.*
pub use Upgrades.*
pub use Lifetimes.*
pub use Suite.*
pub use Verdicts.*
