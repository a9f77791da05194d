-- ===== src/Explorer/View/Laws.antt =====
-- How each host call that the explorer makes changes what can be seen of its storage.
mod Instance
mod Persistent
mod Neutral
pub use Instance.*
pub use Persistent.*
pub use Neutral.*

pub ruleset view_laws = (
  view-set_admin, view-set_pending_admin, view-set_event_seq, view-set_max_events, view-set_paused,
  view-remove_pending_admin, view-set_contract, view-remove_contract, view-set_event_log,
  view-set_contract_version, view-extend_ttl, view-publish, view-update_wasm,
)
