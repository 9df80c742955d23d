-- ===== src/Types.antt =====
-- apps/web/src/lib/types.ts: the run states of the web client and the records that it shares with the
-- API.
mod States
mod Entities
mod Analysis
pub mod System
unfoldable pub use States.*
pub use Entities.*
unfoldable pub use Analysis.*
