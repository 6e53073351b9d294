-- ===== src/Db.antt =====
-- The database: rows, tables, transactions.
mod Table
mod Monad
mod Outcome
mod Fresh
mod Finance
mod Commerce
mod Schema
unfoldable pub use Table.*
unfoldable pub use Monad.*
pub use Outcome.*
pub use Fresh.*
pub use Finance.*
pub use Commerce.*
pub use Schema.*
