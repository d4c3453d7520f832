-- ===== src/Db.antt =====
-- The rows of backend/src/db/models.py: the columns that the services read and write. Columns that
-- are copied from settings and read by nothing (versions, creation times) are left out.
mod Vocabulary
mod Rows
mod Tables
pub use Vocabulary.*
pub use Rows.*
pub use Tables.*
