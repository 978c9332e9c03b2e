-- ===== src/Db.antt =====
-- The database of the authorization server: auth/auth/db/models.py and the session helper of
-- auth/auth/db/session.py.
mod Tables
mod Rows
mod Session
unfoldable pub use Tables.*
pub use Rows.*
pub use Session.*
