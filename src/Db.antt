-- ===== src/Db.antt =====
-- core/src/db: the library's SQLite store.
pub mod Result
pub mod Tables
pub mod Monad
pub mod Audit
pub mod Contents
pub mod Metadata
pub mod Documents
pub mod Linking
pub mod Removal
pub mod Reading
