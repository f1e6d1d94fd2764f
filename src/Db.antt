-- ===== src/Db.antt =====
-- db/: tables in files.
pub mod SsTable
