-- ===== src/Db/SsTable.antt =====
-- db/sstable.h and db/sstable.cc: a table of sorted entries in a file.
-- The file is a row of blocks of entries, then the place of each block, then the last key of each
-- block, then how many blocks there are and how many bytes their keys take.
pub mod Builder
pub mod Reader
pub mod Iterator
