-- ===== src/Io.antt =====
-- io/: files, and what reads and writes them.
pub mod MemoryFile
pub mod File
pub mod FileUtils
pub mod LineReader
