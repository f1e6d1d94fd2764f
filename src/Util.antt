-- ===== src/Util.antt =====
-- util/: the containers and codecs that the other directories build on.
pub mod Varint
pub mod Rope
pub mod Utf
pub mod Strings
pub mod FibonacciSequence
pub mod HashFilter
