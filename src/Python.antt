-- ===== src/Python.antt =====
-- What the source uses of Python's language and standard library.
pub mod Errors
pub mod Stream
pub mod Text
pub mod Base64
