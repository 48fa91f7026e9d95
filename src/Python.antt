-- ===== src/Python.antt =====
-- What the source uses of Python's language and standard library: `struct` for unsigned integers,
-- text codecs, `int` of a text, and methods that change an object and may raise.
pub mod Bits
pub mod Bytes
pub mod Dict
pub mod Exec
pub mod Utf8
pub mod Utf16
pub mod Int
