-- ===== src/Utf8.antt =====
-- utf8/: UTF-8 sequences in NUL-terminated strings.
pub mod Byte
pub mod Raw
pub mod Path
