-- ===== src/Charset.antt =====
-- Encodings of src/main/pa_charset.C. A text is the list of its bytes from `srcPtr` to `srcEnd`, a buffer
-- the list of what is written to it.
pub mod Utf8
pub mod Tables
pub mod Escape
pub mod Transcode
