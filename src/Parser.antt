-- ===== src/Parser.antt =====
-- http_parser.c and http_parser.h.
pub mod Enums
pub mod Chars
pub mod State
pub mod Flow
pub mod UrlChar
pub mod Response
pub mod Request
pub mod Header
pub mod Value
pub mod Body
pub mod Execute
pub mod Tests
pub mod Progress
pub mod Slices
pub mod Classes
pub mod Lengths
pub mod LineEnd
pub mod Methods
