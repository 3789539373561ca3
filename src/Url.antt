-- ===== src/Url.antt =====
-- `http_parser_parse_url` of http_parser.c, and class `url_obj` of request_respons.h.
pub mod Host
pub mod Parse
pub mod Bounds
mod Tests
