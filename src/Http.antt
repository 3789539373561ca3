-- ===== src/Http.antt =====
-- The messages that `request_respons.h` declares: the ordered map of headers, the response, the URL.
pub mod Headers
pub mod Response
pub mod UrlObj
pub mod Slices
pub mod Order
pub mod Refinement
pub mod Lengths
pub mod Written
mod Tests
