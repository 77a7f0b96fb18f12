-- ===== src/Http.antt =====
-- The HTTP front of esp8266_decoder/source: requests (request.h), their parsing and reading
-- (http_parser.cpp), the percent escapes and the answers (http_utils.cpp). A text is its bytes; a C string ends before its first 0.
pub mod Escape
pub mod Request
pub mod Query
pub mod FirstLine
pub mod Response
pub mod Connection
