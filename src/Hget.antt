-- ===== src/Hget.antt =====
-- The HTTP client of the board, board/hget/hget.c.
pub mod Exit
pub mod CString
pub mod Url
pub mod Conn
pub mod Output
pub mod Body
pub mod Connect
pub mod Tls
pub mod Headers
pub mod Fetch
pub mod Main
pub mod Dial
