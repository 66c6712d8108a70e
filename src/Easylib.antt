-- ===== src/Easylib.antt =====
-- src/easylib.cpp. A string is the list of its characters, each a number below 256.
pub mod Check
pub mod Pieces
pub mod Base64
pub mod Url
pub mod Command
pub mod Trim
mod Tests
