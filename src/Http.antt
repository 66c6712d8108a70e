-- ===== src/Http.antt =====
-- src/httpmessage.cpp, src/httprequest.cpp and src/httpresponse.cpp. A string is the list of its characters.
pub mod Number
pub mod Query
pub mod Request
pub mod Feed
pub mod Response
pub mod Login
pub mod Access
mod Tests
