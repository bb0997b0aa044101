-- ===== src/Handler.antt =====
-- internal/handler: requests to services, and results to responses.
pub mod Errors
pub mod Services
pub mod Request
pub mod Posts
pub mod Reports
pub mod Sessions
pub mod Feeds
pub mod Health
pub mod Websocket
pub mod Answers
