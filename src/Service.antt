-- ===== src/Service.antt =====
-- internal/service: the rules of the application over the repositories.
pub mod Limits
pub mod Posts
pub mod Reports
pub mod Feeds
pub mod Auth
