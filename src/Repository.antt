-- ===== src/Repository.antt =====
-- internal/repository: the queries of each repository.
pub mod Posts
pub mod Reports
pub mod Users
pub mod Feeds
