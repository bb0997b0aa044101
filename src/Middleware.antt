-- ===== src/Middleware.antt =====
-- internal/middleware: what runs before the handlers.
pub mod Gin
pub mod Headers
pub mod Security
pub mod Tor
pub mod Logger
pub mod Secured
pub mod Auth
pub mod Admin
pub mod RateLimit
