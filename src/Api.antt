-- ===== src/Api.antt =====
-- internal/api: the HTTP server's middleware.
pub mod RateLimit
pub mod Tests
