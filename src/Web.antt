-- ===== src/Web.antt =====
-- web/: the rate limiter, the sessions, the cookies and the login route of the web server.
pub mod RateLimiter
pub mod SessionStore
pub mod Files
pub mod Login
