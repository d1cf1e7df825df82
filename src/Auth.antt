-- ===== src/Auth.antt =====
-- contexts/auth: accounts, sessions, the login limiter and repo roles. Limiter.antt is
-- LoginRateLimiter, Sessions.antt the session store and SlidingWindowSessionManager, Users.antt
-- LibsqlUserStore, Service.antt AuthService.
pub mod Roles
pub mod Limiter
pub mod Sessions
pub mod Users
pub mod Router
pub mod SessionRouter
mod SessionTests
pub mod Service
mod Tests
mod RouterTests
