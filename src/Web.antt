-- ===== src/Web.antt =====
-- The HTTP side: web/context.go, web/server.go and the middlewares under web/middleware. What of
-- package net/http the code relies on is in Web/Exchange.
pub mod Exchange
pub mod Context
pub mod Server
pub mod Middlewares
pub mod Cors
pub mod RateLimit
mod Tests
