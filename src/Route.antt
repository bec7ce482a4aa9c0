-- ===== src/Route.antt =====
-- web/route.go: the route trees of the HTTP server, one for each method.
pub mod Node
pub mod Insert
pub mod Find
pub mod Shape
pub mod Literal
pub mod Methods
pub mod Regex
mod Tests
pub mod Group
