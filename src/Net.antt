-- ===== src/Net.antt =====
-- micro/net: the framed RPC transport, its load balancers and its endpoints.
pub mod Frame
pub mod Balancer
pub mod Endpoint
pub mod Streams
pub mod Calls
pub mod Client
pub mod Server
pub mod Options
