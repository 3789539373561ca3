-- ===== src/Net.antt =====
-- The server's objects around the parser: the pools, the sessions, and the acceptor.
pub mod IoServicePool
pub mod DbConnectPool
pub mod Session
pub mod Target
pub mod Reading
pub mod Lifetime
pub mod Server
pub mod Accepting
pub mod System
mod Tests
