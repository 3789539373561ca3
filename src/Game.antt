-- ===== src/Game.antt =====
-- The game's logic: the users that are logged in, and the answer to a request.
pub mod Json
pub mod Client
pub mod Manager
pub mod Users
pub mod Expiry
pub mod Answers
pub mod Program
pub mod Tests
