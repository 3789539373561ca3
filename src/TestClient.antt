-- ===== src/TestClient.antt =====
-- `client/TestClient.cpp`, the programs that try out the server and the database.
pub mod Mongo
pub mod Request
mod Tests
