-- ===== src/Server.antt =====
-- server/: what a client's message becomes before and after the query engine.
pub mod Split
pub mod Encode
pub mod Values
pub mod Handler
pub mod Answers
pub mod Described
pub mod Json
pub mod Compat
pub mod Runs
pub mod Stripping
pub mod Rewrites
mod Tests
mod Sessions
