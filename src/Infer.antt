-- ===== src/Infer.antt =====
-- catalog/infer.rs: shapes of sampled values, their join, and the Arrow schema that they become.
pub mod Tag
pub mod Shape
pub mod Observe
pub mod Schema
pub mod Fields
pub mod Kept
pub mod Fuel
pub mod Join
mod Tests
