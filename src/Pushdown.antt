-- ===== src/Pushdown.antt =====
-- mongo/pushdown.rs: predicates translated into `$match` documents.
pub mod Expr
pub mod Like
pub mod Literal
pub mod Column
pub mod Translate
pub mod Engines
pub mod Typed
pub mod Leaves
pub mod Ranges
pub mod Members
pub mod Guards
pub mod Facts
pub mod Connectives
pub mod Truths
pub mod Exact
pub mod Toy
pub mod ToySql
mod Tests
