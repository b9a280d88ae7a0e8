-- ===== src/Filter.antt =====
-- crates/nuncio-filter: the NSQL filter rules, their validation and their evaluation.
pub mod Ast
pub mod Platform
pub mod Compiled
pub mod Engine
pub mod Validator
pub mod Tests
