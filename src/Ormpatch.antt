-- ===== src/Ormpatch.antt =====
-- The `ormpatch` package (ormpatch/*.go): patch documents compiled to the writes and predicates
-- of one UPDATE.
pub mod Document
pub mod Errors
pub mod Library
pub mod Plan
pub mod Literal
pub mod Props
pub mod State
pub mod Compile
pub mod Plans
pub mod Request
pub mod EntityOf
