-- ===== src/Ormpb.antt =====
-- The `ormpb` package (ormpb/*.go): the ORM's types and the options that a schema carries.
pub mod Kinds
pub mod Ref
pub mod Options
