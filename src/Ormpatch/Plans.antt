-- ===== src/Ormpatch/Plans.antt =====
-- What `CompileWith` (ormpatch/compile.go) promises of the plans that it makes.
pub mod Success
pub mod Columns
pub mod Values
pub mod Tests
pub mod Lengths
pub mod Order
pub mod Folding
pub mod Failure
pub mod Depth
