-- ===== src/Ormpatch/Compile.antt =====
-- ormpatch/compile.go: the compilation of a document. The methods that write are in Writes, those
-- that resolve an address in Address, and those that handle one target in Targets.
pub mod Writes
pub mod Fresh
pub mod Supported
pub mod Address
pub mod Targets
pub mod Document
pub mod Suits
pub mod Calls
pub mod Elements
pub mod Sites
pub mod Scopes
pub mod Induction
pub mod Columns
pub mod Frames
