-- ===== src/Tests.antt =====
-- Concrete schemas and documents, on which the theorems of the other modules are applied.
mod Schema
pub mod Plans
mod Order
pub mod Layout
mod Kinds
mod GoTypes
mod Request
pub mod Generated
mod Supported
mod Literal
mod Graph
mod Parse
pub mod Parser
mod Files
