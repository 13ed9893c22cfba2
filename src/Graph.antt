-- ===== src/Graph.antt =====
-- The `graph` package (graph/*.go): the schema's entities, their props and what is derived of them.
pub mod Prop
pub mod Entity
pub mod Patch
pub mod Index
pub mod Rpc
pub mod Parse
pub mod Store
pub mod Failure
pub mod Finish
pub mod Parser
pub mod File
pub mod View
pub mod GoType
