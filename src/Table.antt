-- ===== src/Table.antt =====
-- src/NodeTable.h and src/NodeTable.cpp: the unique table of nodes and the operations on it.
pub mod State
pub mod Layout
pub mod Growth
pub mod Collect
pub mod Create
pub mod Creation
pub mod Meaning
pub mod Cofactor
pub mod Combine
pub mod Caching
pub mod Expand
pub mod Shortcut
pub mod Correct
pub mod Negate
pub mod Reheap
pub mod After
pub mod Marked
pub mod Tidy
pub mod Swept
pub mod Collected
pub mod Collection
pub mod Roomy
pub mod Maintenance
pub mod Supply
pub mod Semantics
pub mod Operations
