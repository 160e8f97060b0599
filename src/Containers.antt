-- ===== src/Containers.antt =====
-- Containers.
pub mod Nodes
pub mod List
pub mod DynamicArray
pub mod HashTable
