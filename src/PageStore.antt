-- ===== src/PageStore.antt =====
-- src/backend/core/page_store.rs
pub mod File
pub mod Header
pub mod Store
pub mod Compact
pub mod Laws
pub mod Durability
pub mod Merging
pub mod Rewriting
pub mod History
pub mod Faults
pub mod Contract
