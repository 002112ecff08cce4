-- ===== src/Storage.antt =====
-- Block-addressed storage: the contract of storage/interface.py, and storage/memory_store.py.
pub mod Interface
pub mod Memory
