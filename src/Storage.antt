-- ===== src/Storage.antt =====
-- DurableStorage of native/src/storage.cpp: the key-value store of the controller, in one file.
pub mod Base64
pub mod Utf8
pub mod Files
pub mod Commit
pub mod Values
pub mod Names
pub mod Document
pub mod Store
