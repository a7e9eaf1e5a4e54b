-- ===== src/Protocol.antt =====
-- The JSON shapes of HostProtocol (native/src/protocol.cpp).
pub mod Texts
pub mod Words
pub mod Elements
pub mod Envelopes
pub mod Parameters
pub mod Services
pub mod Responses
