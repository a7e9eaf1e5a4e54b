-- ===== src/Subscription.antt =====
-- The subscription requests, the report buffer and the recovery of native/src/subscription.cpp. The
-- credit for reports stands in Credit.
pub mod Types
pub mod Buffer
pub mod Recovery
