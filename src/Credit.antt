-- ===== src/Credit.antt =====
-- ReportCreditManager of native/src/subscription.cpp: reports go out under credit (64 frames and
-- 1 MiB for the session, 16 frames for a stream), and wait in one queue where credit is lacking.
-- A byte string is a list of numbers. `encode` and `transmit` are the callbacks of the source; the
-- answer of `transmit` may depend on every frame that was handed to it before, which `calls` holds.
pub mod Table
pub mod State
pub mod Send
pub mod Settle
pub mod Retire
pub mod Cases
pub mod Loops
pub mod Accounting
pub mod StreamCounts
