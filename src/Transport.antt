-- ===== src/Transport.antt =====
-- The transport layer, airusb/transport: the order in which frames go out.
pub mod Scheduler
pub mod Records
