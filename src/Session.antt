-- ===== src/Session.antt =====
-- The session layer, airusb/session: leases, pairing and the exporter.
pub mod Lease
pub mod Pairing
pub mod Exporter
