-- ===== src/Protocol.antt =====
-- The AirUSB/1 protocol, airusb/protocol: the wire format and what is done with it.
pub mod Codec
pub mod Segmentation
pub mod Reassembly
pub mod Validate
pub mod Manifests
pub mod Messages
