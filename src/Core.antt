-- ===== src/Core.antt =====
-- The platform-free core of the hub, airusb/core: status values, credit and request tracking.
pub mod Status
pub mod Clock
pub mod Usb
pub mod Credit
pub mod Requests
pub mod Manifest
pub mod Ep0
