-- ===== src/C232.antt =====
-- src/uart/c232: the C232HD backends. `Usb` models usb.rs, `Baud` and `Vcp` model vcp.rs.
pub mod Status
pub mod Baud
pub mod Usb
pub mod Paths
pub mod Devices
pub mod Sysfs
pub mod Vcp
pub mod Discovery
pub mod Open
pub mod Port
pub mod Trait
