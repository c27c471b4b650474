-- ===== src/Glasgow.antt =====
-- src/uart/glasgow: the Glasgow provider. `Baud` and `Transport` model transport.rs, `Management`
-- and `Resource` management.rs, `Device` device.rs, `Build` the build script build.rs.
pub mod Baud
pub mod Management
pub mod Transport
pub mod Resource
pub mod Device
pub mod Open
pub mod Firmware
pub mod Provide
pub mod Build
