-- ===== src/Platform.antt =====
-- src/platform.cpp and src/platform.hpp: the description of a platform, its registry and its devices.
pub mod Text
pub mod Decimal
pub mod Registry
pub mod Spec
pub mod Order
pub mod Build
pub mod Connect
pub mod Removal
pub mod Options
pub mod Cycles
pub mod Devices
mod Tests
