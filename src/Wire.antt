-- ===== src/Wire.antt =====
-- The bytes on a connection: utils/networkEndianness.hpp, utils/network/dataPackage.hpp and
-- utils/network/package.hpp, on a little-endian host.
pub mod Endian
pub mod DataPackage
pub mod Package
