-- ===== src/Hash.antt =====
-- helpers/crc32.cpp. MD5 comes from a third-party library and is a parameter where it is used.
pub mod Bits
pub mod Crc32
