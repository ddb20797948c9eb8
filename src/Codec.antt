-- ===== src/Codec.antt =====
-- The byte-level helpers of src/ST87M01_TlsProvisioning.cpp and src/ST87M01.cpp. A byte or a
-- character is a number below 256, a buffer with its length a list of those.
pub mod Hex
pub mod Decode
