-- ===== src/Protocols.antt =====
-- oresat_c3/protocols: what the card and the ground station send each other.
pub mod Struct
pub mod EdlCommand
pub mod EdlPacket
pub mod CacheStore
pub mod Cfdp
pub mod Ax25
