-- ===== src/Subsystems.antt =====
-- oresat_c3/subsystems: what the services do with the chips.
pub mod Antennas
pub mod Opd
