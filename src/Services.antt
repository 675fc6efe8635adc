-- ===== src/Services.antt =====
-- oresat_c3/services: the services that run on the c3.
pub mod NodeManager
pub mod State
pub mod Beacon
pub mod Radios
pub mod Edl
