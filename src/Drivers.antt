-- ===== src/Drivers.antt =====
-- oresat_c3/drivers: the chips that the flight software talks to.
pub mod I2c
pub mod Max7310
pub mod Fm24cl64b
pub mod Si41xx
