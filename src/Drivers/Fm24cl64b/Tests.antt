-- ===== src/Drivers/Fm24cl64b/Tests.antt =====
-- The driver's theorems at concrete inputs.
use oresat_c3_software.Prelude.{◌≡◌, inl, arith, [], ◌∷◌, ok}
use oresat_c3_software.Drivers.Fm24cl64b.{read, write}
use oresat_c3_software.Drivers.Fm24cl64b.Memory.{read-write}
use oresat_c3_software.Drivers.Fm24cl64b.Chip.{fram_bus, fram_bytes, blank_fram, blank_fram-IsFram}

read-write_example :
    let (r, s') = write fram_bus 16 (7 ∷ 8 ∷ []) blank_fram in
    (r ≡ ok tt)
    × ((read fram_bus 16 2 s').0 ≡ ok (7 ∷ 8 ∷ []))
    × ((read fram_bus 0 4 s').0 ≡ (read fram_bus 0 4 blank_fram).0)
read-write_example =
    read-write fram_bus fram_bytes 16 (7 ∷ 8 ∷ []) 0 4 blank_fram blank_fram-IsFram (omega arith)
      (omega arith) (omega arith) (omega arith) (inl (omega arith))
