-- ===== src/Subsystems/Opd/Reset.antt =====
-- `Opd.reset` of a subsystem that is not in the state FAULT.
use oresat_c3_software.Prelude.{ℕ, zero, suc, ◌≡◌, refl, arith, Bool, false, ok, With}
use oresat_c3_software.Drivers.I2c.{I2c}
use oresat_c3_software.Subsystems.Opd.{Opd, is_fault, reset_loop, reset}

module _ {Bus : Type 0} (io : I2c Bus) where
  reset_loop_running :
      (n i : ℕ) (pins : ℕ → Bool) (s : With Opd Bus)
      → is_fault s.self.status ≡ false
      → reset_loop io n i pins s ≡ (ok tt, s)
  unfolding reset_loop
  reset_loop_running zero i pins s h = refl
  reset_loop_running (suc n) i pins s h = ground arith

  -- A subsystem that is not in the state FAULT is left as it is.
  pub reset_unless_fault :
      (tries : ℕ) (pins : ℕ → Bool) (s : With Opd Bus)
      → is_fault s.self.status ≡ false
      → reset io tries pins s ≡ (ok tt, s)
  unfolding reset
  reset_unless_fault tries pins s h = ground (arith, reset_loop_running tries 0 pins s h)
