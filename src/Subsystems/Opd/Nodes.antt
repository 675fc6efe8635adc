-- ===== src/Subsystems/Opd/Nodes.antt =====
-- The state of one OPD node under its methods, whatever its chip and the bus answer.
use oresat_c3_software.Prelude.{ℕ, zero, suc, ◌≡◌, ◌⊎◌, inr, arith, Bool, true, false}
use oresat_c3_software.Drivers.I2c.{I2c}
use oresat_c3_software.Subsystems.Opd.Node.{disabled, enabled, fault, dead, not_found, Node}
use oresat_c3_software.Subsystems.Opd.Methods.{probe, probe_alive, reset_try, reset_loop, reset}

module _ {Bus : Type 0} (io : I2c Bus) where
  probe_alive_outcome :
      (r : Bool) (w : Node Bus)
      → let w' = (probe_alive io r w).1 in
        (w'.self.status ≡ disabled) ⊎ (w'.self.status ≡ not_found)
  probe_alive_outcome r w = ground arith

  -- A probe of a node that is not dead finds it and leaves it DISABLED, or does not and leaves it
  -- NOT_FOUND. A dead node is not touched, and nothing is sent on the bus.
  probe_outcome :
      (r : Bool) (w : Node Bus)
      → let (found, w') = probe io r w in
        ((w.self.status ≡ dead) × (found ≡ false) × (w' ≡ w))
        ⊎ ((found ≡ true) × (w'.self.status ≡ disabled))
        ⊎ ((found ≡ false) × (w'.self.status ≡ not_found))
  unfolding probe
  probe_outcome r w = ground (arith, probe_alive_outcome r w)

  reset_try_outcome :
      (w : Node Bus)
      → let (done, w') = reset_try io w in
        ((done ≡ true) × (w'.self.status ≡ enabled)) ⊎ ((done ≡ false) × (w'.self.status ≡ fault))
  unfolding reset_try
  reset_try_outcome w = ground arith

  reset_loop_outcome :
      (n : ℕ) (w : Node Bus)
      → (w.self.status ≡ fault)
      → ((reset_loop io n w).self.status ≡ enabled) ⊎ ((reset_loop io n w).self.status ≡ fault)
  unfolding reset_loop
  reset_loop_outcome zero w h = inr h
  reset_loop_outcome (suc n) w h =
      ground (arith, reset_try_outcome w, reset_loop_outcome n (reset_try io w).1)

  -- Resetting a node with one attempt or more leaves it ENABLED or in FAULT, and answers with
  -- the state that it is left in.
  reset_settles :
      (n : ℕ) (w : Node Bus)
      → let (st, w') = reset io (suc n) w in (w'.self.status ≡ st) × ((st ≡ enabled) ⊎ (st ≡ fault))
  unfolding reset reset_loop
  reset_settles n w = ground (arith, reset_try_outcome w, reset_loop_outcome n (reset_try io w).1)
