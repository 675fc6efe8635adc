-- ===== src/Subsystems/Opd/Power.antt =====
-- OPD nodes whose chip works: the state that the software keeps, against the pins of the chip.
use oresat_c3_software.Prelude.{
  ℕ, ◌≡◌, ◌⊎◌, inl, inr, refl, arith, Bool, true, false, List, ok, With, Bool-cases,
}
use oresat_c3_software.Drivers.I2c.{I2c}
use oresat_c3_software.Drivers.Max7310.{Max7310, input_port, is_valid, output_set, output_clear}
use oresat_c3_software.Drivers.Max7310.Pins.{
  IsWorking, i2c_read_reg_lem, output_status-output_set, output_status-output_clear,
}
use oresat_c3_software.Subsystems.Opd.Node.{
  disabled, enabled, is_not_found, is_dead, Node, chip, Kind, base, stm32, octavo,
}
use oresat_c3_software.Subsystems.Opd.Methods.{
  probe, base_enable, base_disable, stm32_enable, stm32_disable, octavo_enable, enable, disable,
  is_enabled,
}

Kind-cases : (k : Kind) → (k ≡ base) ⊎ (k ≡ stm32) ⊎ (k ≡ octavo)
Kind-cases base = inl refl
Kind-cases stm32 = inr (inl refl)
Kind-cases octavo = inr (inr refl)

module _ {Bus : Type 0} (io : I2c Bus) (regs : Bus → List ℕ) where
  abbrev pub chip_of : Node Bus → With Max7310 Bus
  chip_of w = record { self = w.self.max7310; bus = w.bus }

  -- The node's chip works.
  abbrev pub ChipWorks : Node Bus → Type 0
  ChipWorks w = IsWorking io regs (chip_of w)

  base_enable_works :
      (w : Node Bus)
      → ChipWorks w
      → is_not_found w.self.status ≡ false
      → let (st, w') = base_enable io w in
        (st ≡ enabled) × (w'.self.status ≡ enabled) × ChipWorks w' × ((is_enabled io w').0 ≡ true)
  unfolding base_enable is_enabled
  base_enable_works w k h =
      ground (arith, output_status-output_set io regs (chip_of w) 3 3 k (omega arith) (omega arith))

  base_disable_works :
      (w : Node Bus)
      → ChipWorks w
      → let (st, w') = base_disable io w in
        (st ≡ disabled)
        × (w'.self.status ≡ disabled)
        × ChipWorks w'
        × ((is_enabled io w').0 ≡ false)
  unfolding base_disable is_enabled
  base_disable_works w k =
      ground
        (arith, output_status-output_clear io regs (chip_of w) 3 3 k (omega arith) (omega arith))

  -- A node with a working chip that has been found is enabled by `enable`, whatever its class:
  -- the state says ENABLED and the enable pin is set.
  pub enable_works :
      (b : Bool) (w : Node Bus)
      → ChipWorks w
      → is_not_found w.self.status ≡ false
      → let (st, w') = enable io b w in
        (st ≡ enabled) × (w'.self.status ≡ enabled) × ChipWorks w' × ((is_enabled io w').0 ≡ true)
  unfolding enable stm32_enable octavo_enable
  enable_works b w k h = elim (Kind-cases w.self.kind) [
    | inl e ↦ ground (arith, base_enable_works w k h)
    | inr (inl e) ↦ elim (Bool-cases b) [
      | inl boot ↦ ground (
        arith,
        output_status-output_set io regs (chip_of w) 5 5 k (omega arith) (omega arith),
        base_enable_works (chip (output_set io 5) w).1,
      )
      | inr app ↦ ground (
        arith,
        output_status-output_clear io regs (chip_of w) 5 5 k (omega arith) (omega arith),
        base_enable_works (chip (output_clear io 5) w).1,
      )
    ]
    | inr (inr e) ↦ ground (
      arith,
      output_status-output_set io regs (chip_of w) 0 0 k (omega arith) (omega arith),
      base_enable_works (chip (output_set io 0) w).1,
    )
  ]

  -- A node with a working chip is switched off by `disable`, whatever its class and its state:
  -- the state says DISABLED and the enable pin is clear.
  pub disable_works :
      (w : Node Bus)
      → ChipWorks w
      → let (st, w') = disable io w in
        (st ≡ disabled)
        × (w'.self.status ≡ disabled)
        × ChipWorks w'
        × ((is_enabled io w').0 ≡ false)
  unfolding disable stm32_disable
  disable_works w k = elim (Kind-cases w.self.kind) [
    | inl e ↦ ground (arith, base_disable_works w k)
    | inr (inl e) ↦ ground (
      arith,
      output_status-output_clear io regs (chip_of w) 5 5 k (omega arith) (omega arith),
      base_disable_works (chip (output_clear io 5) w).1,
    )
    | inr (inr e) ↦ ground (arith, base_disable_works w k)
  ]

  is_valid_lem : (s : With Max7310 Bus) → IsWorking io regs s → is_valid io s ≡ (ok true, s)
  unfolding is_valid
  is_valid_lem s k = ground (arith, i2c_read_reg_lem io regs s input_port k)

  -- A probe without a reset of a node that is there, not dead, and known, leaves the chip as it
  -- is and sets the state to DISABLED, also where the node is enabled.
  probe_known :
      (w : Node Bus)
      → ChipWorks w
      → is_not_found w.self.status ≡ false
      → is_dead w.self.status ≡ false
      → probe io false w ≡ (true, record w { self = record w.self { status = disabled } })
  unfolding probe
  probe_known w k h d = ground (arith, is_valid_lem (chip_of w) k)
