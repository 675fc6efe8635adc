-- ===== src/Drivers/Max7310/Chip.antt =====
-- A simulated MAX7310, which meets what the theorems on the driver ask of the bus.
use oresat_c3_software.Prelude.{
  ℕ, refl, arith, List, [], ◌∷◌, Bool, true, false, some, none, Option, get_or, set, With, zero,
  suc, ◌≡◌, ◌<◌, ◌∙◌, length, length-set, bit_and_not,
}
use oresat_c3_software.Drivers.I2c.{I2c}
use oresat_c3_software.Drivers.Max7310.{Max7310}
use oresat_c3_software.Drivers.Max7310.Pins.{IsChip, IsWorking}

-- The level of the pins: that of the output port for an output, low for an input.
abbrev pin_levels : List ℕ → List ℕ
pin_levels (i ∷ o ∷ p ∷ c ∷ rest) = bit_and_not o c ∷ o ∷ p ∷ c ∷ rest
pin_levels regs = regs

-- A bus with one chip on it, which is its list of registers; its input port follows the pins.
abbrev one_chip_write : ℕ → ℕ → List ℕ → List ℕ → Bool × List ℕ
one_chip_write bus_num addr (r ∷ v ∷ []) regs = (true, pin_levels (set regs r v))
one_chip_write bus_num addr _ regs = (false, regs)

abbrev one_chip_read : ℕ → ℕ → List ℕ → ℕ → List ℕ → Option (ℕ → ℕ) × List ℕ
one_chip_read bus_num addr (r ∷ []) n regs = (some (λ i. get_or regs r 0), regs)
one_chip_read bus_num addr _ n regs = (none, regs)

abbrev pub one_chip : I2c (List ℕ)
one_chip = record { write = one_chip_write; write_read = one_chip_read }

abbrev pub start : With Max7310 (List ℕ)
start = record {
  self = record { mock = false; mock_regs = []; bus_num = 2; addr = 0x18 };
  bus = 0x04 ∷ 0x21 ∷ 0xF0 ∷ 0xFF ∷ 0x01 ∷ [];
}

length-pin_levels : (regs : List ℕ) → length (pin_levels regs) ≡ length regs
length-pin_levels (i ∷ o ∷ p ∷ c ∷ rest) = refl
length-pin_levels [] = refl
length-pin_levels (i ∷ []) = refl
length-pin_levels (i ∷ o ∷ []) = refl
length-pin_levels (i ∷ o ∷ p ∷ []) = refl

pin_levels_kept : (regs : List ℕ) (i : ℕ) → 0 < i → get_or (pin_levels regs) i 0 ≡ get_or regs i 0
pin_levels_kept (i ∷ o ∷ p ∷ c ∷ rest) zero h = absurd (omega arith)
pin_levels_kept (i ∷ o ∷ p ∷ c ∷ rest) (suc k) h = refl
pin_levels_kept [] k h = refl
pin_levels_kept (i ∷ []) k h = refl
pin_levels_kept (i ∷ o ∷ []) k h = refl
pin_levels_kept (i ∷ o ∷ p ∷ []) k h = refl

one_chip-IsChip : IsChip one_chip (λ regs. regs) 2 0x18
one_chip-IsChip = record {
  reply = λ b r i. get_or b r 0;
  reads = λ b r. refl;
  reply_first = λ b r. refl;
  after = λ b r v. pin_levels (set b r v);
  writes = λ b r v. refl;
  after_length = λ b r v. length-pin_levels (set b r v) ∙ length-set b r v;
  after_regs = λ b r v i p q h pos. pin_levels_kept (set b r v) i pos;
}

pub start-IsWorking : IsWorking one_chip (λ regs. regs) start
start-IsWorking = record { chip = λ m. one_chip-IsChip; five = refl; byte = omega arith }
