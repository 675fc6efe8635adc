-- ===== src/Drivers/Max7310/Pins.antt =====
-- What the pin operations of the driver do to the registers of a MAX7310, in the mock and on
-- hardware that keeps the registers other than the input port, which reads the level of the pins.
use oresat_c3_software.Prelude.{
  ℕ, ◌<◌, ◌≤◌, ◌≡◌, ◌≢◌, refl, sym, ◌∙◌, arith, inl, inr, bit_or, bit_mask, bit_and_not, bit_at,
  bit_at-bit_or, bit_at-bit_and_not, bit_and_not-high, ==_iff, bit_or-lt, ◌==◌, List, [], ◌∷◌, true,
  false, not, ◌&&◌, ◌||◌, some, Bool-cases, if◌then◌else◌, length, get_or, set, length-set,
  get_or-set_self, get_or-set_ne, ok, With,
}
use oresat_c3_software.Drivers.I2c.{I2c}
use oresat_c3_software.Drivers.Max7310.{
  Max7310, Max7310Reg, input_port, output_port, polarity_inversion, configuration, timeout,
  reg_value, valid_pin, i2c_read_reg, i2c_write_reg, output_set, output_clear, output_status,
}

-- What the data sheet says of a chip on the bus: a read gives the register that was named, and a
-- write of any register but the input port is seen by the later reads and changes no other
-- register, but for the input port, which follows the pins. `regs` are its registers.
pub record IsChip {Bus : Type 0} (io : I2c Bus) (regs : Bus → List ℕ) (bus_num addr : ℕ)
    : Type 0 where
  pub reply : Bus → ℕ → ℕ → ℕ
  pub reads : (b : Bus) (r : ℕ) → io.write_read bus_num addr (r ∷ []) 1 b ≡ (some (reply b r), b)
  pub reply_first : (b : Bus) (r : ℕ) → reply b r 0 ≡ get_or (regs b) r 0
  pub after : Bus → ℕ → ℕ → Bus
  pub writes : (b : Bus) (r v : ℕ) → io.write bus_num addr (r ∷ v ∷ []) b ≡ (true, after b r v)
  pub after_length : (b : Bus) (r v : ℕ) → length (regs (after b r v)) ≡ length (regs b)
  pub after_regs :
      (b : Bus) (r v i : ℕ)
      → 0 < r
      → r < 5
      → v < 256
      → 0 < i
      → get_or (regs (after b r v)) i 0 ≡ get_or (set (regs b) r v) i 0

module _ {Bus : Type 0} (io : I2c Bus) (regs : Bus → List ℕ) where
  -- The registers that the driver reads and writes: its own in the mock, else the chip's.
  abbrev pub registers : With Max7310 Bus → List ℕ
  registers s = if s.self.mock then s.self.mock_regs else regs s.bus

  pub record IsWorking (s : With Max7310 Bus) : Type 0 where
    pub chip : s.self.mock ≡ false → IsChip io regs s.self.bus_num s.self.addr
    pub five : length (registers s) ≡ 5
    pub byte : get_or (registers s) 1 0 < 256

  pub i2c_read_reg_lem :
      (s : With Max7310 Bus) (r : Max7310Reg)
      → IsWorking s
      → i2c_read_reg io r s ≡ (ok (get_or (registers s) (reg_value r) 0), s)
  unfolding i2c_read_reg
  i2c_read_reg_lem s r w = elim (Bool-cases s.self.mock) [
    | inl m ↦ ground arith
    | inr m ↦
        let c = w.chip m in
        ground (arith, c.reads s.bus (reg_value r), c.reply_first s.bus (reg_value r))
  ]

  -- What a successful write of register `r` leaves.
  record Wrote (s : With Max7310 Bus) (r : Max7310Reg) (v : ℕ) (s' : With Max7310 Bus)
      : Type 0 where
    mock : s'.self.mock ≡ s.self.mock
    bus_num : s'.self.bus_num ≡ s.self.bus_num
    addr : s'.self.addr ≡ s.self.addr
    same_length : length (registers s') ≡ length (registers s)
    written :
        (i : ℕ) → 0 < i → get_or (registers s') i 0 ≡ get_or (set (registers s) (reg_value r) v) i 0

  reg_value-lt : (r : Max7310Reg) → reg_value r < 5
  reg_value-lt input_port = omega arith
  reg_value-lt output_port = omega arith
  reg_value-lt polarity_inversion = omega arith
  reg_value-lt configuration = omega arith
  reg_value-lt timeout = omega arith

  reg_value-pos : (r : Max7310Reg) → r ≢ input_port → 0 < reg_value r
  reg_value-pos input_port h = absurd (h refl)
  reg_value-pos output_port h = omega arith
  reg_value-pos polarity_inversion h = omega arith
  reg_value-pos configuration h = omega arith
  reg_value-pos timeout h = omega arith

  i2c_write_reg_lem :
      (s : With Max7310 Bus) (r : Max7310Reg) (v : ℕ)
      → IsWorking s
      → r ≢ input_port
      → v < 256
      → (i2c_write_reg io r v s).0 ≡ ok tt × Wrote s r v (i2c_write_reg io r v s).1
  unfolding i2c_write_reg
  i2c_write_reg_lem s r v w ne h = elim (Bool-cases s.self.mock) [
    | inl m ↦ ground (arith, length-set s.self.mock_regs (reg_value r) v)
    | inr m ↦
        let c = w.chip m in
        let kept : (i : ℕ)
            → 0 < i
            → get_or (regs (c.after s.bus (reg_value r) v)) i 0
              ≡ get_or (set (regs s.bus) (reg_value r) v) i 0 =
          λ i. c.after_regs s.bus (reg_value r) v i (reg_value-pos r ne) (reg_value-lt r) h in
        ground (arith, c.writes s.bus (reg_value r) v, c.after_length s.bus (reg_value r) v, kept)
  ]

  -- What a pin operation leaves: the output register is `v`, no other register but the input port
  -- has changed, and the driver still works.
  pub record Outputs (s : With Max7310 Bus) (v : ℕ) (s' : With Max7310 Bus) : Type 0 where
    pub works : IsWorking s'
    pub output : get_or (registers s') 1 0 ≡ v
    pub others : (i : ℕ) → 1 < i → get_or (registers s') i 0 ≡ get_or (registers s) i 0

  Wrote-Outputs :
      (s s' : With Max7310 Bus) (v : ℕ)
      → IsWorking s
      → v < 256
      → Wrote s output_port v s'
      → Outputs s v s'
  Wrote-Outputs s s' v w h d = record {
    works = record {
      chip = λ m. rw (d.bus_num, d.addr) (w.chip (sym d.mock ∙ m));
      five = d.same_length ∙ w.five;
      byte = rw out h;
    };
    output = out;
    others =
        λ i lt. d.written i (omega arith) ∙ get_or-set_ne (registers s) 1 i v 0 (λ e. omega arith);
  }
    where
      out : get_or (registers s') 1 0 ≡ v
      out =
          d.written 1 (omega arith) ∙ get_or-set_self (registers s) 1 v 0 (rw w.five (omega arith))

  write_output :
      (s : With Max7310 Bus) (v : ℕ)
      → IsWorking s
      → v < 256
      → ((i2c_write_reg io output_port v s).0 ≡ ok tt)
        × Outputs s v (i2c_write_reg io output_port v s).1
  write_output s v w h =
      let (done, wrote) = i2c_write_reg_lem s output_port v w (λ e. cc) h in
      (done, Wrote-Outputs s (i2c_write_reg io output_port v s).1 v w h wrote)

  output_set_lem :
      (s : With Max7310 Bus) (k : ℕ)
      → IsWorking s
      → k < 8
      → output_set io k s
        ≡ i2c_write_reg io output_port (bit_or (get_or (registers s) 1 0) (bit_mask k)) s
  unfolding output_set valid_pin
  output_set_lem s k w h = ground (arith, i2c_read_reg_lem s output_port w)

  output_clear_lem :
      (s : With Max7310 Bus) (k : ℕ)
      → IsWorking s
      → k ≤ 8
      → output_clear io k s
        ≡ i2c_write_reg io output_port (bit_and_not (get_or (registers s) 1 0) (bit_mask k)) s
  unfolding output_clear valid_pin
  output_clear_lem s k w h = ground (arith, i2c_read_reg_lem s output_port w)

  pub output_status_lem :
      (s : With Max7310 Bus) (j : ℕ)
      → IsWorking s
      → output_status io j s ≡ (ok (bit_at (get_or (registers s) 1 0) j), s)
  unfolding output_status
  output_status_lem s j w = ground (arith, i2c_read_reg_lem s output_port w)

  -- Setting pin `k` of a working chip succeeds and leaves it working; afterwards `output_status`
  -- reports pin `k` as set and every other pin as before, and no other register
  -- but the input port has changed.
  pub output_status-output_set :
      (s : With Max7310 Bus) (k j : ℕ)
      → IsWorking s
      → k < 8
      → j < 8
      → let (r, s') = output_set io k s in
        (r ≡ ok tt)
        × IsWorking s'
        × ((output_status io j s').0 ≡ ok (k == j || bit_at (get_or (registers s) 1 0) j))
        × ((i : ℕ) → 1 < i → get_or (registers s') i 0 ≡ get_or (registers s) i 0)
  output_status-output_set s k j w hk hj = rw (output_set_lem s k w hk) (
      let v : ℕ = bit_or (get_or (registers s) 1 0) (bit_mask k) in
      let (done, o) = write_output s v w (bit_or-lt _ k w.byte hk) in
      (
        done,
        o.works,
        rw (output_status_lem _ j o.works, o.output, bit_at-bit_or _ k j w.byte hk hj),
        o.others,
      ))

  -- Clearing pin `k` of a working chip succeeds and leaves it working; afterwards `output_status`
  -- reports pin `k` as clear and every other pin as before, and no other register
  -- but the input port has changed.
  pub output_status-output_clear :
      (s : With Max7310 Bus) (k j : ℕ)
      → IsWorking s
      → k < 8
      → j < 8
      → let (r, s') = output_clear io k s in
        (r ≡ ok tt)
        × IsWorking s'
        × ((output_status io j s').0 ≡ ok (not (k == j) && bit_at (get_or (registers s) 1 0) j))
        × ((i : ℕ) → 1 < i → get_or (registers s') i 0 ≡ get_or (registers s) i 0)
  output_status-output_clear s k j w hk hj = rw (output_clear_lem s k w (omega arith)) (
      let v : ℕ = bit_and_not (get_or (registers s) 1 0) (bit_mask k) in
      let (done, o) = write_output s v w (omega (arith, w.byte)) in
      (
        done,
        o.works,
        rw (output_status_lem _ j o.works, o.output, bit_at-bit_and_not _ k j w.byte hk hj),
        o.others,
      ))

  -- `_valid_pin` lets pin 8 through: `output_clear` of it succeeds and changes no register,
  -- but for the input port.
  output_clear_pin_eight :
      (s : With Max7310 Bus)
      → IsWorking s
      → let (r, s') = output_clear io 8 s in
        (r ≡ ok tt) × ((i : ℕ) → 0 < i → get_or (registers s') i 0 ≡ get_or (registers s) i 0)
  output_clear_pin_eight s w = rw (output_clear_lem s 8 w (omega arith)) (
      let (done, o) =
        write_output s (bit_and_not (get_or (registers s) 1 0) 256) w (omega (arith, w.byte)) in
      (
        done,
        λ i pos. elim (Bool-cases (1 == i)) [
          | inl e ↦ rw (← (==_iff 1 i).0 e, o.output) (bit_and_not-high _ w.byte)
          | inr n ↦ o.others i (ground (arith, (==_iff 1 i).1))
        ],
      ))
