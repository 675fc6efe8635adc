-- ===== src/Drivers/Si41xx/Synthesis.antt =====
-- What `start` and `set_if` program into the chip.
use mathlib.Core.List.{append_assoc}
use oresat_c3_software.Prelude.{
  ℕ, ◌+◌, ◌*◌, ◌%◌, ◌^◌, ◌≤◌, ◌≡◌, ◌⊎◌, inl, inr, refl, ◌∙◌, arith, List, [], ◌∷◌, ◌++◌, Bool, true,
  false, ok, err, ◌>>◌, >>-ok, Result-cases,
}
use oresat_c3_software.Drivers.Si41xx.{
  Si41xx, Driver, Si41xxRegister, pwrdown, if_ndiv, if_rdiv, reg_value, ifdiv_value, Si41xxError,
  data_mask, write_events, write_reg, calc_div, pick_div, set_phase_pwrdown_reg, set_if_ndiv_reg,
  set_if_rdiv_reg, set_if, program_if, write_pwrdown, set_pbib, PinEvent, bit,
}
use oresat_c3_software.Drivers.Si41xx.Serial.{Serial, latched, latched-write_events, word_of}

-- The lines behind a write that fits.
abbrev sent : Si41xxRegister → ℕ → List PinEvent → List PinEvent
sent reg value pins = pins ++ write_events (reg_value reg + value % 2 ^ 18 * 16)

-- What the chip latches of three writes.
abbrev program_pins : ℕ → ℕ → List PinEvent → List PinEvent
program_pins n r pins = sent pwrdown 2 (sent if_rdiv r (sent if_ndiv n pins))

write_reg_fits :
    (reg : Si41xxRegister) (value : ℕ) (s : Si41xx)
    → value ≤ data_mask
    → write_reg reg value s ≡ (ok tt, record s { pins = sent reg value s.pins })
unfolding write_reg
write_reg_fits reg value s h = ground arith

set_if_ndiv_reg_fits :
    (n : ℕ)
    → n ≤ 0xFF_FF
    → (s : Si41xx) → set_if_ndiv_reg n s ≡ (ok tt, record s { pins = sent if_ndiv n s.pins })
unfolding set_if_ndiv_reg
set_if_ndiv_reg_fits n h s = ground (arith, write_reg_fits if_ndiv n s)

set_if_rdiv_reg_fits :
    (r : ℕ)
    → r ≤ 0x1_FF_FF
    → (s : Si41xx) → set_if_rdiv_reg r s ≡ (ok tt, record s { pins = sent if_rdiv r s.pins })
unfolding set_if_rdiv_reg
set_if_rdiv_reg_fits r h s = ground (arith, write_reg_fits if_rdiv r s)

write_pwrdown_lem :
    (b : Bool) (s : Si41xx)
    → s.pbrb ≡ false
    → s.pbib ≡ b
    → write_pwrdown s ≡ (ok tt, record s { pins = sent pwrdown (bit b * 2) s.pins })
unfolding set_phase_pwrdown_reg
write_pwrdown_lem true s p q = ground (arith, write_reg_fits pwrdown 2 s)
write_pwrdown_lem false s p q = ground (arith, write_reg_fits pwrdown 0 s)

program_if_lem :
    (n r : ℕ) (s : Si41xx)
    → s.pbrb ≡ false
    → n ≤ 0xFF_FF
    → r ≤ 0x1_FF_FF
    → program_if n r s ≡ (
      ok tt,
      record s { if_n = n; if_r = r; pbib = true; pins = program_pins n r (sent pwrdown 0 s.pins) },
    )
program_if_lem n r s b hn hr =
    let s1 = record s { if_n = n; if_r = r; pbib = false } in
    let s2 = record s1 { pins = sent pwrdown 0 s1.pins } in
    let s3 = record s2 { pins = sent if_ndiv n s2.pins } in
    let s4 = record s3 { pins = sent if_rdiv r s3.pins } in
    let k3 : Driver (Unit {0}) = set_pbib true >> write_pwrdown in
    let k2 : Driver (Unit {0}) = set_if_rdiv_reg r >> k3 in
    >>-ok write_pwrdown (set_if_ndiv_reg n >> k2) s1 s2 (write_pwrdown_lem false s1 b refl)
    ∙ >>-ok (set_if_ndiv_reg n) k2 s2 s3 (set_if_ndiv_reg_fits n hn s2)
    ∙ >>-ok (set_if_rdiv_reg r) k3 s3 s4 (set_if_rdiv_reg_fits r hr s3)
    ∙ write_pwrdown_lem true (record s4 { pbib = true }) b refl

-- What the chip latches of the four writes of `set_if`.
latched_program :
    (n r : ℕ) (c : Serial) (pins : List PinEvent)
    → n ≤ 0xFF_FF
    → r ≤ 0x1_FF_FF
    → latched c (program_pins n r (sent pwrdown 0 pins))
      ≡ latched c pins
        ++ (word_of pwrdown 0
            ∷ (word_of if_ndiv n ∷ (word_of if_rdiv r ∷ (word_of pwrdown 2 ∷ []))))
latched_program n r c pins hn hr =
    rw
      (
        latched-write_events pwrdown 2 c _ (omega arith),
        latched-write_events if_rdiv r c _ (omega arith),
        latched-write_events if_ndiv n c _ (omega arith),
        latched-write_events pwrdown 0 c pins (omega arith),
      )
      (simp append_assoc)

calc_div_bounds : (ref freq n r : ℕ) → calc_div ref freq ≡ ok (n, r) → (n ≤ 0xFF_FF) × (r ≤ 0x1F_FF)
unfolding calc_div pick_div
calc_div_bounds ref freq n r h = ground arith

set_if_raises :
    (freq : ℕ) (s : Si41xx) (e : Si41xxError)
    → calc_div s.ref_freq (freq * 2 ^ ifdiv_value s.if_div) ≡ err e
    → set_if freq s ≡ (err e, s)
unfolding set_if
set_if_raises freq s e h = rw (h, set_if) refl

set_if_returns :
    (freq : ℕ) (s : Si41xx) (n r : ℕ)
    → calc_div s.ref_freq (freq * 2 ^ ifdiv_value s.if_div) ≡ ok (n, r)
    → set_if freq s ≡ program_if n r s
unfolding set_if
set_if_returns freq s n r h = rw (h, set_if) refl

-- `set_if` either raises what `calc_div` raises and leaves the driver and the chip as they were,
-- or returns. Then the driver holds the two dividers of `calc_div`, and the chip has been powered
-- down, has got both of them, and has been powered up again; no register setter raises.
pub set_if_outcome :
    (freq : ℕ) (c : Serial) (s : Si41xx)
    → s.pbrb ≡ false
    → let (result, s') = set_if freq s in
      let answer = calc_div s.ref_freq (freq * 2 ^ ifdiv_value s.if_div) in
      ((e : Si41xxError) × (answer ≡ err e) × (result ≡ err e) × (s' ≡ s))
      ⊎ ((n : ℕ) × ((r : ℕ) × (answer ≡ ok (n, r))
            × (result ≡ ok tt)
            × (s'.if_n ≡ n)
            × (s'.if_r ≡ r)
            × (s'.pbib ≡ true)
            × (latched c s'.pins
                ≡ latched c s.pins
                  ++ (word_of pwrdown 0
                      ∷ (word_of if_ndiv n ∷ (word_of if_rdiv r ∷ (word_of pwrdown 2 ∷ [])))))))
set_if_outcome freq c s b =
    elim (Result-cases (calc_div s.ref_freq (freq * 2 ^ ifdiv_value s.if_div))) [
      | inr (e, h) ↦ rw (set_if_raises freq s e h) (inl (e, h, refl, refl))
      | inl ((n, r), h) ↦
          let (hn, hr) = calc_div_bounds s.ref_freq (freq * 2 ^ ifdiv_value s.if_div) n r h in
          rw (set_if_returns freq s n r h ∙ program_if_lem n r s b hn (omega arith))
            (inr (n, (r, h, refl, refl, refl, refl, latched_program n r c s.pins hn (omega arith))))
    ]
