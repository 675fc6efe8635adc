-- ===== src/Drivers/Si41xx/Divider.antt =====
-- `calc_div`: its loops end, and what it answers.
use Prim.Native.Nat.{◌∣◌}
use native.Mathlib.Nat
use oresat_c3_software.Prelude.{
  ℕ, zero, suc, ap, ◌^◌, ◌+◌, ◌*◌, ◌/◌, ◌%◌, ◌<◌, ◌≤◌, ◌≡◌, inl, inr, refl, sym, ◌∙◌, arith, ◌&&◌,
  some, Bool, Bool-cases, ltb, leb, ◌==◌, true, ok, err, if◌then◌else◌, check_from,
  check_from_sound,
}
use oresat_c3_software.Drivers.Si41xx.{
  out_of_phasedet, out_of_bounds, gcd_loop, halve_loop, pick_div, calc_div, max_phasedet,
  min_phasedet,
}
use oresat_c3_software.Drivers.Si41xx.Gcd.{IsGcd, gcd_loop-IsGcd}

-- The second loop ends below the maximum, and does not touch a number that is there already.
halve_loop-lt : (fuel p : ℕ) → p ≤ fuel → halve_loop fuel p < max_phasedet
unfolding halve_loop
halve_loop-lt zero p h = omega arith
halve_loop-lt (suc fuel) p h = ground (arith, halve_loop-lt fuel (p / 2))

halve_loop_below : (fuel p : ℕ) → p < max_phasedet → halve_loop fuel p ≡ p
unfolding halve_loop
halve_loop_below zero p h = refl
halve_loop_below (suc fuel) p h = ground arith

-- `d` is `g`, halved the least number of times, which is `times`, until it is below 1 MHz.
pub record IsHalved (g d : ℕ) : Type 0 where
  pub times : ℕ
  pub halved : d ≡ g / 2 ^ times
  pub below : d < 1_000_000
  pub least : (j : ℕ) → j < times → 1_000_000 ≤ g / 2 ^ j

half_of : (p j : ℕ) → p / 2 / 2 ^ j ≡ p / 2 ^ suc j
half_of p j = Nat.div-div-eq-div-mul p 2 (2 ^ j) ∙ ap (λ (m : ℕ). p / m) (sym (Nat.pow-succ' 2 j))

halve_again :
    (p d : ℕ) (t : IsHalved (p / 2) d)
    → 1_000_000 ≤ p
    → (j : ℕ) → j < suc t.times
    → 1_000_000 ≤ p / 2 ^ j
halve_again p d t h zero lt = rw (Nat.div-one p) h
halve_again p d t h (suc j) lt = rw (← half_of p j) (t.least j (omega arith))

halve_loop-IsHalved : (fuel p : ℕ) → p ≤ fuel → IsHalved p (halve_loop fuel p)
unfolding halve_loop
halve_loop-IsHalved zero p h = record {
  times = 0;
  halved = sym (Nat.div-one p);
  below = omega arith;
  least = λ j lt. absurd (omega arith);
}
halve_loop-IsHalved (suc fuel) p h = elim (Bool-cases (leb max_phasedet p)) [
  | inl above ↦
      let t = halve_loop-IsHalved fuel (p / 2) (ground arith) in
      let step : halve_loop (suc fuel) p ≡ halve_loop fuel (p / 2) = ground arith in
      rw step (record {
        times = suc t.times;
        halved = t.halved ∙ half_of p t.times;
        below = t.below;
        least = halve_again p (halve_loop fuel (p / 2)) t (ground arith);
      })
  | inr below ↦
      let step : halve_loop (suc fuel) p ≡ p = ground arith in
      rw step (record {
        times = 0;
        halved = sym (Nat.div-one p);
        below = ground arith;
        least = λ j lt. absurd (omega arith);
      })
]

-- The reference frequency of the radios.
abbrev pub lband_ref : ℕ
lband_ref = 16_000_000

-- Halving is exact at the quotient `q` of the reference frequency.
halves : ℕ → Bool
halves q = let c = lband_ref / q in if lband_ref % q == 0 then c % halve_loop c c == 0 else true

halves_table : check_from 1 16 halves ≡ true
unfolding check_from halves halve_loop
halves_table = refl

halves_lem : (q : ℕ) → 0 < q → q < 17 → halves q ≡ true
halves_lem q p h = check_from_sound halves 16 1 q p h halves_table

halve_loop_quotient : (q g : ℕ) → 0 < q → q < 17 → q * g ≡ lband_ref → g % halve_loop g g ≡ 0
unfolding halves
halve_loop_quotient q g p h e =
    let c : lband_ref / q ≡ g = rw (← e) (Nat.mul-div_cancel_left g p) in
    let z : lband_ref % q ≡ 0 = rw (← e) (Nat.mod-eq-zero_of_dvd q (Nat.dvd-mul_right q g)) in
    ground (arith, rw c at (halves_lem q p h))

-- Of a divisor of the reference frequency the second loop leaves a divisor.
halve_loop-dvd : (g : ℕ) → g ∣ lband_ref → halve_loop g g ∣ g
halve_loop-dvd g h = elim (Bool-cases (ltb g max_phasedet)) [
  | inl below ↦ rw (halve_loop_below g g (ground arith)) (Nat.dvd_refl g)
  | inr above ↦
      let q = lband_ref / g in
      let e : q * g ≡ lband_ref = Nat.div-mul_cancel g h in
      Nat.dvd_of_mod-eq-zero (halve_loop g g)
        (halve_loop_quotient q g (grind arith) (grind arith) e)
]

-- The phase detector frequency that `calc_div` works with: the greatest common divisor of the two
-- frequencies, halved as often as it takes to be below the maximum. It divides both.
pub record IsPhasedet (d freq : ℕ) : Type 0 where
  pub divides_freq : freq / d * d ≡ freq
  pub divides_ref : lband_ref / d * d ≡ lband_ref
  pub gcd : ℕ
  pub is_gcd : IsGcd gcd lband_ref freq
  pub is_halved : IsHalved gcd d

calc_div_pick :
    (freq g : ℕ)
    → 0 < freq
    → gcd_loop (lband_ref + freq) lband_ref freq ≡ some g
    → calc_div lband_ref freq ≡ pick_div lband_ref freq (halve_loop g g)
unfolding calc_div
calc_div_pick freq g p e = rw e (ground arith)

find-IsPhasedet :
    (freq : ℕ)
    → 0 < freq
    → (d : ℕ) × (calc_div lband_ref freq ≡ pick_div lband_ref freq d) × IsPhasedet d freq
find-IsPhasedet freq p =
    let (g, e, r) =
      gcd_loop-IsGcd (lband_ref + freq) lband_ref freq (omega arith) p (omega arith) in
    let half = halve_loop-dvd g r.left in
    (
      halve_loop g g,
      calc_div_pick freq g p e,
      record {
        divides_freq = Nat.div-mul_cancel (halve_loop g g) (Nat.dvd_trans _ half r.right);
        divides_ref = Nat.div-mul_cancel (halve_loop g g) (Nat.dvd_trans _ half r.left);
        gcd = g;
        is_gcd = r;
        is_halved = halve_loop-IsHalved g g (omega arith);
      },
    )

-- With the reference frequency of the radios, 16 MHz, `calc_div` of a frequency that is not zero
-- ends. Its phase detector frequency is the greatest common divisor of the two, halved the least
-- number of times that brings it below 1 MHz, and divides both exactly. The answer is the two
-- quotients where it is at least 10 kHz and they fit their fields of 16 and 13 bits; else it is
-- the error that says which of the two fails.
pub calc_div_outcome :
    (freq : ℕ)
    → 0 < freq
    → (d : ℕ) × IsPhasedet d freq
      × (calc_div lband_ref freq ≡ (
          if ltb d 10_000
          then err out_of_phasedet
          else if leb (freq / d) 0xFF_FF && leb (lband_ref / d) 0x1F_FF
          then ok (freq / d, lband_ref / d)
          else err out_of_bounds))
unfolding pick_div
calc_div_outcome freq p = let (d, e, i) = find-IsPhasedet freq p in (d, i, e ∙ ground arith)

cross : (n r d freq ref : ℕ) → freq ≡ n * d → ref ≡ r * d → n * ref ≡ r * freq
cross n r d freq ref f m = rw (f, m) (Nat.mul_left_comm n r d)

-- A frequency for which `calc_div` answers is hit exactly: N times the reference frequency is R
-- times the frequency. N and R fit the fields of the registers, and the phase detector frequency
-- lies within its bounds.
pub calc_div_exact :
    (freq n r : ℕ)
    → calc_div lband_ref freq ≡ ok (n, r)
    → (n * lband_ref ≡ r * freq)
      × (n ≤ 0xFF_FF)
      × (r ≤ 0x1F_FF)
      × ((d : ℕ) × (freq ≡ n * d) × (lband_ref ≡ r * d) × (min_phasedet ≤ d) × (d < max_phasedet))
calc_div_exact freq n r h = elim (Bool-cases (freq == 0)) [
  | inl zero_freq ↦ absurd (unfold calc_div in ground arith)
  | inr some_freq ↦
      let (d, i, e) = calc_div_outcome freq (ground arith) in
      let facts : (n ≡ freq / d)
          × (r ≡ lband_ref / d)
          × (n ≤ 0xFF_FF)
          × (r ≤ 0x1F_FF)
          × (min_phasedet ≤ d) =
        ground (arith, e, h) in
      let f : freq ≡ n * d = rw facts.0 (sym i.divides_freq) in
      let m : lband_ref ≡ r * d = rw facts.1 (sym i.divides_ref) in
      (cross n r d freq lband_ref f m, facts.2, facts.3, (d, f, m, facts.4, i.is_halved.below))
]
