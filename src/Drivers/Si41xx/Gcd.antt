-- ===== src/Drivers/Si41xx/Gcd.antt =====
-- The first loop of `calc_div`: it ends with the greatest common divisor.
use Prim.Native.Nat.{◌∣◌}
use native.Mathlib.Nat
use oresat_c3_software.Prelude.{
  ℕ, zero, suc, ◌+◌, ◌-◌, ◌<◌, ◌≤◌, ◌≡◌, inl, inr, subst, ◌∙◌, arith, some, Bool-cases, ltb, ◌==◌,
  ==_iff, true, false,
}
use oresat_c3_software.Drivers.Si41xx.{gcd_loop}

-- `g` is a common divisor of `a` and `b` that every other one divides.
pub record IsGcd (g a b : ℕ) : Type 0 where
  pub left : g ∣ a
  pub right : g ∣ b
  pub greatest : (d : ℕ) → d ∣ a → d ∣ b → d ∣ g

IsGcd-self : (a : ℕ) → IsGcd a a a
IsGcd-self a = record { left = Nat.dvd_refl a; right = Nat.dvd_refl a; greatest = λ d p q. p }

IsGcd-sub_left : (g a b : ℕ) → b ≤ a → IsGcd g (a - b) b → IsGcd g a b
IsGcd-sub_left g a b h r = record {
  left = (Nat.dvd-sub_iff_left g h r.right).0 r.left;
  right = r.right;
  greatest = λ d p q. r.greatest d (Nat.dvd-sub d p q) q;
}

IsGcd-sub_right : (g a b : ℕ) → a ≤ b → IsGcd g a (b - a) → IsGcd g a b
IsGcd-sub_right g a b h r = record {
  left = r.left;
  right = (Nat.dvd-sub_iff_left g h r.left).0 r.right;
  greatest = λ d p q. r.greatest d p (Nat.dvd-sub d q p);
}

gcd_loop_same : (fuel a b : ℕ) → (a == b) ≡ true → gcd_loop (suc fuel) a b ≡ some a
unfolding gcd_loop
gcd_loop_same fuel a b e = ground arith

gcd_loop_above :
    (fuel a b : ℕ)
    → (a == b) ≡ false
    → ltb b a ≡ true
    → gcd_loop (suc fuel) a b ≡ gcd_loop fuel (a - b) b
unfolding gcd_loop
gcd_loop_above fuel a b e l = ground arith

gcd_loop_below :
    (fuel a b : ℕ)
    → (a == b) ≡ false
    → ltb b a ≡ false
    → gcd_loop (suc fuel) a b ≡ gcd_loop fuel a (b - a)
unfolding gcd_loop
gcd_loop_below fuel a b e l = ground arith

-- On two positive numbers the first loop of `calc_div` ends within as many rounds as their sum,
-- with their greatest common divisor.
pub gcd_loop-IsGcd :
    (fuel a b : ℕ)
    → 0 < a
    → 0 < b
    → a + b ≤ fuel
    → (g : ℕ) × (gcd_loop fuel a b ≡ some g) × IsGcd g a b
gcd_loop-IsGcd zero a b p q h = absurd (omega arith)
gcd_loop-IsGcd (suc fuel) a b p q h = elim (Bool-cases (a == b)) [
  | inl same ↦ (
    a,
    gcd_loop_same fuel a b same,
    subst (λ t. IsGcd a a t) ((==_iff a b).0 same) (IsGcd-self a),
  )
  | inr differ ↦ elim (Bool-cases (ltb b a)) [
    | inl above ↦
        let (g, e, r) = gcd_loop-IsGcd fuel (a - b) b (ground arith) q (ground arith) in
        (g, gcd_loop_above fuel a b differ above ∙ e, IsGcd-sub_left g a b (ground arith) r)
    | inr below ↦
        let (g, e, r) = gcd_loop-IsGcd fuel a (b - a) p (ground arith) (ground arith) in
        (g, gcd_loop_below fuel a b differ below ∙ e, IsGcd-sub_right g a b (ground arith) r)
  ]
]
