-- ===== src/Prelude/Calls.antt =====
-- A method call of an object that may raise: the state comes back beside the error too, since
-- what was written before the exception stays written.
use mathlib.Core.Path.{◌≡◌, refl, ap}
use mathlib.Core.Logic.{◌⊎◌, inl, inr}
use mathlib.Core.Bool.{Bool, true, false}

pub data Result (E A : Type 0) : Type 0 where
  ok : A → Result E A
  err : E → Result E A

-- To split on a result and keep the equation.
pub Result-cases :
    {E A : Type 0} (r : Result E A) → ((a : A) × (r ≡ ok a)) ⊎ ((e : E) × (r ≡ err e))
Result-cases (ok a) = inl (a, refl)
Result-cases (err e) = inr (e, refl)

abbrev pub Exec : Type 0 → Type 0 → Type 0 → Type 0
Exec E S A = S → Result E A × S

module _ {E S A : Type 0} where
  abbrev pub pure : A → Exec E S A
  pure a s = (ok a, s)

  abbrev pub raise : E → Exec E S A
  raise e s = (err e, s)

  abbrev pub gets : (S → A) → Exec E S A
  gets f s = (ok (f s), s)

module _ {E S A B : Type 0} where
  infixl 5 ◌>>=◌ ◌>>◌
  abbrev pub ◌>>=◌ : Exec E S A → (A → Exec E S B) → Exec E S B
  ◌>>=◌ m f s = let (r, s') = m s in elim r [ ok a ↦ f a s' | err e ↦ (err e, s') ]

  abbrev pub ◌>>◌ : Exec E S A → Exec E S B → Exec E S B
  m >> k = m >>= λ _. k

-- A call that returns is followed by the rest.
pub >>-eq_ok :
    {E S A B : Type 0} (m : Exec E S A) (k : Exec E S B) (s : S) {a : A}
    → (m s).0 ≡ ok a
    → (m >> k) s ≡ k (m s).1
>>-eq_ok {E} {S} {A} {B} m k s h =
    ap
      (λ (r : Result E A).
        let t : Result E B × S = elim r [ ok _ ↦ k (m s).1 | err e ↦ (err e, (m s).1) ] in t)
      h

pub >>-ok :
    {E S A B : Type 0} (m : Exec E S A) (k : Exec E S B) (s t : S) {a : A}
    → m s ≡ (ok a, t)
    → (m >> k) s ≡ k t
>>-ok {E} {S} {A} {B} m k s t h =
    ap
      (λ (p : Result E A × S).
        let u : Result E B × S = elim p.0 [ ok _ ↦ k p.1 | err e ↦ (err e, p.1) ] in u)
      h

module _ {E S : Type 0} where
  abbrev pub modify : (S → S) → Exec E S (Unit {0})
  modify f s = (ok tt, f s)

  abbrev pub raise_if : Bool → E → Exec E S (Unit {0})
  raise_if b e s = elim b [ true ↦ (err e, s) | false ↦ (ok tt, s) ]

  -- `if b: m`
  abbrev pub when : Bool → Exec E S (Unit {0}) → Exec E S (Unit {0})
  when b m s = elim b [ true ↦ m s | false ↦ (ok tt, s) ]

-- `if b: m else: n`
abbrev pub choose : {E S A : Type 0} → Bool → Exec E S A → Exec E S A → Exec E S A
choose b m n s = elim b [ true ↦ m s | false ↦ n s ]

-- An object together with the I2C bus that it works through, which all drivers share.
pub record With (A Bus : Type 0) : Type 0 where
  pub self : A
  pub bus : Bus
