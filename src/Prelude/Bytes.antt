-- ===== src/Prelude/Bytes.antt =====
-- Python's byte strings: slices from the end, comparisons, and numbers as bytes.
use Prim.Native.Nat.{ℕ, ◌+◌, ◌-◌, ◌*◌, ◌/◌, ◌%◌, ◌<◌}
use mathlib.Core.Path.{◌≡◌, refl, sym, ap, ap₂, ◌∙◌}
use mathlib.Core.Bool.{Bool, true, false, ◌&&◌}
use mathlib.Core.List.{List, [], ◌∷◌, ◌++◌}
use native.Mathlib.Omega.{arith}
use oresat_c3_software.Prelude.Tests.{◌==◌}
use oresat_c3_software.Prelude.Lists.{length, length-append, take, drop, take-append, drop-append}

-- `to_bytes(2, "little")` and `to_bytes(4, "little")` of a number that fits.
abbrev pub two_bytes : ℕ → List ℕ
two_bytes n = (n % 256) ∷ (n / 256) ∷ []

abbrev pub four_bytes : ℕ → List ℕ
four_bytes n = (n % 256) ∷ (n / 256 % 256) ∷ (n / 65536 % 256) ∷ (n / 16777216) ∷ []

-- `int.from_bytes(raw, "little")`
unfoldable pub from_bytes : List ℕ → ℕ
from_bytes [] = 0
from_bytes (b ∷ raw) = b + 256 * from_bytes raw

-- `raw[:-n]` and `raw[-n:]`
abbrev pub but_last : ℕ → List ℕ → List ℕ
but_last n raw = take (length raw - n) raw

abbrev pub last : ℕ → List ℕ → List ℕ
last n raw = drop (length raw - n) raw

unfoldable pub eq_bytes : List ℕ → List ℕ → Bool
eq_bytes [] [] = true
eq_bytes (x ∷ xs) (y ∷ ys) = (x == y) && eq_bytes xs ys
eq_bytes _ _ = false

front_length : (xs ys : List ℕ) → length (xs ++ ys) - length ys ≡ length xs
front_length xs ys = omega (arith, length-append xs ys)

-- The slices of a string that is in two parts.
pub but_last-append : (n : ℕ) (xs ys : List ℕ) → length ys ≡ n → but_last n (xs ++ ys) ≡ xs
but_last-append n xs ys h =
    ap (λ (k : ℕ). take k (xs ++ ys))
      (ap (λ (m : ℕ). length (xs ++ ys) - m) (sym h) ∙ front_length xs ys)
    ∙ take-append xs ys

pub last-append : (n : ℕ) (xs ys : List ℕ) → length ys ≡ n → last n (xs ++ ys) ≡ ys
last-append n xs ys h =
    ap (λ (k : ℕ). drop k (xs ++ ys))
      (ap (λ (m : ℕ). length (xs ++ ys) - m) (sym h) ∙ front_length xs ys)
    ∙ drop-append xs ys

pub eq_bytes_self : (xs : List ℕ) → eq_bytes xs xs ≡ true
unfolding eq_bytes
eq_bytes_self [] = refl
eq_bytes_self (x ∷ xs) = ground (arith, eq_bytes_self xs)

pub eq_bytes_sound : (xs ys : List ℕ) → eq_bytes xs ys ≡ true → xs ≡ ys
unfolding eq_bytes
eq_bytes_sound [] [] h = refl
eq_bytes_sound [] (y ∷ ys) h = ground arith
eq_bytes_sound (x ∷ xs) [] h = ground arith
eq_bytes_sound (x ∷ xs) (y ∷ ys) h =
    ap₂ (λ (z : ℕ) (zs : List ℕ). z ∷ zs) (ground arith) (eq_bytes_sound xs ys (ground arith))

pub from_bytes-four_bytes : (n : ℕ) → n < 4294967296 → from_bytes (four_bytes n) ≡ n
unfolding from_bytes
from_bytes-four_bytes n h = omega arith
