-- ===== src/Prelude/Bits.antt =====
-- Single bits of native numbers: Python's `1 << k`, `x | m`, `x & ~m` and `(x >> k) & 1`.
use Prim.Native.Nat.{ℕ, ◌-◌, ◌/◌, ◌^◌, ◌<◌, bit_and, bit_or}
use mathlib.Core.Path.{◌≡◌, refl}
use mathlib.Core.Bool.{Bool, true, false, not, ◌&&◌, ◌||◌}
use native.Mathlib.Omega.{arith}
use oresat_c3_software.Prelude.Tables.{check_from, check_from_sound}
use oresat_c3_software.Prelude.Tests.{leb, ◌==◌, ==_iff}

-- `1 << k`
abbrev pub bit_mask : ℕ → ℕ
bit_mask k = 2 ^ k

-- `x & ~m` at a natural `x`: the bits of `m` are taken out of `x`.
abbrev pub bit_and_not : ℕ → ℕ → ℕ
bit_and_not x m = x - bit_and x m

-- `bool((x >> k) & 0x01)`
abbrev pub bit_at : ℕ → ℕ → Bool
bit_at x k = not (bit_and (x / 2 ^ k) 1 == 0)

-- A check of every byte, of every pin.
check_bytes : (ℕ → Bool) → Bool
check_bytes = check_from 0 256

check_pins : (ℕ → Bool) → Bool
check_pins = check_from 0 8

check_bytes_sound : (test : ℕ → Bool) (v : ℕ) → v < 256 → check_bytes test ≡ true → test v ≡ true
unfolding check_bytes
check_bytes_sound test v h = check_from_sound test 256 0 v (omega arith) h

check_pins_sound : (test : ℕ → Bool) (v : ℕ) → v < 8 → check_pins test ≡ true → test v ≡ true
unfolding check_pins
check_pins_sound test v h = check_from_sound test 8 0 v (omega arith) h

same : Bool → Bool → Bool
same true b = b
same false b = not b

same→eq : (a b : Bool) → same a b ≡ true → a ≡ b
unfolding same
same→eq a b h = ground arith

-- What one byte, one pin and a second pin have to satisfy under a set and under a clear.
set_ok : ℕ → ℕ → ℕ → Bool
set_ok x k j =
    same (bit_at (bit_or x (bit_mask k)) j) (k == j || bit_at x j)
    && leb (bit_or x (bit_mask k)) 255

clear_ok : ℕ → ℕ → ℕ → Bool
clear_ok x k j =
    same (bit_at (bit_and_not x (bit_mask k)) j) (not (k == j) && bit_at x j)
    && leb (bit_and_not x (bit_mask k)) 255

table : (ℕ → ℕ → ℕ → Bool) → Bool
table p = check_bytes (λ x. check_pins (λ k. check_pins (λ j. p x k j)))

table_sound :
    (p : ℕ → ℕ → ℕ → Bool) (x k j : ℕ) → table p ≡ true → x < 256 → k < 8 → j < 8 → p x k j ≡ true
unfolding table
table_sound p x k j h hx hk hj =
    check_pins_sound (λ n. p x k n) j hj
      (check_pins_sound (λ m. check_pins (λ n. p x m n)) k hk
        (check_bytes_sound (λ l. check_pins (λ m. check_pins (λ n. p l m n))) x hx h))

set_table : table set_ok ≡ true
unfolding table check_bytes check_pins check_from set_ok same
set_table = refl

clear_table : table clear_ok ≡ true
unfolding table check_bytes check_pins check_from clear_ok same
clear_table = refl

module _ (x k j : ℕ) (hx : x < 256) (hk : k < 8) (hj : j < 8) where
  -- Setting pin `k` of a byte sets it and leaves every other pin as it was.
  pub bit_at-bit_or : bit_at (bit_or x (bit_mask k)) j ≡ (k == j || bit_at x j)
  unfolding set_ok
  bit_at-bit_or = same→eq _ _ (ground (arith, table_sound set_ok x k j set_table hx hk hj))

  -- Clearing pin `k` of a byte clears it and leaves every other pin as it was.
  pub bit_at-bit_and_not : bit_at (bit_and_not x (bit_mask k)) j ≡ (not (k == j) && bit_at x j)
  unfolding clear_ok
  bit_at-bit_and_not = same→eq _ _ (ground (arith, table_sound clear_ok x k j clear_table hx hk hj))

module _ (x k : ℕ) (hx : x < 256) (hk : k < 8) where
  pub bit_or-lt : bit_or x (bit_mask k) < 256
  unfolding set_ok
  bit_or-lt = ground (arith, table_sound set_ok x k 0 set_table hx hk (omega arith))

high_table : check_bytes (λ x. bit_and_not x 256 == x) ≡ true
unfolding check_bytes check_from
high_table = refl

-- A byte has no ninth bit to clear.
pub bit_and_not-high : (x : ℕ) → x < 256 → bit_and_not x 256 ≡ x
bit_and_not-high x h =
    (==_iff _ x).0 (check_bytes_sound (λ y. bit_and_not y 256 == y) x h high_table)
