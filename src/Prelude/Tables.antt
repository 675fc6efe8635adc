-- ===== src/Prelude/Tables.antt =====
-- A property of small numbers, checked by evaluation.
use Prim.Native.Nat.{ℕ, zero, suc, ◌+◌, ◌≤◌, ◌<◌}
use mathlib.Core.Path.{◌≡◌}
use mathlib.Core.Logic.{inl, inr}
use mathlib.Core.Bool.{Bool, true, false}
use native.Mathlib.Omega.{arith}
use oresat_c3_software.Prelude.Tests.{◌==◌, ==_iff, Bool-cases, if◌then◌else◌}

-- A check of `n` values from `lo` on, by evaluation.
unfoldable pub check_from : ℕ → ℕ → (ℕ → Bool) → Bool
check_from lo zero test = true
check_from lo (suc n) test = if test lo then check_from (suc lo) n test else false

pub check_from_sound :
    (test : ℕ → Bool) (n lo v : ℕ)
    → lo ≤ v
    → v < lo + n
    → check_from lo n test ≡ true
    → test v ≡ true
unfolding check_from
check_from_sound test zero lo v above below checked = absurd (omega arith)
check_from_sound test (suc n) lo v above below checked = elim (Bool-cases (v == lo)) [
  | inl here ↦ ground (arith, ==_iff v lo)
  | inr later ↦ ground (arith, ==_iff v lo, check_from_sound test n (suc lo) v)
]
