-- ===== src/Prelude/Dict.antt =====
-- A Python dict from strings as an association list in insertion order, and lists of strings.
use Prim.Native.String.{String}
use mathlib.Core.Bool.{Bool, true, false, ◌||◌}
use mathlib.Core.Logic.{inl, inr}
use mathlib.Core.Path.{◌≡◌, refl, sym, ap, ◌∙◌}
use mathlib.Core.Option.{Option, none, some}
use mathlib.Core.List.{List, [], ◌∷◌}
use native.Mathlib.Omega.{arith}
use text.Mathlib.Text.{◌==◌ as str_eq}
use text.Mathlib.TextEquality.{eq_iff}
use oresat_c3_software.Prelude.Tests.{if◌then◌else◌, Bool-cases}

-- `m.get(name)`
unfoldable pub lookup {ℓ} : {V : Type ℓ} → String → List (String × V) → Option V
lookup name [] = none
lookup name ((key, value) ∷ rest) = elim (str_eq key name) [
  | true ↦ some value
  | false ↦ lookup name rest
]

-- `m[name] = value`: in place of the entry that has the name, or behind all.
unfoldable pub insert {ℓ} : {V : Type ℓ} → String → V → List (String × V) → List (String × V)
insert name value [] = (name, value) ∷ []
insert name value (entry ∷ rest) = elim (str_eq entry.0 name) [
  | true ↦ (name, value) ∷ rest
  | false ↦ entry ∷ insert name value rest
]

-- `del m[name]`; every entry of the name goes, where a dict has at most one.
unfoldable pub erase {ℓ} : {V : Type ℓ} → String → List (String × V) → List (String × V)
erase name [] = []
erase name (entry ∷ rest) = elim (str_eq entry.0 name) [
  | true ↦ erase name rest
  | false ↦ entry ∷ erase name rest
]

-- `name in names`
unfoldable pub contains : List String → String → Bool
contains [] name = false
contains (x ∷ names) name = str_eq x name || contains names name

-- The first occurrence taken out, `names.remove(name)`.
unfoldable pub remove : String → List String → List String
remove name [] = []
remove name (x ∷ names) = elim (str_eq x name) [ true ↦ names | false ↦ x ∷ remove name names ]

pub str_eq_self : (s : String) → str_eq s s ≡ true
str_eq_self s = (eq_iff s s).1 refl

pub str_eq_sound : (s t : String) → str_eq s t ≡ true → s ≡ t
str_eq_sound s t h = (eq_iff s t).0 h

pub str_eq_sym : (s t : String) → str_eq s t ≡ str_eq t s
str_eq_sym s t = elim (Bool-cases (str_eq s t)) [
  | inl h ↦ h ∙ sym ((eq_iff t s).1 (sym (str_eq_sound s t h)))
  | inr h ↦ elim (Bool-cases (str_eq t s)) [
    | inl k ↦ absurd (ground (arith, (eq_iff s t).1 (sym (str_eq_sound t s k))))
    | inr k ↦ h ∙ sym k
  ]
]

-- Names that are the same are the same to any other.
pub str_eq_trans : (s t u : String) → str_eq s t ≡ true → str_eq s u ≡ str_eq t u
str_eq_trans s t u h = ap (λ (x : String). str_eq x u) (str_eq_sound s t h)

module _ {ℓ} {V : Type ℓ} where
  pub lookup-insert :
      (j k : String) (v : V) (d : List (String × V))
      → lookup j (insert k v d) ≡ (if str_eq k j then some v else lookup j d)
  unfolding lookup insert
  lookup-insert j k v [] = ground arith
  lookup-insert j k v (e ∷ d) = elim (Bool-cases (str_eq e.0 k)) [
    | inl same ↦ ground (arith, eq_iff e.0 k, eq_iff e.0 j, eq_iff k j)
    | inr apart ↦ ground (arith, lookup-insert j k v d, eq_iff e.0 k, eq_iff e.0 j, eq_iff k j)
  ]

  pub lookup-erase :
      (j k : String) (d : List (String × V))
      → lookup j (erase k d) ≡ (if str_eq k j then none else lookup j d)
  unfolding lookup erase
  lookup-erase j k [] = ground arith
  lookup-erase j k (e ∷ d) = elim (Bool-cases (str_eq e.0 k)) [
    | inl same ↦ ground (arith, lookup-erase j k d, eq_iff e.0 k, eq_iff e.0 j, eq_iff k j)
    | inr apart ↦ ground (arith, lookup-erase j k d, eq_iff e.0 k, eq_iff e.0 j, eq_iff k j)
  ]

-- No name twice.
abbrev pub Nodup : List String → Type 0
Nodup [] = Unit
Nodup (x ∷ names) = (contains names x ≡ false) × Nodup names

contains_other :
    (names : List String) (j x : String) → str_eq x j ≡ true → contains names x ≡ contains names j
contains_other names j x h = ap (contains names) (str_eq_sound x j h)

pub contains-remove :
    (k j : String) (names : List String)
    → Nodup names
    → contains (remove k names) j ≡ (if str_eq k j then false else contains names j)
unfolding contains remove
contains-remove k j [] d = ground arith
contains-remove k j (x ∷ names) d = elim (Bool-cases (str_eq x k)) [
  | inl same ↦ ground (arith, contains_other names j x, eq_iff x k, eq_iff x j, eq_iff k j)
  | inr apart ↦ ground (arith, contains-remove k j names d.1, eq_iff x k, eq_iff x j, eq_iff k j)
]

pub remove-Nodup : (k : String) (names : List String) → Nodup names → Nodup (remove k names)
unfolding contains remove
remove-Nodup k [] d = tt
remove-Nodup k (x ∷ names) d = elim (Bool-cases (str_eq x k)) [
  | inl same ↦ ground arith
  | inr apart ↦
      ground (arith, contains-remove k x names d.1, remove-Nodup k names d.1, str_eq_sym x k)
]
