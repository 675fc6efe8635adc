-- ===== src/Protocols/Struct.antt =====
-- Python's `struct`, as far as the protocols use it: the format characters `?`, `B`, `H` and `I`,
-- in standard mode (`<`), or in native mode, which aligns each item to its size. The native byte
-- order of the machines that the program runs on is little-endian.
pub mod RoundTrip
use oresat_c3_software.Prelude.{
  ℕ, ◌+◌, ◌-◌, ◌*◌, ◌/◌, ◌%◌, ◌^◌, List, [], ◌∷◌, ◌++◌, Bool, true, false, not, Option, none, some,
  if◌then◌else◌, ltb, ◌==◌, drop, replicate,
}

pub data FormatChar : Type 0 where
  bool uint8 uint16 uint32 : FormatChar

pub record Format : Type 0 where
  pub aligned : Bool
  pub chars : List FormatChar

-- A Python value in a tuple of arguments.
pub data Value : Type 0 where
  truth : Bool → Value
  int : ℕ → Value
  bytes : List ℕ → Value

abbrev pub size : FormatChar → ℕ
size bool = 1
size uint8 = 1
size uint16 = 2
size uint32 = 4

-- The padding of native mode in front of an item.
abbrev pub padding : Bool → ℕ → FormatChar → ℕ
padding false pos c = 0
padding true pos c = (size c - pos % size c) % size c

-- `bool(value)`
abbrev pub is_truthy : Value → Bool
is_truthy (truth b) = b
is_truthy (int n) = not (n == 0)
is_truthy (bytes []) = false
is_truthy (bytes (b ∷ bs)) = true

-- The number that an integer format packs; a bool is an int.
abbrev pub index : Value → Option ℕ
index (truth true) = some 1
index (truth false) = some 0
index (int n) = some n
index (bytes bs) = none

abbrev pub little_endian : FormatChar → ℕ → List ℕ
little_endian uint16 n = (n % 256) ∷ (n / 256) ∷ []
little_endian uint32 n = (n % 256) ∷ (n / 256 % 256) ∷ (n / 65536 % 256) ∷ (n / 16777216) ∷ []
little_endian _ n = n ∷ []

abbrev pub put_int : FormatChar → Option ℕ → Option (List ℕ)
put_int c none = none
put_int c (some n) = if ltb n (256 ^ size c) then some (little_endian c n) else none

-- One item; `none` is a `struct.error`.
unfoldable pub put : FormatChar → Value → Option (List ℕ)
put bool v = some ((if is_truthy v then 1 else 0) ∷ [])
put c v = put_int c (index v)

unfoldable pub take_item : FormatChar → List ℕ → Option (Value × List ℕ)
take_item bool (b ∷ raw) = some (truth (not (b == 0)), raw)
take_item uint8 (b ∷ raw) = some (int b, raw)
take_item uint16 (a ∷ b ∷ raw) = some (int (a + b * 256), raw)
take_item uint32 (a ∷ b ∷ c ∷ d ∷ raw) = some (int (a + b * 256 + c * 65536 + d * 16777216), raw)
take_item _ _ = none

abbrev pub behind : ℕ → List ℕ → Option (List ℕ) → Option (List ℕ)
behind pad item none = none
behind pad item (some raw) = some (replicate pad 0 ++ (item ++ raw))

-- The items from position `pos` on.
unfoldable pub pack_from : Bool → ℕ → List FormatChar → List Value → Option (List ℕ)
pack_from aligned pos [] [] = some []
pack_from aligned pos [] (v ∷ vs) = none
pack_from aligned pos (c ∷ cs) [] = none
pack_from aligned pos (c ∷ cs) (v ∷ vs) =
    let pad = padding aligned pos c in
    elim (put c v) [
      | none ↦ none
      | some item ↦ behind pad item (pack_from aligned (pos + pad + size c) cs vs)
    ]

abbrev pub in_front : Value → Option (List Value) → Option (List Value)
in_front v none = none
in_front v (some vs) = some (v ∷ vs)

unfoldable pub unpack_from : Bool → ℕ → List FormatChar → List ℕ → Option (List Value)
unpack_from aligned pos [] [] = some []
unpack_from aligned pos [] (b ∷ raw) = none
unpack_from aligned pos (c ∷ cs) raw =
    let pad = padding aligned pos c in
    elim (take_item c (drop pad raw)) [
      | none ↦ none
      | some (v, rest) ↦ in_front v (unpack_from aligned (pos + pad + size c) cs rest)
    ]

-- `struct.pack` and `struct.unpack`, which wants exactly the bytes of the format.
abbrev pub pack : Format → List Value → Option (List ℕ)
pack f vs = pack_from f.aligned 0 f.chars vs

abbrev pub unpack : Format → List ℕ → Option (List Value)
unpack f raw = unpack_from f.aligned 0 f.chars raw

abbrev pub size_from : Bool → ℕ → List FormatChar → ℕ
size_from aligned pos [] = 0
size_from aligned pos (c ∷ cs) =
    let pad = padding aligned pos c in pad + (size c + size_from aligned (pos + pad + size c) cs)

-- `struct.calcsize`
abbrev pub calcsize : Format → ℕ
calcsize f = size_from f.aligned 0 f.chars
