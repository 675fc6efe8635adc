-- ===== src/Protocols/Struct/RoundTrip.antt =====
-- What is packed by a format is unpacked by it.
use oresat_c3_software.Prelude.{
  ℕ, ◌+◌, ◌<◌, ◌≡◌, refl, ap, ◌∙◌, arith, List, [], ◌∷◌, ◌++◌, Bool, true, false, some, length,
  drop, replicate, length-append, length-replicate, drop-append_eq,
}
use oresat_c3_software.Protocols.Struct.{
  FormatChar, bool, uint8, uint16, uint32, Value, truth, int, bytes, size, padding, little_endian,
  put, take_item, pack_from, unpack_from, size_from,
}

-- A value of the type and the range of a format character.
abbrev pub FitsChar : FormatChar → Value → Type 0
FitsChar bool (truth b) = Unit
FitsChar uint8 (int n) = n < 256
FitsChar uint16 (int n) = n < 65536
FitsChar uint32 (int n) = n < 4294967296
FitsChar _ _ = ⊥

abbrev pub FitsAll : List FormatChar → List Value → Type 0
FitsAll [] [] = Unit
FitsAll (c ∷ cs) (v ∷ vs) = FitsChar c v × FitsAll cs vs
FitsAll _ _ = ⊥

-- The bytes of one item, which are taken off again.
pub record Item (c : FormatChar) (v : Value) : Type 0 where
  pub raw : List ℕ
  pub packed : put c v ≡ some raw
  pub sized : length raw ≡ size c
  pub taken : (rest : List ℕ) → take_item c (raw ++ rest) ≡ some (v, rest)

item : (c : FormatChar) (v : Value) → FitsChar c v → Item c v
unfolding put take_item
item bool (truth true) h = record { raw = 1 ∷ []; packed = refl; sized = refl; taken = λ r. refl }
item bool (truth false) h = record { raw = 0 ∷ []; packed = refl; sized = refl; taken = λ r. refl }
item bool (int n) h = absurd h
item bool (bytes bs) h = absurd h
item uint8 (int n) h = record {
  raw = n ∷ [];
  packed = ground arith;
  sized = refl;
  taken = λ r. refl;
}
item uint8 (truth b) h = absurd h
item uint8 (bytes bs) h = absurd h
item uint16 (int n) h = record {
  raw = little_endian uint16 n;
  packed = ground arith;
  sized = refl;
  taken = λ r. ground arith;
}
item uint16 (truth b) h = absurd h
item uint16 (bytes bs) h = absurd h
item uint32 (int n) h = record {
  raw = little_endian uint32 n;
  packed = ground arith;
  sized = refl;
  taken = λ r. ground arith;
}
item uint32 (truth b) h = absurd h
item uint32 (bytes bs) h = absurd h

-- The bytes of a tuple, which are unpacked again.
pub record Packed (aligned : Bool) (pos : ℕ) (cs : List FormatChar) (vs : List Value) : Type 0 where
  pub raw : List ℕ
  pub packed : pack_from aligned pos cs vs ≡ some raw
  pub sized : length raw ≡ size_from aligned pos cs
  pub unpacked : unpack_from aligned pos cs raw ≡ some vs

drop_padding : (pad : ℕ) (raw : List ℕ) → drop pad (replicate pad 0 ++ raw) ≡ raw
drop_padding pad raw = drop-append_eq pad (replicate pad 0) raw (length-replicate pad 0)

pack_from-cons :
    (aligned : Bool) (pos : ℕ) (c : FormatChar) (cs : List FormatChar) (v : Value) (vs : List Value)
    (first rest : List ℕ)
    → put c v ≡ some first
    → pack_from aligned (pos + padding aligned pos c + size c) cs vs ≡ some rest
    → pack_from aligned pos (c ∷ cs) (v ∷ vs)
      ≡ some (replicate (padding aligned pos c) 0 ++ (first ++ rest))
unfolding pack_from
pack_from-cons aligned pos c cs v vs first rest p q = ground arith

unpack_from-cons :
    (aligned : Bool) (pos : ℕ) (c : FormatChar) (cs : List FormatChar) (v : Value) (vs : List Value)
    (raw rest : List ℕ)
    → take_item c (drop (padding aligned pos c) raw) ≡ some (v, rest)
    → unpack_from aligned (pos + padding aligned pos c + size c) cs rest ≡ some vs
    → unpack_from aligned pos (c ∷ cs) raw ≡ some (v ∷ vs)
unfolding unpack_from
unpack_from-cons aligned pos c cs v vs raw rest p q = ground arith

pub pack_from_lem :
    (aligned : Bool) (pos : ℕ) (cs : List FormatChar) (vs : List Value)
    → FitsAll cs vs
    → Packed aligned pos cs vs
unfolding pack_from unpack_from
pack_from_lem aligned pos [] [] h = record {
  raw = [];
  packed = refl;
  sized = refl;
  unpacked = refl;
}
pack_from_lem aligned pos [] (v ∷ vs) h = absurd h
pack_from_lem aligned pos (c ∷ cs) [] h = absurd h
pack_from_lem aligned pos (c ∷ cs) (v ∷ vs) h =
    let pad = padding aligned pos c in
    let i = item c v h.0 in
    let p = pack_from_lem aligned (pos + pad + size c) cs vs h.1 in
    record {
      raw = replicate pad 0 ++ (i.raw ++ p.raw);
      packed = pack_from-cons aligned pos c cs v vs i.raw p.raw i.packed p.packed;
      sized = omega (
        arith,
        length-append (replicate {A = ℕ} pad 0) (i.raw ++ p.raw),
        length-append i.raw p.raw,
        length-replicate {A = ℕ} pad 0,
        i.sized,
        p.sized,
      );
      unpacked =
          unpack_from-cons aligned pos c cs v vs (replicate pad 0 ++ (i.raw ++ p.raw)) p.raw
            (ap (λ (t : List ℕ). take_item c t) (drop_padding pad (i.raw ++ p.raw)) ∙ i.taken p.raw)
            p.unpacked;
    }
