-- ===== src/Protocols/Ax25/Callsign.antt =====
-- Callsigns in AX.25 frames: the padding, the characters and the shifted bytes.
use oresat_c3_software.Prelude.{
  ℕ, zero, suc, ◌+◌, ◌-◌, ◌*◌, ◌/◌, ◌%◌, ◌<◌, ◌≤◌, ◌≡◌, refl, ap, ◌∙◌, arith, List, [], ◌∷◌, ◌++◌,
  some, length, length-append, length-replicate, replicate,
}
use oresat_c3_software.Protocols.Ax25.{
  Bitstring, encode, encode_char, pad, keep_char, rstrip, decode,
}

-- What bitstring documents of a shift by one: the bytes are one big-endian string of bits, and
-- the bit that comes in is 0.
abbrev pub shl : List ℕ → List ℕ
shl [] = []
shl (b ∷ []) = (b * 2 % 256) ∷ []
shl (b ∷ c ∷ raw) = ((b * 2 + c / 128) % 256) ∷ shl (c ∷ raw)

abbrev pub shr : ℕ → List ℕ → List ℕ
shr carry [] = []
shr carry (b ∷ raw) = (carry * 128 + b / 2) ∷ shr (b % 2) raw

pub record IsBitstring (bits : Bitstring) : Type 0 where
  pub left : (raw : List ℕ) → bits.shift_left raw ≡ shl raw
  pub right : (raw : List ℕ) → bits.shift_right raw ≡ shr 0 raw

abbrev pub IsAscii : List ℕ → Type 0
IsAscii [] = Unit
IsAscii (c ∷ cs) = (c < 128) × IsAscii cs

-- A callsign that survives: ASCII, short enough, and no space at its end.
pub record IsCallsign (callsign : List ℕ) : Type 0 where
  pub ascii : IsAscii callsign
  pub short : length callsign ≤ 6
  pub stripped : rstrip callsign ≡ callsign

pub doubled : List ℕ → List ℕ
doubled [] = []
doubled (c ∷ cs) = (c * 2) ∷ doubled cs

pub length-doubled : (cs : List ℕ) → length (doubled cs) ≡ length cs
unfolding doubled
length-doubled [] = refl
length-doubled (c ∷ cs) = ap suc (length-doubled cs)

pub shl_ascii : (cs : List ℕ) → IsAscii cs → shl cs ≡ doubled cs
unfolding doubled
shl_ascii [] h = refl
shl_ascii (c ∷ []) h = ground arith
shl_ascii (c ∷ d ∷ cs) h = ground (arith, shl_ascii (d ∷ cs) h.1)

pub shr-doubled : (cs : List ℕ) → shr 0 (doubled cs) ≡ cs
unfolding doubled
shr-doubled [] = refl
shr-doubled (c ∷ cs) = ground (arith, shr-doubled cs)

pub encode_ascii : (cs : List ℕ) → IsAscii cs → encode cs ≡ some cs
unfolding encode encode_char
encode_ascii [] h = refl
encode_ascii (c ∷ cs) h = ground (arith, encode_ascii cs h.1)

pub decode_ascii : (cs : List ℕ) → IsAscii cs → decode cs ≡ some cs
unfolding decode
decode_ascii [] h = refl
decode_ascii (c ∷ cs) h = ground (arith, decode_ascii cs h.1)

IsAscii-append : (cs ds : List ℕ) → IsAscii cs → IsAscii ds → IsAscii (cs ++ ds)
IsAscii-append [] ds h k = k
IsAscii-append (c ∷ cs) ds h k = (h.0, IsAscii-append cs ds h.1 k)

spaces-IsAscii : (n : ℕ) → IsAscii (replicate n b' ')
spaces-IsAscii zero = tt
spaces-IsAscii (suc n) = (omega arith, spaces-IsAscii n)

rstrip_spaces : (n : ℕ) → rstrip (replicate n b' ') ≡ []
unfolding rstrip
rstrip_spaces zero = refl
rstrip_spaces (suc n) = ground (arith, rstrip_spaces n)

rstrip-append_spaces : (cs : List ℕ) (n : ℕ) → rstrip (cs ++ replicate n b' ') ≡ rstrip cs
unfolding rstrip
rstrip-append_spaces [] n = rstrip_spaces n
rstrip-append_spaces (c ∷ cs) n = ap (keep_char c) (rstrip-append_spaces cs n)

-- A padded callsign.
pub record Padded (cs raw : List ℕ) : Type 0 where
  pub six : length raw ≡ 6
  pub ascii : IsAscii raw
  pub back : rstrip raw ≡ cs

pub pad-Padded : (cs : List ℕ) → IsCallsign cs → Padded cs (pad cs)
unfolding pad
pad-Padded cs h = record {
  six = omega (
    arith,
    h.short,
    length-append cs (replicate (6 - length cs) b' '),
    length-replicate {A = ℕ} (6 - length cs) b' ',
  );
  ascii = IsAscii-append cs _ h.ascii (spaces-IsAscii (6 - length cs));
  back = rstrip-append_spaces cs (6 - length cs) ∙ h.stripped;
}
