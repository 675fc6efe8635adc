-- ===== src/Services/State/Kept.antt =====
-- What the F-RAM keeps when the state is cleared.
use oresat_c3_software.Prelude.{
  ℕ, zero, suc, ◌+◌, ◌≡◌, ap, ◌∙◌, arith, List, [], ◌∷◌, ◌++◌, length, drop, replicate,
  length-append, length-replicate, drop-append_eq, Bool, true, false,
}
use oresat_c3_software.Services.State.Storage.{
  FramObj, domain, octet_string, variable, Codec, is_key,
}

abbrev pub zeros : ℕ → List ℕ
zeros n = replicate n 0

pub zeros-add : (m n : ℕ) (rest : List ℕ) → zeros (m + n) ++ rest ≡ zeros m ++ (zeros n ++ rest)
zeros-add zero n rest = ap (λ (k : ℕ). zeros k ++ rest) (omega arith)
zeros-add (suc m) n rest =
    ap (λ (k : ℕ). zeros k ++ rest) e ∙ ap (λ (t : List ℕ). 0 ∷ t) (zeros-add m n rest)
  where
    e : suc m + n ≡ suc (m + n)
    e = omega arith

-- The zeros behind the first list of two.
pub drop-zeros :
    (raw img rest : List ℕ)
    → drop (length raw) (zeros (length (raw ++ img)) ++ rest) ≡ zeros (length img) ++ rest
drop-zeros raw img rest =
    ap (λ (t : List ℕ). drop (length raw) t)
      (ap (λ (k : ℕ). zeros k ++ rest) (length-append raw img)
        ∙ zeros-add (length raw) (length img) rest)
    ∙ drop-append_eq (length raw) (zeros (length raw)) (zeros (length img) ++ rest)
        (length-replicate (length raw) 0)

abbrev pub kept_octets : Bool → List ℕ → List ℕ
kept_octets true value = value
kept_octets false value = zeros (length value)

module _ {V : Type 0} (codec : Codec V) where
  -- What the F-RAM holds of an object behind a clear: a key as it is, and zeros for all else.
  unfoldable pub kept : FramObj V → List ℕ
  kept (domain name) = []
  kept (octet_string name default value) = kept_octets (is_key name) value
  kept (variable name data_type default value) = zeros (length (codec.encode_raw data_type value))

  unfoldable pub kept_image : List (FramObj V) → List ℕ
  kept_image [] = []
  kept_image (obj ∷ objs) = kept obj ++ kept_image objs

-- Every object that is named as a key is an octet string.
unfoldable pub KeysAreOctets : {V : Type 0} → List (FramObj V) → Type 0
KeysAreOctets [] = Unit
KeysAreOctets (domain name ∷ objs) = KeysAreOctets objs
KeysAreOctets (octet_string name default value ∷ objs) = KeysAreOctets objs
KeysAreOctets (variable name data_type default value ∷ objs) =
    (is_key name ≡ false) × KeysAreOctets objs
