-- ===== src/Protocols/EdlCommand/RoundTrip.antt =====
-- EDL payloads are unpacked to what was packed.
use oresat_c3_software.Prelude.{
  ℕ, ◌≡◌, refl, arith, List, [], ◌∷◌, ◌++◌, some, get_elem?, length, take-append, drop-append, ok,
}
use oresat_c3_software.Protocols.Struct.{Format, Value, bytes, pack, unpack, calcsize}
use oresat_c3_software.Protocols.Struct.RoundTrip.{FitsAll, pack_from_lem}
use oresat_c3_software.Protocols.EdlCommand.{
  EdlCommandCode, all_codes, value, Body, no_body, sdo_write, sdo_read, by_format, req_body,
  res_body, sdo_write_format, sdo_read_format, pack_with_data, unpack_with_data, pack_body,
  unpack_body, pack_payload, unpack_payload, unpack_args, pack_request, unpack_request,
  pack_response, unpack_response,
}

-- Values for a pair of callbacks: `n` that fit the format, and a byte string.
pub record FitsData (n : ℕ) (f : Format) (vs : List Value) : Type 0 where
  pub head : List Value
  pub tail : List ℕ
  pub split : vs ≡ head ++ (bytes tail ∷ [])
  pub sized : length head ≡ n
  pub fits : FitsAll f.chars head

-- The tuples that the documentation of a command asks for.
abbrev pub FitsBody : Body → List Value → Type 0
FitsBody no_body [] = Unit
FitsBody no_body (v ∷ vs) = ⊥
FitsBody (by_format f) vs = FitsAll f.chars vs
FitsBody sdo_write vs = FitsData 4 sdo_write_format vs
FitsBody sdo_read vs = FitsData 2 sdo_read_format vs

get_elem?-append : (xs : List Value) (y : Value) → get_elem? (xs ++ (y ∷ [])) (length xs) ≡ some y
get_elem?-append [] y = refl
get_elem?-append (x ∷ xs) y = get_elem?-append xs y

pack_with_data_lem :
    (f : Format) (head : List Value) (tail raw : List ℕ)
    → pack f head ≡ some raw
    → pack_with_data (length head) f (head ++ (bytes tail ∷ [])) ≡ ok (raw ++ tail)
unfolding pack_with_data
pack_with_data_lem f head tail raw p =
    ground (arith, take-append head (bytes tail ∷ []), get_elem?-append head (bytes tail))

unpack_with_data_lem :
    (f : Format) (head : List Value) (tail raw : List ℕ)
    → length raw ≡ calcsize f
    → unpack f raw ≡ some head
    → unpack_with_data f (raw ++ tail) ≡ ok (head ++ (bytes tail ∷ []))
unfolding unpack_with_data
unpack_with_data_lem f head tail raw s u =
    rw (unpack_with_data, ← s) (ground (arith, take-append raw tail, drop-append raw tail))

-- What a payload is packed to, and unpacked from.
abbrev RoundTrips : Body → List Value → Type 0
RoundTrips body vs =
    (raw : List ℕ) × (pack_body body (some vs) ≡ ok raw) × (unpack_body body raw ≡ ok vs)

with_data :
    (n : ℕ) (f : Format) (vs : List Value)
    → FitsData n f vs
    → (raw : List ℕ) × (pack_with_data n f vs ≡ ok raw) × (unpack_with_data f raw ≡ ok vs)
with_data n f vs h =
    let p = pack_from_lem f.aligned 0 f.chars h.head h.fits in
    rw (h.split, ← h.sized)
      (
        p.raw ++ h.tail,
        pack_with_data_lem f h.head h.tail p.raw p.packed,
        unpack_with_data_lem f h.head h.tail p.raw p.sized p.unpacked,
      )

body-RoundTrips : (body : Body) (vs : List Value) → FitsBody body vs → RoundTrips body vs
unfolding pack_body unpack_body
body-RoundTrips no_body [] h = ([], refl, refl)
body-RoundTrips no_body (v ∷ vs) h = absurd h
body-RoundTrips (by_format f) vs h =
    let p = pack_from_lem f.aligned 0 f.chars vs h in (p.raw, rw p.packed refl, rw p.unpacked refl)
body-RoundTrips sdo_write vs h = with_data 4 sdo_write_format vs h
body-RoundTrips sdo_read vs h = with_data 2 sdo_read_format vs h

value_lem : (code : EdlCommandCode) → get_elem? all_codes (value code) ≡ some code
unfolding value
value_lem code = ground arith

payload_lem :
    (body : EdlCommandCode → Body) (code : EdlCommandCode) (vs : List Value)
    → FitsBody (body code) vs
    → (raw : List ℕ) × (pack_payload body (record { code = code; args = some vs }) ≡ ok raw)
      × (unpack_payload body raw ≡ ok (record { code = code; args = some vs }))
payload_lem body code vs h =
    let (raw, p, u) = body-RoundTrips (body code) vs h in
    (value code ∷ raw, rw (pack_payload, p) refl, rw (value_lem code, unpack_args, u) refl)

-- A request whose arguments are of the types and in the ranges of its command is packed, and the
-- bytes are unpacked to the same request.
pub unpack_request-pack_request :
    (code : EdlCommandCode) (vs : List Value)
    → FitsBody (req_body code) vs
    → (raw : List ℕ) × (pack_request (record { code = code; args = some vs }) ≡ ok raw)
      × (unpack_request raw ≡ ok (record { code = code; args = some vs }))
unfolding pack_request unpack_request
unpack_request-pack_request code vs h = payload_lem req_body code vs h

-- A response whose values are of the types and in the ranges of its command is packed, and the
-- bytes are unpacked to the same response.
pub unpack_response-pack_response :
    (code : EdlCommandCode) (vs : List Value)
    → FitsBody (res_body code) vs
    → (raw : List ℕ) × (pack_response (record { code = code; args = some vs }) ≡ ok raw)
      × (unpack_response raw ≡ ok (record { code = code; args = some vs }))
unfolding pack_response unpack_response
unpack_response-pack_response code vs h = payload_lem res_body code vs h
