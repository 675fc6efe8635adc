-- ===== src/Protocols/EdlPacket/Authentic.antt =====
-- What the packets that are accepted have passed, and an exception that gets out of `unpack`.
use oresat_c3_software.Prelude.{
  ℕ, zero, suc, ◌≤◌, ◌≡◌, inl, inr, refl, sym, ap, ◌∙◌, arith, List, [], ◌∷◌, Bool, true, false,
  Bool-cases, Option, none, Result-cases, length, Result, ok, err, get_elem?, but_last, last,
  from_bytes, eq_bytes_sound,
}
use oresat_c3_software.Protocols.EdlCommand.{
  EdlCommandCode, unpack_args, req_body, res_body, value_error, all_codes, unpack_request,
  unpack_response,
}
use oresat_c3_software.Protocols.EdlPacket.{
  TransferFrame, Packages, EdlPacket, EdlPayload, PacketError, uncaught, crc16_bytes, gen_hmac,
  expected, other, hmac_ok, fecf_ok, packet_of, unpack_payload, unpack_frame, unpack,
}

get_elem?_past : {A : Type 0} (xs : List A) (i : ℕ) → length xs ≤ i → get_elem? xs i ≡ none
get_elem?_past [] i h = refl
get_elem?_past (x ∷ xs) zero h = absurd (omega arith)
get_elem?_past (x ∷ xs) (suc i) h = get_elem?_past xs i (omega arith)

unpack_request_unknown :
    (code : ℕ) (args : List ℕ) → 20 ≤ code → unpack_request (code ∷ args) ≡ err value_error
unfolding unpack_request
unpack_request_unknown code args h =
    ap (λ (c : Option EdlCommandCode). unpack_args req_body c args)
      (get_elem?_past all_codes code h)

unpack_response_unknown :
    (code : ℕ) (args : List ℕ) → 20 ≤ code → unpack_response (code ∷ args) ≡ err value_error
unfolding unpack_response
unpack_response_unknown code args h =
    ap (λ (c : Option EdlCommandCode). unpack_args res_body c args)
      (get_elem?_past all_codes code h)

module _ {Pdu : Type 0} (pkg : Packages Pdu) where
  -- What a message has passed when a packet comes of it.
  pub record Accepted (raw key : List ℕ) (p : EdlPacket Pdu) (frame : TransferFrame) : Type 0 where
    pub long_enough : 46 ≤ length raw
    pub crc : last 2 raw ≡ crc16_bytes pkg (but_last 2 raw)
    pub framed : pkg.frame_unpack raw ≡ ok frame
    pub hmac : last 32 frame.tfdz ≡ gen_hmac pkg key (but_last 32 frame.tfdz)
    pub number : p.seq_num ≡ from_bytes frame.insert_zone
    pub origin : p.src_dest ≡ frame.src_dest
    pub content : unpack_payload pkg frame (but_last 32 frame.tfdz) ≡ ok p.payload

  fecf_ok_sound :
      (raw : List ℕ) → fecf_ok pkg raw ≡ true → last 2 raw ≡ crc16_bytes pkg (but_last 2 raw)
  unfolding fecf_ok
  fecf_ok_sound raw h = sym (eq_bytes_sound _ _ h)

  hmac_ok_sound :
      (key tfdz : List ℕ)
      → hmac_ok pkg key tfdz ≡ true
      → last 32 tfdz ≡ gen_hmac pkg key (but_last 32 tfdz)
  unfolding hmac_ok
  hmac_ok_sound key tfdz h = eq_bytes_sound _ _ h

  unpack_steps :
      (raw key : List ℕ) (p : EdlPacket Pdu)
      → unpack pkg raw key false ≡ ok p
      → (46 ≤ length raw)
        × (fecf_ok pkg raw ≡ true)
        × (unpack_frame pkg key false (pkg.frame_unpack raw) ≡ ok p)
  unfolding unpack
  unpack_steps raw key p h = elim (Bool-cases (fecf_ok pkg raw)) [
    | inl good ↦ (ground arith, good, ground arith)
    | inr bad ↦ absurd (ground arith)
  ]

  frame_steps :
      (key : List ℕ) (p : EdlPacket Pdu) (frame : TransferFrame)
      → unpack_frame pkg key false (ok frame) ≡ ok p
      → (hmac_ok pkg key frame.tfdz ≡ true)
        × (packet_of frame (unpack_payload pkg frame (but_last 32 frame.tfdz)) ≡ ok p)
  unfolding unpack_frame
  frame_steps key p frame h = elim (Bool-cases (hmac_ok pkg key frame.tfdz)) [
    | inl good ↦ (good, ground arith)
    | inr bad ↦ absurd (ground arith)
  ]

  packet_steps :
      (frame : TransferFrame) (r : Result PacketError (EdlPayload Pdu)) (p : EdlPacket Pdu)
      → packet_of frame r ≡ ok p
      → (p.seq_num ≡ from_bytes frame.insert_zone)
        × (p.src_dest ≡ frame.src_dest)
        × (r ≡ ok p.payload)
  packet_steps frame (err e) p h = absurd (ground arith)
  packet_steps frame (ok payload) p h = ground arith

  -- Where the HMAC is not ignored, a packet comes of a message only if the message has at least 46
  -- bytes, ends in the CRC of all before it, and is a frame whose data ends in the HMAC, by the key,
  -- of the payload before it. The payload is what is unpacked of these bytes, and the sequence
  -- number is that of the insert zone.
  pub unpack-Accepted :
      (raw key : List ℕ) (p : EdlPacket Pdu)
      → unpack pkg raw key false ≡ ok p
      → (frame : TransferFrame) × Accepted raw key p frame
  unpack-Accepted raw key p h =
      let (long, fecf, e) = unpack_steps raw key p h in
      elim (Result-cases (pkg.frame_unpack raw)) [
        | inr (expected, lost) ↦ absurd (unfold unpack_frame in ground arith)
        | inr (other, lost) ↦ absurd (unfold unpack_frame in ground arith)
        | inl (frame, framed) ↦
            let (hmac, content) =
              frame_steps key p frame (ap (unpack_frame pkg key false) (sym framed) ∙ e) in
            let (number, origin, payload) = packet_steps frame _ p content in
            (
              frame,
              record {
                long_enough = long;
                crc = fecf_ok_sound raw fecf;
                framed = framed;
                hmac = hmac_ok_sound key frame.tfdz hmac;
                number = number;
                origin = origin;
                content = payload;
              },
            )
      ]

  -- A message that passes every test and carries a command whose code is none of the 20 raises an
  -- exception that is no `EdlPacketError`.
  pub unpack_unknown_code :
      (raw key : List ℕ) (ignore_hmac : Bool) (frame : TransferFrame) (code : ℕ) (args : List ℕ)
      → 46 ≤ length raw
      → fecf_ok pkg raw ≡ true
      → pkg.frame_unpack raw ≡ ok frame
      → hmac_ok pkg key frame.tfdz ≡ true
      → frame.vcid ≡ 0
      → but_last 32 frame.tfdz ≡ code ∷ args
      → 20 ≤ code
      → unpack pkg raw key ignore_hmac ≡ err (uncaught value_error)
  unfolding unpack unpack_frame unpack_payload
  unpack_unknown_code raw key ignore_hmac frame code args long fecf framed hmac zero_vcid body big =
      ground (arith, unpack_request_unknown code args big, unpack_response_unknown code args big)
