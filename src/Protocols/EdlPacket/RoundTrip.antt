-- ===== src/Protocols/EdlPacket/RoundTrip.antt =====
-- EDL packets are unpacked to what was packed.
use oresat_c3_software.Prelude.{
  ℕ, ◌+◌, ◌<◌, ◌≤◌, ◌≡◌, refl, sym, ap, ◌∙◌, arith, List, ◌++◌, Bool, Option, some, length,
  length-append, ok, but_last-append, last-append, eq_bytes_self, from_bytes-four_bytes,
}
use oresat_c3_software.Protocols.EdlCommand.{
  Payload, pack_request, unpack_request, pack_response, unpack_response, req_body, res_body,
}
use oresat_c3_software.Protocols.EdlCommand.RoundTrip.{
  FitsBody, unpack_request-pack_request, unpack_response-pack_response,
}
use oresat_c3_software.Protocols.Struct.{Value}
use oresat_c3_software.Protocols.EdlPacket.{
  TransferFrame, SrcDest, dest, source, Packages, EdlPacket, EdlPayload, request, response, pdu,
  vcid, vcid_value, crc16_bytes, gen_hmac, hmac_ok, fecf_ok, frame_of, pack_payload, unpack_payload,
  unpack_frame, pack, unpack,
}

module _ {Pdu : Type 0} (pkg : Packages Pdu) where
  -- What the documentation of the packages says: SHA3-256 has 32 bytes, and a frame whose length
  -- field says how long it is, with the FECF, has 12 bytes beside its data and is unpacked to
  -- itself, whatever the two bytes of the FECF are.
  pub record IsPackages : Type 0 where
    pub digest_len : (key message : List ℕ) → length (pkg.digest key message) ≡ 32
    pub frames :
        (f : TransferFrame)
        → f.scid < 65536
        → f.vcid < 64
        → f.frame_len < 65536
        → length f.insert_zone ≡ 4
        → f.frame_len + 1 ≡ length f.tfdz + 14
        → (raw : List ℕ) × (pkg.frame_pack f ≡ some raw)
          × (length raw ≡ length f.tfdz + 12)
          × ((fecf : List ℕ) → length fecf ≡ 2 → pkg.frame_unpack (raw ++ fecf) ≡ ok f)

  -- A payload that its sender may send: a request to the satellite or a response from it, with
  -- arguments that fit the command, or a PDU that its package can pack and unpack.
  abbrev pub FitsPayload : EdlPayload Pdu → SrcDest → Type 0
  FitsPayload (request p) dest =
      (vs : List Value) × (p.args ≡ some vs) × FitsBody (req_body p.code) vs
  FitsPayload (response p) source =
      (vs : List Value) × (p.args ≡ some vs) × FitsBody (res_body p.code) vs
  FitsPayload (pdu p) d =
      (raw : List ℕ) × (pkg.pdu_pack p ≡ some raw) × (pkg.pdu_from_raw raw ≡ ok p)
  FitsPayload _ _ = ⊥

  -- The frame has a field of two bytes for its length.
  pub record IsPacket (p : EdlPacket Pdu) : Type 0 where
    pub fits : FitsPayload p.payload p.src_dest
    pub word : p.seq_num < 4294967296
    pub short : (raw : List ℕ) → pack_payload pkg p.payload ≡ ok raw → length raw ≤ 65490

  request_back :
      (p : Payload) (vs : List Value)
      → p.args ≡ some vs
      → FitsBody (req_body p.code) vs
      → (raw : List ℕ) × (pack_request p ≡ ok raw) × (unpack_request raw ≡ ok p)
  request_back p vs e h =
      let q : record { code = p.code; args = some vs } ≡ p =
        ap (λ (a : Option (List Value)). let q : Payload = record { code = p.code; args = a } in q)
          (sym e) in
      let (raw, packs, unpacks) = unpack_request-pack_request p.code vs h in
      (raw, ap pack_request (sym q) ∙ packs, unpacks ∙ ap (λ (t : Payload). ok t) q)

  response_back :
      (p : Payload) (vs : List Value)
      → p.args ≡ some vs
      → FitsBody (res_body p.code) vs
      → (raw : List ℕ) × (pack_response p ≡ ok raw) × (unpack_response raw ≡ ok p)
  response_back p vs e h =
      let q : record { code = p.code; args = some vs } ≡ p =
        ap (λ (a : Option (List Value)). let q : Payload = record { code = p.code; args = a } in q)
          (sym e) in
      let (raw, packs, unpacks) = unpack_response-pack_response p.code vs h in
      (raw, ap pack_response (sym q) ∙ packs, unpacks ∙ ap (λ (t : Payload). ok t) q)

  -- The payload's own bytes, and back by the header.
  payload_back :
      (p : EdlPayload Pdu) (d : SrcDest)
      → FitsPayload p d
      → (raw : List ℕ) × (pack_payload pkg p ≡ ok raw)
        × ((frame : TransferFrame)
            → frame.src_dest ≡ d
            → frame.vcid ≡ vcid_value (vcid p)
            → unpack_payload pkg frame raw ≡ ok p)
  unfolding unpack_payload
  payload_back (request p) dest (vs, e, fits) =
      let (raw, packs, unpacks) = request_back p vs e fits in
      (raw, ground arith, λ frame s v. ground arith)
  payload_back (request p) source h = absurd h
  payload_back (response p) source (vs, e, fits) =
      let (raw, packs, unpacks) = response_back p vs e fits in
      (raw, ground arith, λ frame s v. ground arith)
  payload_back (response p) dest h = absurd h
  payload_back (pdu p) d (raw, packs, unpacks) = (raw, ground arith, λ frame s v. ground arith)

  frame_back :
      (key raw : List ℕ) (ignore_hmac : Bool) (p : EdlPacket Pdu)
      → IsPackages
      → p.seq_num < 4294967296
      → unpack_payload pkg (frame_of pkg key p raw) raw ≡ ok p.payload
      → unpack_frame pkg key ignore_hmac (ok (frame_of pkg key p raw)) ≡ ok p
  unfolding unpack_frame hmac_ok
  frame_back key raw ignore_hmac p l w h = ground (
    arith,
    h,
    from_bytes-four_bytes p.seq_num w,
    but_last-append 32 raw (gen_hmac pkg key raw) (l.digest_len key raw),
    last-append 32 raw (gen_hmac pkg key raw) (l.digest_len key raw),
    eq_bytes_self (gen_hmac pkg key raw),
  )

  pack_steps :
      (key raw body : List ℕ) (p : EdlPacket Pdu)
      → pack_payload pkg p.payload ≡ ok body
      → p.seq_num < 4294967296
      → pkg.frame_pack (frame_of pkg key p body) ≡ some raw
      → pack pkg key p ≡ ok (raw ++ crc16_bytes pkg raw)
  unfolding pack
  pack_steps key raw body p b w f = ground arith

  unpack_steps :
      (key raw : List ℕ) (ignore_hmac : Bool)
      → 44 ≤ length raw
      → unpack pkg (raw ++ crc16_bytes pkg raw) key ignore_hmac
        ≡ unpack_frame pkg key ignore_hmac (pkg.frame_unpack (raw ++ crc16_bytes pkg raw))
  unfolding unpack fecf_ok
  unpack_steps key raw ignore_hmac h = ground (
    arith,
    length-append raw (crc16_bytes pkg raw),
    but_last-append 2 raw (crc16_bytes pkg raw) refl,
    last-append 2 raw (crc16_bytes pkg raw) refl,
    eq_bytes_self (crc16_bytes pkg raw),
  )

  -- A packet with a payload that fits its sender, a sequence number of four bytes and no more
  -- bytes than the frame's length field can say is packed, and what it is packed to is unpacked
  -- to the same packet by the same key, whether or not the HMAC is ignored.
  pub unpack-pack :
      (key : List ℕ) (ignore_hmac : Bool) (p : EdlPacket Pdu)
      → IsPackages
      → IsPacket p
      → (raw : List ℕ) × (pack pkg key p ≡ ok raw) × (unpack pkg raw key ignore_hmac ≡ ok p)
  unpack-pack key ignore_hmac p l h =
      let (body, packs, unpacks) = payload_back p.payload p.src_dest h.fits in
      let frame = frame_of pkg key p body in
      let size = h.short body packs in
      let digest = l.digest_len key body in
      let (packet, framed, len, back) =
        l.frames frame (omega arith) (ground arith) (omega arith) refl
          (omega (arith, length-append body (gen_hmac pkg key body))) in
      (
        packet ++ crc16_bytes pkg packet,
        pack_steps key packet body p packs h.word framed,
        unpack_steps key packet ignore_hmac
              (omega (arith, length-append body (gen_hmac pkg key body)))
            ∙ ap (unpack_frame pkg key ignore_hmac) (back (crc16_bytes pkg packet) refl)
            ∙ frame_back key body ignore_hmac p l h.word (unpacks frame refl refl),
      )
