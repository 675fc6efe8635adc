-- ===== src/Protocols/EdlPacket/Tests.antt =====
-- The theorems on EDL packets at concrete packets and packages.
use oresat_c3_software.Prelude.{
  ℕ, ◌+◌, ◌≡◌, refl, arith, List, [], ◌∷◌, ◌++◌, true, false, some, length, ok, err, from_bytes,
  eq_bytes,
}
use oresat_c3_software.Protocols.Struct
use oresat_c3_software.Protocols.Struct.{int}
use oresat_c3_software.Protocols.EdlCommand.{
  ping, pack_request, unpack_request, req_body, pack_body, unpack_body, value, value_error,
}
use oresat_c3_software.Protocols.EdlPacket.{
  TransferFrame, dest, EdlPacket, request, spacecraft_id, gen_hmac, crc16_bytes, too_short, pack,
  unpack, unpack_frame, unpack_payload, hmac_ok, fecf_ok, uncaught,
}
use oresat_c3_software.Protocols.EdlPacket.RoundTrip.{IsPacket, unpack-pack}
use oresat_c3_software.Protocols.EdlPacket.Authentic.{
  Accepted, unpack-Accepted, unpack_unknown_code,
}
use oresat_c3_software.Protocols.EdlPacket.Plain.{layout, packages, packages-IsPackages}

abbrev ping_packet : EdlPacket (List ℕ)
ping_packet = record {
  payload = request (record { code = ping; args = some (int 7 ∷ []) });
  seq_num = 258;
  src_dest = dest;
}

abbrev key : List ℕ
key = 1 ∷ (2 ∷ [])

ping-IsPacket : IsPacket packages ping_packet
unfolding pack_request req_body pack_body value Struct.pack_from Struct.put
ping-IsPacket = record {
  fits = (int 7 ∷ [], refl, (omega arith, tt));
  word = omega arith;
  short = λ raw e. ground arith;
}

unpack-pack_example :
    (raw : List ℕ) × (pack packages key ping_packet ≡ ok raw)
    × (unpack packages raw key false ≡ ok ping_packet)
unpack-pack_example = unpack-pack packages key false ping_packet packages-IsPackages ping-IsPacket

-- A frame around a payload, with its HMAC and its FECF.
abbrev frame_with : List ℕ → TransferFrame
frame_with payload = record {
  scid = spacecraft_id;
  vcid = 0;
  src_dest = dest;
  frame_len = length payload + 45;
  insert_zone = 2 ∷ (1 ∷ (0 ∷ (0 ∷ [])));
  tfdz = payload ++ gen_hmac packages key payload;
}

abbrev message_with : List ℕ → List ℕ
message_with payload = let raw = layout (frame_with payload) in raw ++ crc16_bytes packages raw

ping_unpacks :
    unpack packages (message_with (17 ∷ (7 ∷ (0 ∷ (0 ∷ (0 ∷ [])))))) key false ≡ ok ping_packet
unfolding unpack unpack_frame unpack_payload hmac_ok fecf_ok eq_bytes from_bytes unpack_request
    req_body unpack_body Struct.unpack_from Struct.take_item
ping_unpacks = refl

unpack-Accepted_example :
    (frame : TransferFrame) × Accepted packages
      (message_with (17 ∷ (7 ∷ (0 ∷ (0 ∷ (0 ∷ []))))))
      key
      ping_packet
      frame
unpack-Accepted_example =
    unpack-Accepted packages (message_with (17 ∷ (7 ∷ (0 ∷ (0 ∷ (0 ∷ [])))))) key ping_packet
      ping_unpacks

twenty_fecf : fecf_ok packages (message_with (20 ∷ [])) ≡ true
unfolding fecf_ok eq_bytes
twenty_fecf = refl

twenty_hmac : hmac_ok packages key (frame_with (20 ∷ [])).tfdz ≡ true
unfolding hmac_ok eq_bytes
twenty_hmac = refl

unpack_unknown_code_example :
    unpack packages (message_with (20 ∷ [])) key false ≡ err (uncaught value_error)
unpack_unknown_code_example =
    unpack_unknown_code packages (message_with (20 ∷ [])) key false (frame_with (20 ∷ [])) 20 []
      (omega arith) twenty_fecf refl twenty_hmac refl refl (omega arith)

too_short_message : unpack packages (1 ∷ []) key true ≡ err too_short
unfolding unpack
too_short_message = refl
