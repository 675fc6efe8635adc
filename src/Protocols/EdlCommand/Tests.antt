-- ===== src/Protocols/EdlCommand/Tests.antt =====
-- The theorems on EDL payloads at concrete inputs.
use oresat_c3_software.Prelude.{ℕ, ◌≡◌, refl, arith, List, [], ◌∷◌, true, some, none, ok, err}
use oresat_c3_software.Protocols.Struct.{Value, truth, int, bytes}
use oresat_c3_software.Protocols.Struct
use oresat_c3_software.Protocols.EdlCommand.{
  tx_ctrl, co_sdo_write, co_sdo_read, index_error, value_error, type_error, pack_request,
  unpack_request, pack_response, unpack_response, value, req_body, res_body, pack_body,
  pack_with_data,
}
use oresat_c3_software.Protocols.EdlCommand.RoundTrip.{
  unpack_request-pack_request, unpack_response-pack_response,
}

abbrev sdo_write_args : List Value
sdo_write_args = int 0x10 ∷ int 0x6000 ∷ int 1 ∷ int 2 ∷ bytes (7 ∷ 8 ∷ []) ∷ []

unpack_request-pack_request_example :
    (raw : List ℕ) × (pack_request (record { code = co_sdo_write; args = some sdo_write_args })
      ≡ ok raw)
    × (unpack_request raw ≡ ok (record { code = co_sdo_write; args = some sdo_write_args }))
unfolding req_body
unpack_request-pack_request_example =
    unpack_request-pack_request co_sdo_write sdo_write_args (record {
      head = int 0x10 ∷ int 0x6000 ∷ int 1 ∷ int 2 ∷ [];
      tail = 7 ∷ 8 ∷ [];
      split = refl;
      sized = refl;
      fits = (omega arith, (omega arith, (omega arith, (omega arith, tt))));
    })

unpack_response-pack_response_example :
    (raw : List ℕ) × (pack_response (record { code = tx_ctrl; args = some (truth true ∷ []) })
      ≡ ok raw)
    × (unpack_response raw ≡ ok (record { code = tx_ctrl; args = some (truth true ∷ []) }))
unfolding res_body
unpack_response-pack_response_example =
    unpack_response-pack_response tx_ctrl (truth true ∷ []) (tt, tt)

no_bytes : unpack_request [] ≡ err index_error
unfolding unpack_request
no_bytes = refl

unknown_code : unpack_request (20 ∷ []) ≡ err value_error
unfolding unpack_request
unknown_code = refl

no_args : pack_request (record { code = tx_ctrl; args = none }) ≡ err type_error
unfolding pack_request req_body pack_body
no_args = refl

-- Native mode pads the request in front of the index.
padded :
    pack_request (record { code = co_sdo_read; args = some (int 4 ∷ int 0x1234 ∷ int 1 ∷ []) })
    ≡ ok (19 ∷ 4 ∷ 0 ∷ 0x34 ∷ 0x12 ∷ 1 ∷ [])
unfolding pack_request req_body pack_body value Struct.pack_from Struct.put
padded = refl

unpadded :
    pack_request (record { code = co_sdo_write; args = some sdo_write_args })
    ≡ ok (6 ∷ 0x10 ∷ 0 ∷ 0x60 ∷ 1 ∷ 2 ∷ 0 ∷ 0 ∷ 0 ∷ 7 ∷ 8 ∷ [])
unfolding pack_request req_body pack_body pack_with_data value Struct.pack_from Struct.put
unpadded = refl
