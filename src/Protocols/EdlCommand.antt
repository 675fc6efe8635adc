-- ===== src/Protocols/EdlCommand.antt =====
-- oresat_c3/protocols/edl_command.py: the payloads of EDL commands, for requests and responses.
-- A code is a member of the enumeration, so the constructors' tests of it have no counterpart.
pub mod RoundTrip
mod Tests
use oresat_c3_software.Prelude.{
  ℕ, List, [], ◌∷◌, ◌++◌, Bool, true, false, Option, none, some, get_elem?, take, drop, Result, ok,
  err,
}
use oresat_c3_software.Protocols.Struct.{
  FormatChar, bool, uint8, uint16, uint32, Format, Value, truth, int, bytes, pack, unpack, calcsize,
}

pub data EdlCommandCode : Type 0 where
  tx_ctrl c3_soft_reset c3_hard_reset c3_factory_reset co_node_enable co_node_status co_sdo_write
        co_sync opd_sysenable opd_scan opd_probe opd_enable opd_reset opd_status rtc_set_time
        time_sync beacon_ping ping rx_test co_sdo_read :
      EdlCommandCode

-- The members in the order of their values, which count from 0.
abbrev pub all_codes : List EdlCommandCode
all_codes =
    tx_ctrl ∷ c3_soft_reset ∷ c3_hard_reset ∷ c3_factory_reset ∷ co_node_enable ∷ co_node_status
    ∷ co_sdo_write ∷ co_sync ∷ opd_sysenable ∷ opd_scan ∷ opd_probe ∷ opd_enable ∷ opd_reset
    ∷ opd_status ∷ rtc_set_time ∷ time_sync ∷ beacon_ping ∷ ping ∷ rx_test ∷ co_sdo_read ∷ []

-- `code.value`
unfoldable pub value : EdlCommandCode → ℕ
value tx_ctrl = 0
value c3_soft_reset = 1
value c3_hard_reset = 2
value c3_factory_reset = 3
value co_node_enable = 4
value co_node_status = 5
value co_sdo_write = 6
value co_sync = 7
value opd_sysenable = 8
value opd_scan = 9
value opd_probe = 10
value opd_enable = 11
value opd_reset = 12
value opd_status = 13
value rtc_set_time = 14
value time_sync = 15
value beacon_ping = 16
value ping = 17
value rx_test = 18
value co_sdo_read = 19

-- What the two methods can raise: `raw[0]` or `values[4]` out of range, a number that is no code,
-- an error of `struct`, and a value of the wrong type, such as `None` where a tuple is unpacked.
pub data EdlError : Type 0 where
  index_error value_error struct_error type_error : EdlError

-- How a payload is packed: nothing, by a format, or by a pair of the callbacks.
pub data Body : Type 0 where
  no_body sdo_write sdo_read : Body
  by_format : Format → Body

abbrev native : List FormatChar → Body
native cs = by_format (record { aligned = true; chars = cs })

-- `EDL_COMMANDS[code]`, for the request and for the response.
unfoldable pub req_body : EdlCommandCode → Body
req_body tx_ctrl = native (bool ∷ [])
req_body co_node_enable = native (uint8 ∷ bool ∷ [])
req_body co_node_status = native (uint8 ∷ [])
req_body co_sdo_write = sdo_write
req_body opd_sysenable = native (bool ∷ [])
req_body opd_probe = native (uint8 ∷ [])
req_body opd_enable = native (uint8 ∷ bool ∷ [])
req_body opd_reset = native (uint8 ∷ [])
req_body opd_status = native (uint8 ∷ [])
req_body rtc_set_time = native (uint32 ∷ [])
req_body ping = native (uint32 ∷ [])
req_body co_sdo_read = native (uint8 ∷ uint16 ∷ uint8 ∷ [])
req_body _ = no_body

unfoldable pub res_body : EdlCommandCode → Body
res_body tx_ctrl = native (bool ∷ [])
res_body co_node_enable = native (uint8 ∷ [])
res_body co_node_status = native (uint8 ∷ [])
res_body co_sdo_write = native (uint32 ∷ [])
res_body co_sync = native (bool ∷ [])
res_body opd_sysenable = native (bool ∷ [])
res_body opd_scan = native (uint8 ∷ [])
res_body opd_probe = native (bool ∷ [])
res_body opd_enable = native (uint8 ∷ [])
res_body opd_reset = native (uint8 ∷ [])
res_body opd_status = native (uint8 ∷ [])
res_body rtc_set_time = native (bool ∷ [])
res_body time_sync = native (bool ∷ [])
res_body ping = native (uint32 ∷ [])
res_body co_sdo_read = sdo_read
res_body _ = no_body

-- `"<BHBI"` and `"<2I"`
abbrev pub sdo_write_format : Format
sdo_write_format = record { aligned = false; chars = uint8 ∷ uint16 ∷ uint8 ∷ uint32 ∷ [] }

abbrev pub sdo_read_format : Format
sdo_read_format = record { aligned = false; chars = uint32 ∷ uint32 ∷ [] }

abbrev pub or_struct_error : {A : Type 0} → Option A → Result EdlError A
or_struct_error none = err struct_error
or_struct_error (some a) = ok a

-- `raw + value`: only bytes can be appended.
abbrev pub append_data : List ℕ → Option Value → Result EdlError (List ℕ)
append_data raw none = err index_error
append_data raw (some (bytes data')) = ok (raw ++ data')
append_data raw (some _) = err type_error

-- The pack callbacks: the first `n` values by the format, and the next one as it is.
unfoldable pub pack_with_data : ℕ → Format → List Value → Result EdlError (List ℕ)
pack_with_data n f vs = elim (pack f (take n vs)) [
  | none ↦ err struct_error
  | some raw ↦ append_data raw (get_elem? vs n)
]

-- The unpack callbacks: the values of the format, and what is behind them.
unfoldable pub unpack_with_data : Format → List ℕ → Result EdlError (List Value)
unpack_with_data f raw = elim (unpack f (take (calcsize f) raw)) [
  | none ↦ err struct_error
  | some vs ↦ ok (vs ++ (bytes (drop (calcsize f) raw) ∷ []))
]

-- What `pack` appends to the code, for a tuple or for `None`.
unfoldable pub pack_body : Body → Option (List Value) → Result EdlError (List ℕ)
pack_body no_body args = ok []
pack_body _ none = err type_error
pack_body (by_format f) (some vs) = or_struct_error (pack f vs)
pack_body sdo_write (some vs) = pack_with_data 4 sdo_write_format vs
pack_body sdo_read (some vs) = pack_with_data 2 sdo_read_format vs

unfoldable pub unpack_body : Body → List ℕ → Result EdlError (List Value)
unpack_body no_body raw = ok []
unpack_body (by_format f) raw = or_struct_error (unpack f raw)
unpack_body sdo_write raw = unpack_with_data sdo_write_format raw
unpack_body sdo_read raw = unpack_with_data sdo_read_format raw

-- `EdlCommandRequest` and `EdlCommandResponse`: the code, and the arguments or the values.
pub record Payload : Type 0 where
  pub code : EdlCommandCode
  pub args : Option (List Value)

abbrev pub pack_payload : (EdlCommandCode → Body) → Payload → Result EdlError (List ℕ)
pack_payload body p = elim (pack_body (body p.code) p.args) [
  | ok raw ↦ ok (value p.code ∷ raw)
  | err e ↦ err e
]

abbrev pub unpack_args :
    (EdlCommandCode → Body) → Option EdlCommandCode → List ℕ → Result EdlError Payload
unpack_args body none raw = err value_error
unpack_args body (some code) raw = elim (unpack_body (body code) raw) [
  | ok vs ↦ ok (record { code = code; args = some vs })
  | err e ↦ err e
]

abbrev pub unpack_payload : (EdlCommandCode → Body) → List ℕ → Result EdlError Payload
unpack_payload body [] = err index_error
unpack_payload body (b ∷ raw) = unpack_args body (get_elem? all_codes b) raw

-- `EdlCommandRequest.pack`, `EdlCommandRequest.unpack`, and those of `EdlCommandResponse`.
unfoldable pub pack_request : Payload → Result EdlError (List ℕ)
pack_request = pack_payload req_body

unfoldable pub unpack_request : List ℕ → Result EdlError Payload
unpack_request = unpack_payload req_body

unfoldable pub pack_response : Payload → Result EdlError (List ℕ)
pack_response = pack_payload res_body

unfoldable pub unpack_response : List ℕ → Result EdlError Payload
unpack_response = unpack_payload res_body
