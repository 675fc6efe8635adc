-- ===== src/Protocols/Cfdp/Handlers.antt =====
-- The methods of the source and the destination handler that cfdp.py overrides. What they call of
-- their parents, of cfdp-py, is a parameter.
use oresat_c3_software.Prelude.{
  ℕ, ◌+◌, ◌/◌, leb, String, List, [], ◌∷◌, ◌++◌, Bool, true, false, ◌==◌, Option, none, some,
  Result, ok, err, Exec,
}
use oresat_c3_software.Protocols.CacheStore.{
  CacheStore, StoreError, file_not_found, file_exists, stat, read_data,
}
use oresat_c3_software.Protocols.Cfdp.{
  CfdpError, no_such_file, source_file_does_not_exist, assertion,
}

-- What is read of a put request.
pub record Request : Type 0 where
  pub metadata_only : Bool
  pub source_file : Option String

-- `FileDataPdu`, by its parameters.
pub record FileData : Type 0 where
  pub file_data : List ℕ
  pub offset : ℕ

-- `self._put_req`, `self._params.fp` and the packets to be sent.
pub record Source : Type 0 where
  pub put_req : Option Request
  pub metadata_only : Bool
  pub no_eof : Bool
  pub file_size : ℕ
  pub packets : List FileData

abbrev pub SourceMethod : Type 0
SourceMethod = Exec CfdpError Source (Unit {0})

abbrev pub sized : Result StoreError ℕ → SourceMethod
sized (err file_not_found) h = (err no_such_file, h)
sized (ok file_size) h = elim (file_size == 0) [
  | true ↦ (ok tt, record h { metadata_only = true })
  | false ↦ (ok tt, record h { file_size = file_size })
]

abbrev pub file_params : Request → CacheStore → SourceMethod
file_params request vfs h = elim request.metadata_only [
  | true ↦ (ok tt, record h { metadata_only = true; no_eof = true })
  | false ↦ elim request.source_file [
    | none ↦ (err assertion, h)
    | some file ↦ elim (file_exists file vfs) [
      | false ↦ (err source_file_does_not_exist, h)
      | true ↦ sized (stat file vfs).0 h
    ]
  ]
]

-- `VfsSourceHandler._prepare_file_params`
unfoldable pub prepare_file_params : CacheStore → SourceMethod
prepare_file_params vfs h = elim h.put_req [
  | none ↦ (err assertion, h)
  | some request ↦ file_params request vfs h
]

abbrev pub pdu_read : Result StoreError (List ℕ) → ℕ → SourceMethod
pdu_read (err file_not_found) offset h = (err no_such_file, h)
pdu_read (ok raw) offset h =
    (ok tt, record h { packets = h.packets ++ record { file_data = raw; offset = offset } ∷ [] })

-- `VfsSourceHandler._prepare_file_data_pdu`
unfoldable pub prepare_file_data_pdu : ℕ → ℕ → CacheStore → SourceMethod
prepare_file_data_pdu offset read_len vfs h = elim h.put_req [
  | none ↦ (err assertion, h)
  | some request ↦ elim request.source_file [
    | none ↦ (err assertion, h)
    | some file ↦ pdu_read (read_data file (some offset) (some read_len) vfs).0 offset h
  ]
]

-- What the positive acknowledgement reads of `self._params`, and the rest of the handler.
pub record Dest (Timer Rest : Type 0) : Type 0 where
  pub ack_timer : Option Timer
  pub ack_counter : ℕ
  pub positive_ack_timer_expiration_limit : Option ℕ
  pub canceled : Bool
  pub rest : Rest

-- What the handler calls: `timed_out` at the time of the call, and methods of its parent.
pub record Calls (Timer Rest : Type 0) : Type 0 where
  pub timed_out : Timer → Bool
  pub reset : Timer → Timer
  pub declare_fault : Dest Timer Rest → Dest Timer Rest
  pub state_machine : Dest Timer Rest → Dest Timer Rest
  pub prepare_finished_pdu : Dest Timer Rest → Dest Timer Rest

module _ {Timer Rest : Type 0} where
  abbrev pub declared : Calls Timer Rest → Dest Timer Rest → Dest Timer Rest
  declared calls t = elim t.canceled [ true ↦ calls.state_machine t | false ↦ t ]

  abbrev pub expired : Calls Timer Rest → ℕ → Timer → Dest Timer Rest → Dest Timer Rest
  expired calls limit timer d = elim (leb limit (d.ack_counter + 1)) [
    | true ↦ declared calls (calls.declare_fault d)
    | false ↦
        calls.prepare_finished_pdu
          (record d { ack_timer = some (calls.reset timer); ack_counter = d.ack_counter + 1 })
  ]

  -- `FixedDestHandler._handle_positive_ack_procedures`
  unfoldable pub handle_positive_ack_procedures :
      Calls Timer Rest → Dest Timer Rest → Result CfdpError (Dest Timer Rest)
  handle_positive_ack_procedures calls d = elim d.ack_timer [
    | none ↦ err assertion
    | some timer ↦ elim d.positive_ack_timer_expiration_limit [
      | none ↦ err assertion
      | some limit ↦ elim (calls.timed_out timer) [
        | false ↦ ok d
        | true ↦ ok (expired calls limit timer d)
      ]
    ]
  ]

-- `FixedDestHandler._handle_eof_pdu` and `_handle_eof_without_previous_metadata`, where `super`
-- is the method of the parent by the condition code of the packet.
abbrev pub handle_eof_pdu : {A : Type 0} → (ℕ → A) → ℕ → A
handle_eof_pdu super condition_code = super (condition_code / 16)

abbrev pub handle_eof_without_previous_metadata : {A : Type 0} → (ℕ → A) → ℕ → A
handle_eof_without_previous_metadata super condition_code = super (condition_code / 16)
