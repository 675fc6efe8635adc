-- ===== src/Services/Edl/World.antt =====
-- oresat_c3/services/edl.py: what the commands act on, and the ways in which they call it.
use oresat_c3_software.Prelude.{
  ℕ, String, List, [], ◌∷◌, Bool, true, false, not, Option, none, some, ◌==◌, get_elem?, Result, ok,
  err, Exec, With, pure, modify, choose, ◌>>=◌, ◌>>◌,
}
use oresat_c3_software.Drivers.I2c.{I2c}
use oresat_c3_software.Protocols.Struct.{Value, truth, int, bytes}
use oresat_c3_software.Subsystems.Opd
use oresat_c3_software.Subsystems.Opd.{Opd, OpdState, OpdError}
use oresat_c3_software.Subsystems.Opd.Node.{OpdNodeState, Act}
use oresat_c3_software.Subsystems.Opd.Node
use oresat_c3_software.Subsystems.Opd.Methods
use oresat_c3_software.Services.Edl.Outside.{
  Outside, CallError, aborted, other, find_obj, or_other, of_result,
}

-- What `_run_cmd` can raise.
pub data RunError : Type 0 where
  index_error type_error value_error key_error : RunError
  opd_error : OpdError → RunError
  call_error : CallError → RunError

-- The OD entries of `tx_control`, the OPD with its bus, and all that is outside.
pub record World (W Bus : Type 0) : Type 0 where
  pub tx_enabled : Bool
  pub last_tx_enable : ℕ
  pub opd : With Opd Bus
  pub outside : W

-- The dicts of the node manager that name the cards.
pub record Names : Type 0 where
  pub node_id_to_name : ℕ → Option String
  pub opd_addr_to_name : ℕ → Option String

abbrev pub node_state_value : OpdNodeState → ℕ
node_state_value Node.disabled = 0
node_state_value Node.enabled = 1
node_state_value Node.fault = 2
node_state_value Node.dead = 3
node_state_value Node.not_found = 0xFF

-- `value == 0`
abbrev pub is_zero : Value → Bool
is_zero (truth b) = not b
is_zero (int n) = n == 0
is_zero (bytes bs) = false

-- `request.args[i]`
abbrev pub arg : ℕ → Option (List Value) → Result RunError Value
arg i none = err type_error
arg i (some vs) = elim (get_elem? vs i) [ none ↦ err index_error | some v ↦ ok v ]

abbrev pub int_arg : Result RunError Value → Result RunError ℕ
int_arg (ok (int n)) = ok n
int_arg (ok _) = err type_error
int_arg (err e) = err e

-- `names[key]`
abbrev pub name_of : (ℕ → Option String) → ℕ → Result RunError String
name_of names key = elim (names key) [ none ↦ err key_error | some name ↦ ok name ]

-- An `SdoAbortedError` is answered by its code, and any other exception goes on.
abbrev pub code_of : {W : Type 0} → Result CallError (Unit {0}) × W → Result CallError ℕ × W
code_of (ok a, w) = (ok 0, w)
code_of (err (aborted code), w) = (ok code, w)
code_of (err other, w) = (err other, w)

-- The error code and the data of a read.
abbrev pub data_of :
    {W : Type 0} → Result CallError (List ℕ) × W → Result CallError (ℕ × List ℕ) × W
data_of (ok data', w) = (ok (0, data'), w)
data_of (err (aborted code), w) = (ok (code, []), w)
data_of (err other, w) = (err other, w)

module _ {W Obj V : Type 0} (out : Outside W Obj V) where
  -- The `try` of CO_SDO_WRITE.
  unfoldable pub sdo_write : ℕ → String → ℕ → ℕ → List ℕ → Exec CallError W ℕ
  sdo_write node_id name index subindex data' w = code_of (
      choose (node_id == 1)
        (do
          obj ← of_result (find_obj (out.od index) subindex)
          out.on_sdo_write index subindex obj data')
        (out.sdo_write name index subindex data') w)

  -- The `try` of CO_SDO_READ.
  unfoldable pub sdo_read : ℕ → String → ℕ → ℕ → Exec CallError W (ℕ × List ℕ)
  sdo_read node_id name index subindex w = data_of (
      choose (node_id == 1)
        (do
          obj ← of_result (find_obj (out.od index) subindex)
          value ← out.on_sdo_read index subindex obj
          of_result (or_other (out.encode_raw obj value)))
        (do
          value ← out.sdo_read name index subindex
          od ← of_result (or_other (out.od_db name))
          obj ← of_result (find_obj (od index) subindex)
          of_result (or_other (out.encode_raw obj value)))
        w)

abbrev outside_result : {A : Type 0} → Result CallError A → Result RunError A
outside_result (ok a) = ok a
outside_result (err e) = err (call_error e)

abbrev opd_result : {A : Type 0} → Result OpdError A → Result RunError A
opd_result (ok a) = ok a
opd_result (err e) = err (opd_error e)

abbrev pub is_missing : Option Node.OpdNode → Bool
is_missing none = true
is_missing (some node) = false

module _ {W Bus : Type 0} where
  -- A call of what is outside.
  abbrev pub call : {A : Type 0} → Exec CallError W A → Exec RunError (World W Bus) A
  call m s = let (r, w) = m s.outside in (outside_result r, record s { outside = w })

  -- A call of the OPD.
  abbrev pub opd_call :
      {A : Type 0} → Exec OpdError (With Opd Bus) A → Exec RunError (World W Bus) A
  opd_call m s = let (r, t) = m s.opd in (opd_result r, record s { opd = t })

  abbrev pub set_tx : Bool → ℕ → Exec RunError (World W Bus) (Unit {0})
  set_tx enabled time = modify (λ s. record s { tx_enabled = enabled; last_tx_enable = time })

  -- The name of the card with the OPD address that the first argument is.
  abbrev pub opd_name : Names → Option (List Value) → Exec RunError (World W Bus) String
  opd_name names args = do
    addr ← of_result (int_arg (arg 0 args))
    of_result (name_of names.opd_addr_to_name addr)

  abbrev pub node_name : Names → Option (List Value) → Exec RunError (World W Bus) String
  node_name names args = do
    node_id ← of_result (int_arg (arg 0 args))
    of_result (name_of names.node_id_to_name node_id)

  abbrev pub answer :
      {A : Type 0}
      → Exec RunError (World W Bus) A
      → (A → List Value)
      → Exec RunError (World W Bus) (Option (List Value))
  answer m f = do a ← m; pure (some (f a))

  abbrev pub silent :
      Exec RunError (World W Bus) (Unit {0}) → Exec RunError (World W Bus) (Option (List Value))
  silent m = do m; pure none

  -- `node.status.value` of a node of the OPD
  abbrev pub node_state : I2c Bus → String → Exec RunError (World W Bus) (Option (List Value))
  node_state io name =
      answer (opd_call (Opd.with_node name (Methods.status io)))
        (λ st. int (node_state_value st) ∷ [])
