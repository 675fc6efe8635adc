-- ===== src/Services/Edl/Outside.antt =====
-- What `_run_cmd` of oresat_c3/services/edl.py calls outside of the OPD: olaf's node and its object
-- dictionaries, the clocks and the beacon service. `W` is the state of all of that.
use oresat_c3_software.Prelude.{
  ℕ, String, List, Option, none, some, if◌then◌else◌, ◌==◌, Result, ok, err, Exec,
}
use oresat_c3_software.Protocols.Struct.{Value}
use oresat_c3_software.Services.Edl.{EdlService}

-- `SdoAbortedError`, by its code, and any other exception.
pub data CallError : Type 0 where
  aborted : (code : ℕ) → CallError
  other : CallError

-- `NodeStop`
pub data NodeStop : Type 0 where
  soft_reset hard_reset factory_reset : NodeStop

-- An entry of an object dictionary: a variable, or an array or a record.
pub data Entry (Obj : Type 0) : Type 0 where
  variable : Obj → Entry Obj
  entries : (ℕ → Option Obj) → Entry Obj

-- `node_status` is a dict of tuples. `service_after` and `key_after` say what the entries of the own
-- OD that the service reads, and the active key in it, are when a command that found the first
-- state outside has left the second: an SDO write to the own node may have set them.
pub record Outside (W Obj V : Type 0) : Type 0 where
  pub stop : NodeStop → Exec CallError W (Unit {0})
  pub node_status : String → W → Option (List Value)
  pub send_sync : Exec CallError W (Unit {0})
  pub send_tpdo : ℕ → Exec CallError W (Unit {0})
  pub od : ℕ → Option (Entry Obj)
  pub od_db : String → Option (ℕ → Option (Entry Obj))
  pub on_sdo_write : ℕ → ℕ → Obj → List ℕ → Exec CallError W (Unit {0})
  pub on_sdo_read : ℕ → ℕ → Obj → Exec CallError W V
  pub sdo_write : String → ℕ → ℕ → List ℕ → Exec CallError W (Unit {0})
  pub sdo_read : String → ℕ → ℕ → Exec CallError W V
  pub encode_raw : Obj → V → Option (List ℕ)
  pub set_rtc_time : ℕ → Exec CallError W (Unit {0})
  pub set_system_time_to_rtc_time : Exec CallError W (Unit {0})
  pub beacon_send : Exec CallError W (Unit {0})
  pub service_after : W → W → EdlService → EdlService
  pub key_after : W → W → List ℕ → List ℕ

-- "Subindex does not exist"
abbrev pub no_subindex : ℕ
no_subindex = 0x06090011

-- The object of an index and a subindex.
abbrev pub find_obj : {Obj : Type 0} → Option (Entry Obj) → ℕ → Result CallError Obj
find_obj none subindex = err other
find_obj (some (variable obj)) subindex =
    if subindex == 0 then ok obj else err (aborted no_subindex)
find_obj (some (entries objs)) subindex = elim (objs subindex) [
  | none ↦ err other
  | some obj ↦ ok obj
]

abbrev pub or_other : {A : Type 0} → Option A → Result CallError A
or_other none = err other
or_other (some a) = ok a

abbrev pub of_result : {E S A : Type 0} → Result E A → Exec E S A
of_result r s = (r, s)
