-- ===== src/Services/State/Storage.antt =====
-- oresat_c3/services/state.py: storing the state in the F-RAM and restoring it. Which objects are
-- stored is configuration; their encoding is canopen's, a parameter.
use text.Mathlib.Text.{starts_with}
use oresat_c3_software.Prelude.{
  Bool, true, false, ℕ, ◌+◌, String, str_eq, List, [], ◌∷◌, not, if◌then◌else◌, ◌==◌, length,
  Result, ok, err, With, Exec, pure, raise, when, ◌>>◌,
}
use oresat_c3_software.Drivers.I2c.{I2c}
use oresat_c3_software.Drivers.Fm24cl64b.{Fm24cl64b, Fm24cl64bError, type_error, read, write, clear}
use oresat_c3_software.Services.State.{pre_deploy}

-- An OD object that is listed for the F-RAM, by the branch that its data type takes: DOMAIN,
-- OCTET_STRING, or any other. `default` is the OD default, `value` the current value, and
-- `data_type` the canopen code of the type.
pub data FramObj (V : Type 0) : Type 0 where
  domain : (name : String) → FramObj V
  octet_string : (name : String) (default value : List ℕ) → FramObj V
  variable : (name : String) (data_type : ℕ) (default value : V) → FramObj V

-- canopen's `encode_raw` and `decode_raw`.
pub record Codec (V : Type 0) : Type 0 where
  pub encode_raw : ℕ → V → List ℕ
  pub decode_raw : ℕ → List ℕ → V

-- `raw or C3State.PRE_DEPLOY.value.to_bytes(1, "little")` for the object `status`.
abbrev pub or_pre_deploy : String → List ℕ → List ℕ
or_pre_deploy name [] = if str_eq name "status" then pre_deploy ∷ [] else []
or_pre_deploy name (b ∷ bs) = b ∷ bs

-- `name.startswith("crypto_key")`
abbrev pub is_key : String → Bool
is_key name = starts_with name "crypto_key"

module _ {V Bus : Type 0} (codec : Codec V) (io : I2c Bus) where
  abbrev pub Stored : Type 0 → Type 0
  Stored A = Exec Fm24cl64bError (With Fm24cl64b Bus) A

  -- The loop of `store_state`, from an offset on.
  unfoldable pub store_objs : List (FramObj V) → ℕ → Stored (Unit {0})
  store_objs [] offset = pure tt
  store_objs (domain name ∷ objs) offset = store_objs objs offset
  store_objs (octet_string name default value ∷ objs) offset =
      write io offset value >> store_objs objs (offset + length default)
  store_objs (variable name data_type default value ∷ objs) offset =
      write io offset (codec.encode_raw data_type value)
      >> store_objs objs (offset + length (codec.encode_raw data_type value))

  -- `store_state`; `status` is the value of the c3 state object.
  unfoldable pub store_state : ℕ → List (FramObj V) → Stored (Unit {0})
  store_state status objs = when (not (status == pre_deploy)) (store_objs objs 0)

  -- The objects behind one that was restored.
  abbrev pub after_obj :
      FramObj V
      → (Result Fm24cl64bError (Unit {0}) × List (FramObj V)) × With Fm24cl64b Bus
      → (Result Fm24cl64bError (Unit {0}) × List (FramObj V)) × With Fm24cl64b Bus
  after_obj obj ((r, objs), s) = ((r, obj ∷ objs), s)

  -- The loop of `restore_state`, from an offset on: the objects with the values that they are
  -- left with, and the exception if there was one.
  unfoldable pub restore_objs :
      List (FramObj V)
      → ℕ
      → With Fm24cl64b Bus
      → (Result Fm24cl64bError (Unit {0}) × List (FramObj V)) × With Fm24cl64b Bus
  restore_objs [] offset s = ((ok tt, []), s)
  restore_objs (domain name ∷ objs) offset s = after_obj (domain name) (restore_objs objs offset s)
  restore_objs (octet_string name default value ∷ objs) offset s =
      let (r, s') = read io offset (length default) s in
      elim r [
        | ok raw ↦
            after_obj (octet_string name default raw)
              (restore_objs objs (offset + length default) s')
        | err e ↦ ((err e, octet_string name default value ∷ objs), s')
      ]
  restore_objs (variable name data_type default value ∷ objs) offset s =
      let size = length (codec.encode_raw data_type default) in
      let (r, s') = read io offset size s in
      elim r [
        | ok raw ↦
            after_obj
              (variable name data_type default
                (codec.decode_raw data_type (or_pre_deploy name raw)))
              (restore_objs objs (offset + size) s')
        | err e ↦ ((err e, variable name data_type default value ∷ objs), s')
      ]

  -- `restore_state`
  unfoldable pub restore_state :
      List (FramObj V)
      → With Fm24cl64b Bus
      → (Result Fm24cl64bError (Unit {0}) × List (FramObj V)) × With Fm24cl64b Bus
  restore_state objs s = restore_objs objs 0 s

  -- The loop of `clear_state` behind the clearing of the F-RAM, from an offset on: the keys are
  -- written again, by their value. A key that is no octet string has a value that is no bytes, of
  -- which `len` or `write` raises.
  unfoldable pub clear_objs : List (FramObj V) → ℕ → Stored (Unit {0})
  clear_objs [] offset = pure tt
  clear_objs (domain name ∷ objs) offset = clear_objs objs offset
  clear_objs (octet_string name default value ∷ objs) offset = elim (is_key name) [
    | true ↦ write io offset value >> clear_objs objs (offset + length default)
    | false ↦ clear_objs objs (offset + length value)
  ]
  clear_objs (variable name data_type default value ∷ objs) offset = elim (is_key name) [
    | true ↦ raise type_error
    | false ↦ clear_objs objs (offset + length (codec.encode_raw data_type value))
  ]

  -- `clear_state`, up to the RTC, which it sets to 0 at last.
  unfoldable pub clear_state : List (FramObj V) → Stored (Unit {0})
  clear_state objs = clear io >> clear_objs objs 0
