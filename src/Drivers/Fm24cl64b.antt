-- ===== src/Drivers/Fm24cl64b.antt =====
-- oresat_c3/drivers/fm24cl64b.py: the driver of the FM24CL64B F-RAM. A method acts on the driver
-- object, which holds the contents of the mock's file, and the bus. Offsets and sizes are
-- naturals, so the guards against negative numbers have no counterpart; neither has the type
-- test of `write`.
pub mod Memory
pub mod Chip
mod Tests
use oresat_c3_software.Prelude.{
  ℕ, ◌+◌, ◌/◌, ◌%◌, List, [], ◌∷◌, ◌++◌, Bool, true, false, ◌||◌, Option, none, some, if◌then◌else◌,
  ltb, ◌==◌, length, take, drop, replicate, Result, ok, err, Exec, With,
}
use oresat_c3_software.Drivers.I2c.{I2c, buffer_from}

-- Every raise of `Fm24cl64bError`, by its message, and the `TypeError` of a value that is no bytes.
pub data Fm24cl64bError : Type 0 where
  bad_addr bad_size bad_offset too_long no_bytes does_not_exist type_error : Fm24cl64bError

pub record Fm24cl64b : Type 0 where
  pub bus_num : ℕ
  pub addr : ℕ
  pub mock : Bool
  pub mock_file : List ℕ

abbrev pub addr_min : ℕ
addr_min = 0x50

abbrev pub addr_max : ℕ
addr_max = 0x5F

abbrev pub fram_size : ℕ
fram_size = 8192

-- `__init__`; `file` is the mock's file, if there is one already.
unfoldable pub new_fm24cl64b : ℕ → ℕ → Bool → Option (List ℕ) → Result Fm24cl64bError Fm24cl64b
new_fm24cl64b bus_num addr mock file =
    if ltb addr addr_min || ltb addr_max addr
    then err bad_addr
    else ok (record {
      bus_num = bus_num;
      addr = addr;
      mock = mock;
      mock_file = elim file [ some contents ↦ contents | none ↦ replicate fram_size 0 ];
    })

-- `offset.to_bytes(2, "big")`
abbrev pub address : ℕ → List ℕ
address offset = (offset / 256) ∷ (offset % 256) ∷ []

-- `tmp[offset : offset + size] = bytes`
abbrev pub overwrite : ℕ → List ℕ → List ℕ → List ℕ
overwrite offset bytes tmp = take offset tmp ++ (bytes ++ drop (offset + length bytes) tmp)

module _ {Bus : Type 0} (io : I2c Bus) where
  abbrev pub Driver : Type 0 → Type 0
  Driver A = Exec Fm24cl64bError (With Fm24cl64b Bus) A

  abbrev pub read_answer : ℕ → Option (ℕ → ℕ) × Bus → Driver (List ℕ)
  read_answer size (none, b) s = (err does_not_exist, record s { bus = b })
  read_answer size (some reply, b) s = (ok (buffer_from 0 size reply), record s { bus = b })

  unfoldable pub read : ℕ → ℕ → Driver (List ℕ)
  read offset size s =
      if ltb size 1
      then (err bad_size, s)
      else (if ltb fram_size offset
          then (err bad_offset, s)
          else (if ltb fram_size (offset + size)
              then (err too_long, s)
              else (if s.self.mock
                  then (ok (take size (drop offset s.self.mock_file)), s)
                  else read_answer size
                      (io.write_read s.self.bus_num s.self.addr (address offset) size s.bus) s)))

  abbrev pub write_answer : Bool × Bus → Driver (Unit {0})
  write_answer (false, b) s = (err does_not_exist, record s { bus = b })
  write_answer (true, b) s = (ok tt, record s { bus = b })

  unfoldable pub write : ℕ → List ℕ → Driver (Unit {0})
  write offset bytes s =
      if ltb fram_size offset
      then (err bad_offset, s)
      else (if ltb fram_size (offset + length bytes)
          then (err too_long, s)
          else (if length bytes == 0
              then (err no_bytes, s)
              else (if s.self.mock
                  then (
                    ok tt,
                    record s {
                      self = record s.self { mock_file = overwrite offset bytes s.self.mock_file };
                    },
                  )
                  else write_answer
                      (io.write s.self.bus_num s.self.addr (address offset ++ bytes) s.bus) s)))

  unfoldable pub clear : Driver (Unit {0})
  unfolding write
  clear = write 0 (replicate (fram_size / 2) 0x00)
