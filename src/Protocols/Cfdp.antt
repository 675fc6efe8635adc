-- ===== src/Protocols/Cfdp.antt =====
-- oresat_c3/protocols/cfdp.py: what the repository changes in the handlers of cfdp-py. The files
-- are those of the cache. The checksums, timers and packets of cfdp-py are parameters.
pub mod Modular
pub mod Segmented
pub mod Handlers
pub mod Transfer
mod Tests
use oresat_c3_software.Prelude.{
  ℕ, zero, suc, ◌+◌, ◌-◌, ◌*◌, ◌/◌, ◌%◌, ltb, String, List, [], ◌∷◌, ◌++◌, Bool, true, false, not,
  ◌==◌, Option, none, some, if◌then◌else◌, length, replicate, Result, ok, err, Exec,
}
use oresat_c3_software.Protocols.CacheStore.{
  CacheStore, StoreError, file_not_found, read_data, file_exists, stat,
}

-- The exceptions of the helpers.
pub data CfdpError : Type 0 where
  no_such_file source_file_does_not_exist segment_length_zero assertion : CfdpError

-- `int.from_bytes(data.ljust(4, b"\0"), byteorder="big")`
abbrev pub big_endian : ℕ → List ℕ → ℕ
big_endian acc [] = acc
big_endian acc (b ∷ raw) = big_endian (acc * 256 + b) raw

abbrev pub word : List ℕ → ℕ
word raw = big_endian 0 (raw ++ replicate (4 - length raw) 0)

-- `struct.pack("!I", checksum)` of a number that fits.
abbrev pub pack_u32 : ℕ → List ℕ
pack_u32 n = n / 16777216 ∷ n / 65536 % 256 ∷ n / 256 % 256 ∷ n % 256 ∷ []

-- `self.vfs.read_data(file_path, offset, read_len)`
abbrev pub read_at : String → ℕ → ℕ → CacheStore → Result StoreError (List ℕ)
read_at file offset read_len s = (read_data file (some offset) (some read_len) s).0

-- The loop of `calc_modular_checksum`; `none` where the fuel is too little.
unfoldable pub sum_words : ℕ → String → ℕ → ℕ → CacheStore → Option (Result CfdpError ℕ)
sum_words zero file offset checksum s = none
sum_words (suc fuel) file offset checksum s = elim (read_at file offset 4 s) [
  | err file_not_found ↦ some (err no_such_file)
  | ok [] ↦ some (ok checksum)
  | ok (b ∷ raw) ↦ sum_words fuel file (offset + 4) (checksum + word (b ∷ raw)) s
]

abbrev pub packed : Option (Result CfdpError ℕ) → Option (Result CfdpError (List ℕ))
packed none = none
packed (some (err e)) = some (err e)
packed (some (ok checksum)) = some (ok (pack_u32 (checksum % 4294967296)))

-- `calc_modular_checksum`
unfoldable pub calc_modular_checksum : ℕ → String → CacheStore → Option (Result CfdpError (List ℕ))
calc_modular_checksum fuel file s = packed (sum_words fuel file 0 0 s)

pub data ChecksumType : Type 0 where
  null_checksum modular crc : ChecksumType

-- The calculator that `generate_crc_calculator` makes, and `NULL_CHECKSUM_U32`.
pub record Calculator : Type 1 where
  pub Crc : Type 0
  pub fresh : Crc
  pub update : List ℕ → Crc → Crc
  pub digest : Crc → List ℕ
  pub null_checksum_u32 : List ℕ

module _ (calculator : Calculator) where
  unfoldable pub read_len_at : ℕ → ℕ → ℕ → ℕ
  read_len_at current file_sz segment_len =
      if ltb file_sz (current + segment_len) then file_sz - current else segment_len

  -- The loop of `calc_for_file`; `none` where the fuel is too little.
  unfoldable pub crc_from :
      ℕ
      → String
      → ℕ
      → ℕ
      → ℕ
      → calculator.Crc
      → CacheStore
      → Option (Result CfdpError calculator.Crc)
  crc_from zero file current file_sz segment_len crc_obj s = none
  crc_from (suc fuel) file current file_sz segment_len crc_obj s = elim (ltb current file_sz) [
    | false ↦ some (ok crc_obj)
    | true ↦
        let read_len = read_len_at current file_sz segment_len in
        elim (ltb 0 read_len) [
          | false ↦ crc_from fuel file (current + read_len) file_sz segment_len crc_obj s
          | true ↦ elim (read_at file current read_len s) [
            | err file_not_found ↦ some (err no_such_file)
            | ok raw ↦
                crc_from fuel file (current + read_len) file_sz segment_len
                  (calculator.update raw crc_obj) s
          ]
        ]
  ]

  abbrev pub digested :
      Option (Result CfdpError calculator.Crc) → Option (Result CfdpError (List ℕ))
  digested none = none
  digested (some (err e)) = some (err e)
  digested (some (ok crc_obj)) = some (ok (calculator.digest crc_obj))

  -- `calc_for_file`
  unfoldable pub calc_for_file :
      ℕ → ChecksumType → String → ℕ → ℕ → CacheStore → Option (Result CfdpError (List ℕ))
  calc_for_file fuel null_checksum file file_sz segment_len s =
      some (ok calculator.null_checksum_u32)
  calc_for_file fuel modular file file_sz segment_len s = calc_modular_checksum fuel file s
  calc_for_file fuel crc file file_sz segment_len s = elim (segment_len == 0) [
    | true ↦ some (err segment_length_zero)
    | false ↦ elim (file_exists file s) [
      | false ↦ some (err source_file_does_not_exist)
      | true ↦ digested (crc_from fuel file 0 file_sz segment_len calculator.fresh s)
    ]
  ]
