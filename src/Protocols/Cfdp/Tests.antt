-- ===== src/Protocols/Cfdp/Tests.antt =====
-- The checksums and the transfer at a small file.
use oresat_c3_software.Prelude.{
  ℕ, ◌%◌, ◌<◌, zero, suc, List, [], ◌∷◌, ◌++◌, true, false, ◌≡◌, refl, arith, inl, inr, some, ok,
  err, length, take, lookup, contains,
}
use mathlib.Core.List.{append_assoc, append-nil}
use oresat_c3_software.Protocols.CacheStore.{CacheStore}
use oresat_c3_software.Protocols.CacheStore.Upload.{Segment, Covered}
use oresat_c3_software.Protocols.Cfdp.{
  Calculator, crc, calc_modular_checksum, calc_for_file, source_file_does_not_exist, pack_u32,
}
use oresat_c3_software.Protocols.Cfdp.Handlers.{FileData, Source}
use oresat_c3_software.Protocols.Cfdp.Modular.{octets, calc_modular_checksum_lem}
use oresat_c3_software.Protocols.Cfdp.Segmented.{IsIncremental, calc_for_file_lem}
use oresat_c3_software.Protocols.Cfdp.Transfer.{send, receive, transfer_lem}

abbrev content : List ℕ
content = 1 ∷ 2 ∷ 3 ∷ 4 ∷ 5 ∷ []

abbrev store : CacheStore
store = record { data' = "a" ∷ "b" ∷ []; disk = ("a", content) ∷ ("b", 9 ∷ []) ∷ [] }

store_has_a : contains store.data' "a" ≡ true
unfolding contains
store_has_a = refl

store_of_a : lookup "a" store.disk ≡ some content
unfolding lookup
store_of_a = refl

store_has_b : contains store.data' "b" ≡ true
unfolding contains
store_has_b = refl

store_of_b : lookup "b" store.disk ≡ some (9 ∷ [])
unfolding lookup
store_of_b = refl

calc_modular_checksum_lem_example :
    calc_modular_checksum 3 "a" store ≡ some (ok (pack_u32 (octets 0 content % 4294967296)))
calc_modular_checksum_lem_example =
    calc_modular_checksum_lem store "a" content store_has_a store_of_a 3 (omega arith)

-- 0x01020304 and 0x05000000
modular_checksum : calc_modular_checksum 3 "a" store ≡ some (ok (6 ∷ 2 ∷ 3 ∷ 4 ∷ []))
modular_checksum =
    calc_modular_checksum_lem store "a" content store_has_a store_of_a 3 (omega arith)

-- A calculator that keeps the string.
abbrev keeper : Calculator
keeper = record {
  Crc = List ℕ;
  fresh = [];
  update = λ raw c. c ++ raw;
  digest = λ c. c;
  null_checksum_u32 = [];
}

keeper-IsIncremental : IsIncremental keeper
keeper-IsIncremental = record {
  nothing = λ c. append-nil c;
  in_parts = λ xs ys c. append_assoc c xs ys;
}

calc_for_file_lem_example :
    ((contains store.data' "a" ≡ false)
      → calc_for_file keeper 6 crc "a" 5 2 store ≡ some (err source_file_does_not_exist))
    × ((raw : List ℕ)
        → contains store.data' "a" ≡ true
        → lookup "a" store.disk ≡ some raw
        → calc_for_file keeper 6 crc "a" 5 2 store
          ≡ some (ok (keeper.digest (keeper.update (take 5 raw) keeper.fresh))))
calc_for_file_lem_example =
    calc_for_file_lem keeper store "a" 5 2 6 keeper-IsIncremental (omega arith) (omega arith)

abbrev source_handler : Source
source_handler = record {
  put_req = some (record { metadata_only = false; source_file = some "a" });
  metadata_only = false;
  no_eof = false;
  file_size = 5;
  packets = [];
}

-- The second segment comes first, and the first one twice.
abbrev segments : List Segment
segments =
    record { start = 3; size = 3 }
    ∷ record { start = 0; size = 3 }
    ∷ record { start = 0; size = 3 }
    ∷ []

segments-Covered : (j : ℕ) → j < length content → Covered content segments j
segments-Covered zero h = inr (inl (omega arith, omega arith))
segments-Covered (suc zero) h = inr (inl (omega arith, omega arith))
segments-Covered (suc (suc zero)) h = inr (inl (omega arith, omega arith))
segments-Covered (suc (suc (suc j))) h = inl (omega arith, omega arith)

transfer_lem_example :
    (pdus : List FileData) × (send segments store source_handler
      ≡ (ok tt, record source_handler { packets = [] ++ pdus }))
    × ((receive "b" pdus store).0 ≡ ok tt)
    × (lookup "b" (receive "b" pdus store).1.disk ≡ some content)
transfer_lem_example =
    transfer_lem content store "a" segments source_handler
      (record { metadata_only = false; source_file = some "a" }) "b" (9 ∷ []) store refl refl
      store_has_a store_of_a store_has_b store_of_b (omega arith) segments-Covered
