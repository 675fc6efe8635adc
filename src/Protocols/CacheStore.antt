-- ===== src/Protocols/CacheStore.antt =====
-- oresat_c3/protocols/cachestore.py: olaf's file cache as the filestore of a CFDP transfer. A path
-- is its base name, as the class assumes. The cache keeps the sorted list of its files, and the
-- files themselves lie in its directory. Two files of the cache are equal when their names are.
pub mod Spec
pub mod Steps
pub mod Runs
pub mod Listing
pub mod Segments
pub mod Upload
mod Tests
use oresat_c3_software.Prelude.{
  ℕ, ◌+◌, ◌-◌, String, str_eq, List, [], ◌∷◌, ◌++◌, Bool, true, false, not, ◌&&◌, ◌||◌, Option,
  none, some, if◌then◌else◌, length, take, drop, replicate, Result, ok, err, Exec, lookup, insert,
  erase, contains, remove,
}

-- The class OreSatFile of olaf: which names its constructor takes, and its `<`.
pub record FileNames : Type 0 where
  pub is_valid : String → Bool
  pub before : String → String → Bool

pub record CacheStore : Type 0 where
  pub data' : List String
  pub disk : List (String × List ℕ)

-- The members of `FilestoreResult` that the class answers.
pub data FilestoreResult : Type 0 where
  create_success create_not_allowed delete_success delete_file_does_not_exist rename_success
        rename_not_performed rename_old_file_does_not_exist replace_success
        replace_file_name_one_to_be_replaced_does_not_exist
        replace_file_name_two_replace_source_not_exist not_performed success :
      FilestoreResult

-- `FileNotFoundError`, of the class or of the system.
pub data StoreError : Type 0 where
  file_not_found : StoreError

abbrev pub Method : Type 0 → Type 0
Method A = Exec StoreError CacheStore A

-- `seek(offset)` and `read(read_len)`; `None` reads all that is left.
abbrev pub read_len_of : Option ℕ → List ℕ → List ℕ
read_len_of none raw = raw
read_len_of (some n) raw = take n raw

abbrev pub or_zero : Option ℕ → ℕ
or_zero none = 0
or_zero (some n) = n

-- `read_from_opened_file`, by the bytes of the file.
unfoldable pub read_from_opened_file : List ℕ → ℕ → Option ℕ → List ℕ
read_from_opened_file raw offset read_len = read_len_of read_len (drop offset raw)

-- The first bytes of a file, with zeros behind its end.
abbrev pub padded : ℕ → List ℕ → List ℕ
padded offset raw = take offset raw ++ replicate (offset - length raw) 0

-- `seek(offset)` and `write(data)`: a gap behind the end is filled with zeros, but not for nothing.
unfoldable pub write_at : ℕ → List ℕ → List ℕ → List ℕ
write_at offset [] raw = raw
write_at offset (b ∷ bytes) raw =
    padded offset raw ++ ((b ∷ bytes) ++ drop (offset + length (b ∷ bytes)) raw)

-- A file that is opened has to be in the list and in the directory.
abbrev pub on_opened : {A : Type 0} → Option (List ℕ) → (List ℕ → Method A) → Method A
on_opened none act s = (err file_not_found, s)
on_opened (some raw) act s = act raw s

abbrev pub opened : {A : Type 0} → String → (List ℕ → Method A) → Method A
opened file act s = elim (contains s.data' file) [
  | true ↦ on_opened (lookup file s.disk) act s
  | false ↦ (err file_not_found, s)
]

abbrev pub put : String → List ℕ → CacheStore → CacheStore
put file raw s = record s { disk = insert file raw s.disk }

-- `read_data`
unfoldable pub read_data : String → Option ℕ → Option ℕ → Method (List ℕ)
read_data file offset read_len =
    opened file (λ raw s. (ok (read_from_opened_file raw (or_zero offset) read_len), s))

-- `file_exists`
unfoldable pub file_exists : String → CacheStore → Bool
file_exists file s = contains s.data' file

-- `stat`, of which the size is used.
unfoldable pub stat : String → Method ℕ
stat file = opened file (λ raw s. (ok (length raw), s))

-- `truncate_file`; the open for writing makes the file where it is missing.
unfoldable pub truncate_file : String → Method (Unit {0})
truncate_file file s = elim (contains s.data' file) [
  | true ↦ (ok tt, put file [] s)
  | false ↦ (err file_not_found, s)
]

-- `write_data`
unfoldable pub write_data : String → List ℕ → Option ℕ → Method (Unit {0})
write_data file bytes offset =
    opened file (λ raw s. (ok tt, put file (write_at (or_zero offset) bytes raw) s))

-- `is_directory`, `create_directory` and `remove_directory`
abbrev pub is_directory : String → Bool
is_directory path = false

abbrev pub create_directory : String → FilestoreResult
create_directory dir_name = not_performed

abbrev pub remove_directory : String → Bool → FilestoreResult
remove_directory dir_name recursive = not_performed

-- `new.touch()`
abbrev pub touch : Option (List ℕ) → String → List (String × List ℕ) → List (String × List ℕ)
touch none file disk = insert file [] disk
touch (some raw) file disk = disk

-- `delete_file`
unfoldable pub delete_file : String → Method FilestoreResult
delete_file file s = elim (contains s.data' file) [
  | false ↦ (ok delete_file_does_not_exist, s)
  | true ↦
      on_opened (lookup file s.disk)
        (λ raw t.
          (ok delete_success, record { data' = remove file t.data'; disk = erase file t.disk }))
        s
]

-- The move of a file in the directory, over another one where there is one.
abbrev pub move : String → String → List ℕ → CacheStore → CacheStore
move old new raw s = record s { disk = insert new raw (erase old s.disk) }

-- `replace_file`
unfoldable pub replace_file : String → String → Method FilestoreResult
replace_file replaced source s = elim (contains s.data' replaced) [
  | false ↦ (ok replace_file_name_one_to_be_replaced_does_not_exist, s)
  | true ↦ elim (contains s.data' source) [
    | false ↦ (ok replace_file_name_two_replace_source_not_exist, s)
    | true ↦
        on_opened (lookup source s.disk) (λ raw t. (ok replace_success, move source replaced raw t))
          (record s { data' = remove source s.data' })
  ]
]

-- What is written to the file of a listing.
abbrev pub join_lines : List (List ℕ) → List ℕ
join_lines [] = []
join_lines (line ∷ lines) = line ++ (10 ∷ join_lines lines)

module _ (names : FileNames) where
  -- `insort_left`, on a sorted list.
  unfoldable pub insort_left : String → List String → List String
  insort_left x [] = x ∷ []
  insort_left x (y ∷ ys) = elim (names.before y x) [
    | true ↦ y ∷ insort_left x ys
    | false ↦ x ∷ (y ∷ ys)
  ]

  -- `create_file`
  unfoldable pub create_file : String → Method FilestoreResult
  create_file file s = elim (names.is_valid file && not (contains s.data' file)) [
    | false ↦ (ok create_not_allowed, s)
    | true ↦ (
      ok create_success,
      record { data' = insort_left file s.data'; disk = touch (lookup file s.disk) file s.disk },
    )
  ]

  abbrev pub renamed : String → String → List ℕ → Method FilestoreResult
  renamed old new raw s =
      let t = move old new raw s in
      (ok rename_success, record t { data' = insort_left new t.data' })

  -- `rename_file`
  unfoldable pub rename_file : String → String → Method FilestoreResult
  rename_file old new s = elim (contains s.data' old) [
    | false ↦ (ok rename_old_file_does_not_exist, s)
    | true ↦ elim (names.is_valid new) [
      | false ↦ (ok rename_not_performed, s)
      | true ↦
          on_opened (lookup old s.disk) (renamed old new) (record s { data' = remove old s.data' })
    ]
  ]

  -- `list_directory`; `listing` says which lines the system lists of the directory.
  unfoldable pub list_directory :
      (Bool → List (String × List ℕ) → List (List ℕ)) → String → Bool → Method FilestoreResult
  list_directory listing file recursive s = elim (names.is_valid file) [
    | false ↦ (ok not_performed, s)
    | true ↦
        let t : CacheStore = record {
          data' = insort_left file s.data';
          disk = insert file [] s.disk;
        } in
        (ok success, put file (join_lines (listing recursive t.disk)) t)
  ]
