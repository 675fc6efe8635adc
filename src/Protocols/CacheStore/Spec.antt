-- ===== src/Protocols/CacheStore/Spec.antt =====
-- What the filestore promises: calls on a function from names to bytes.
use oresat_c3_software.Prelude.{
  ℕ, String, str_eq, List, [], false, Option, none, some, if◌then◌else◌, length, Result, ok, err,
  ◌≡◌,
}
use oresat_c3_software.Protocols.CacheStore.{
  CacheStore, FileNames, FilestoreResult, create_success, create_not_allowed, delete_success,
  delete_file_does_not_exist, rename_success, rename_not_performed, rename_old_file_does_not_exist,
  replace_success, replace_file_name_one_to_be_replaced_does_not_exist,
  replace_file_name_two_replace_source_not_exist, StoreError, read_from_opened_file, write_at,
  or_zero, read_data, stat, truncate_file, write_data, create_file, delete_file, rename_file,
  replace_file,
}

-- A call of the filestore that does not list a directory.
pub data Op : Type 0 where
  read : (file : String) (offset read_len : Option ℕ) → Op
  size : (file : String) → Op
  truncate create delete : (file : String) → Op
  write : (file : String) (bytes : List ℕ) (offset : Option ℕ) → Op
  rename : (old new : String) → Op
  replace : (replaced source : String) → Op

-- What a call answers.
pub data Answer : Type 0 where
  contents : List ℕ → Answer
  bytes_long : ℕ → Answer
  done not_found : Answer
  result : FilestoreResult → Answer

abbrev pub answer_of :
    {A : Type 0} → (A → Answer) → Result StoreError A × CacheStore → Answer × CacheStore
answer_of f (ok a, s) = (f a, s)
answer_of f (err e, s) = (not_found, s)

abbrev pub Files : Type 0
Files = String → Option (List ℕ)

abbrev pub update : String → Option (List ℕ) → Files → Files
update name value f j = if str_eq name j then value else f j

-- A call on a file that has to be there.
abbrev pub with_file : Option (List ℕ) → Files → (List ℕ → Answer × Files) → Answer × Files
with_file none f act = (not_found, f)
with_file (some raw) f act = act raw

-- A replacement, by the two files.
abbrev pub replaced_by :
    String → String → Option (List ℕ) → Option (List ℕ) → Files → Answer × Files
replaced_by replaced source none moved f =
    (result replace_file_name_one_to_be_replaced_does_not_exist, f)
replaced_by replaced source (some raw) none f =
    (result replace_file_name_two_replace_source_not_exist, f)
replaced_by replaced source (some raw) (some moved) f =
    (result replace_success, update replaced (some moved) (update source none f))

module _ (names : FileNames) where
  abbrev pub created : String → Option (List ℕ) → Files → Answer × Files
  created file none f =
      if names.is_valid file
      then (result create_success, update file (some []) f)
      else (result create_not_allowed, f)
  created file (some raw) f = (result create_not_allowed, f)

  abbrev pub renamed : String → String → Option (List ℕ) → Files → Answer × Files
  renamed old new none f = (result rename_old_file_does_not_exist, f)
  renamed old new (some raw) f =
      if names.is_valid new
      then (result rename_success, update new (some raw) (update old none f))
      else (result rename_not_performed, f)

  abbrev pub deleted : String → Option (List ℕ) → Files → Answer × Files
  deleted file none f = (result delete_file_does_not_exist, f)
  deleted file (some raw) f = (result delete_success, update file none f)

  abbrev pub spec : Op → Files → Answer × Files
  spec (read file offset read_len) f =
      with_file (f file) f
        (λ raw. (contents (read_from_opened_file raw (or_zero offset) read_len), f))
  spec (size file) f = with_file (f file) f (λ raw. (bytes_long (length raw), f))
  spec (truncate file) f = with_file (f file) f (λ raw. (done, update file (some []) f))
  spec (write file bytes offset) f =
      with_file (f file) f
        (λ raw. (done, update file (some (write_at (or_zero offset) bytes raw)) f))
  spec (create file) f = created file (f file) f
  spec (delete file) f = deleted file (f file) f
  spec (rename old new) f = renamed old new (f old) f
  spec (replace replaced source) f = replaced_by replaced source (f replaced) (f source) f

  -- The same call of the class.
  unfoldable pub step : Op → CacheStore → Answer × CacheStore
  step (read file offset read_len) s = answer_of contents (read_data file offset read_len s)
  step (size file) s = answer_of bytes_long (stat file s)
  step (truncate file) s = answer_of (λ _. done) (truncate_file file s)
  step (write file bytes offset) s = answer_of (λ _. done) (write_data file bytes offset s)
  step (create file) s = answer_of result (create_file names file s)
  step (delete file) s = answer_of result (delete_file file s)
  step (rename old new) s = answer_of result (rename_file names old new s)
  step (replace replaced source) s = answer_of result (replace_file replaced source s)

-- A file is not renamed to one that is there, nor replaced by itself.
abbrev pub IsFair : Op → Files → Type 0
IsFair (rename old new) f = f new ≡ none
IsFair (replace replaced source) f = str_eq source replaced ≡ false
IsFair _ f = Unit
