-- ===== src/Protocols/CacheStore/Steps.antt =====
-- The cache keeps its list and its directory in step, and works as the filestore is specified.
use mathlib.Core.Path.{fun_ext}
use oresat_c3_software.Prelude.{
  ℕ, String, str_eq, eq_iff, List, [], ◌∷◌, Bool, true, false, ◌||◌, ◌≡◌, refl, sym, ap, subst, ◌∙◌,
  inl, inr, arith, Bool-cases, ◌⊎◌, Option, none, some, Option-cases, length, lookup, insert, erase,
  contains, remove, str_eq_sym, lookup-insert, lookup-erase, Nodup, contains-remove, remove-Nodup,
}
use oresat_c3_software.Protocols.CacheStore.{
  CacheStore, FileNames, insort_left, read_data, stat, truncate_file, write_data, create_file,
  delete_file, rename_file, replace_file, write_at, put, create_not_allowed, create_success,
  delete_success, delete_file_does_not_exist, rename_success, rename_not_performed,
  rename_old_file_does_not_exist, replace_success,
  replace_file_name_one_to_be_replaced_does_not_exist,
  replace_file_name_two_replace_source_not_exist, or_zero, read_from_opened_file,
}
use oresat_c3_software.Protocols.CacheStore.Spec.{
  contents, bytes_long, done, not_found, result, Op, read, size, truncate, create, delete, write,
  rename, replace, Answer, Files, update, spec, step, IsFair,
}

abbrev pub is_some : Option (List ℕ) → Bool
is_some none = false
is_some (some raw) = true

-- Each file of the directory is in the list once, and each of the list is in the directory.
pub record IsInStep (s : CacheStore) : Type 0 where
  pub nodup : Nodup s.data'
  pub same : (name : String) → contains s.data' name ≡ is_some (lookup name s.disk)

abbrev pub view : CacheStore → Files
view s name = lookup name s.disk

module _ (names : FileNames) where
  pub contains-insort_left :
      (x j : String) (xs : List String)
      → contains (insort_left names x xs) j ≡ (str_eq x j || contains xs j)
  unfolding contains insort_left
  contains-insort_left x j [] = refl
  contains-insort_left x j (y ∷ ys) = ground (arith, contains-insort_left x j ys)

  insort_left-Nodup :
      (x : String) (xs : List String)
      → contains xs x ≡ false
      → Nodup xs
      → Nodup (insort_left names x xs)
  unfolding contains insort_left
  insort_left-Nodup x [] h d = (refl, tt)
  insort_left-Nodup x (y ∷ ys) h d =
      ground (arith, insort_left-Nodup x ys, contains-insort_left x y ys, str_eq_sym x y)

  -- What a call has done as it should.
  pub record Refines (op : Op) (s : CacheStore) : Type 0 where
    pub in_step : IsInStep (step names op s).1
    pub answers : (step names op s).0 ≡ (spec names op (view s)).0
    pub becomes : view (step names op s).1 ≡ (spec names op (view s)).1

-- A file is in both or in none.
pub presence :
    (s : CacheStore)
    → IsInStep s
    → (name : String)
    → ((lookup name s.disk ≡ none) × (contains s.data' name ≡ false))
      ⊎ ((raw : List ℕ) × ((lookup name s.disk ≡ some raw) × (contains s.data' name ≡ true)))
presence s i name = elim (Option-cases (lookup name s.disk)) [
  | inl gone ↦ inl (gone, i.same name ∙ ap is_some gone)
  | inr (raw, there) ↦ inr (raw, (there, i.same name ∙ ap is_some there))
]

module _ (names : FileNames) (s : CacheStore) (i : IsInStep s) where
  -- From what the class and the filestore each come to.
  met :
      (op : Op) (a : Answer) (t : CacheStore) (g : Files)
      → step names op s ≡ (a, t)
      → spec names op (view s) ≡ (a, g)
      → IsInStep t
      → view t ≡ g
      → Refines names op s
  met op a t g done' wanted kept same = record {
    in_step = subst (λ (r : Answer × CacheStore). IsInStep r.1) (sym done') kept;
    answers =
        ap (λ (r : Answer × CacheStore). r.0) done' ∙ sym (ap (λ (r : Answer × Files). r.0) wanted);
    becomes =
        ap (λ (r : Answer × CacheStore). view r.1) done'
        ∙ (same ∙ sym (ap (λ (r : Answer × Files). r.1) wanted));
  }

  unchanged :
      (op : Op) (a : Answer)
      → step names op s ≡ (a, s)
      → spec names op (view s) ≡ (a, view s)
      → Refines names op s
  unchanged op a done' wanted = met op a s (view s) done' wanted i refl

  read-Refines :
      (file : String) (offset read_len : Option ℕ) → Refines names (read file offset read_len) s
  unfolding step read_data
  read-Refines file offset read_len = elim (presence s i file) [
    | inl (gone, out) ↦
        unchanged (read file offset read_len) not_found (ground arith) (ground arith)
    | inr (raw, (there, inside)) ↦
        unchanged (read file offset read_len)
          (contents (read_from_opened_file raw (or_zero offset) read_len)) (ground arith)
          (ground arith)
  ]

  size-Refines : (file : String) → Refines names (size file) s
  unfolding step stat
  size-Refines file = elim (presence s i file) [
    | inl (gone, out) ↦ unchanged (size file) not_found (ground arith) (ground arith)
    | inr (raw, (there, inside)) ↦
        unchanged (size file) (bytes_long (length raw)) (ground arith) (ground arith)
  ]

  pub put-IsInStep :
      (file : String) (raw : List ℕ) → contains s.data' file ≡ true → IsInStep (put file raw s)
  put-IsInStep file raw inside = record {
    nodup = i.nodup;
    same =
        λ name. ground (arith, i.same name, lookup-insert name file raw s.disk, eq_iff file name);
  }

  view-put :
      (file : String) (raw : List ℕ) → view (put file raw s) ≡ update file (some raw) (view s)
  view-put file raw = fun_ext (λ name. lookup-insert name file raw s.disk)

  truncate-Refines : (file : String) → Refines names (truncate file) s
  unfolding step truncate_file
  truncate-Refines file = elim (presence s i file) [
    | inl (gone, out) ↦ unchanged (truncate file) not_found (ground arith) (ground arith)
    | inr (raw, (there, inside)) ↦
        met (truncate file) done (put file [] s) (update file (some []) (view s)) (ground arith)
          (ground arith) (put-IsInStep file [] inside) (view-put file [])
  ]

  write-Refines :
      (file : String) (bytes : List ℕ) (offset : Option ℕ)
      → Refines names (write file bytes offset) s
  unfolding step write_data
  write-Refines file bytes offset = elim (presence s i file) [
    | inl (gone, out) ↦ unchanged (write file bytes offset) not_found (ground arith) (ground arith)
    | inr (raw, (there, inside)) ↦
        met (write file bytes offset) done (put file (write_at (or_zero offset) bytes raw) s)
          (update file (some (write_at (or_zero offset) bytes raw)) (view s)) (ground arith)
          (ground arith) (put-IsInStep file (write_at (or_zero offset) bytes raw) inside)
          (view-put file (write_at (or_zero offset) bytes raw))
  ]

  pub put_new-IsInStep :
      (file : String) (raw : List ℕ)
      → contains s.data' file ≡ false
      → IsInStep (record { data' = insort_left names file s.data'; disk = insert file raw s.disk })
  put_new-IsInStep file raw out = record {
    nodup = insort_left-Nodup names file s.data' out i.nodup;
    same = λ name. ground (
      arith,
      i.same name,
      lookup-insert name file raw s.disk,
      contains-insort_left names file name s.data',
    );
  }

  create-Refines : (file : String) → Refines names (create file) s
  unfolding step create_file
  create-Refines file = elim (presence s i file) [
    | inr (raw, (there, inside)) ↦
        unchanged (create file) (result create_not_allowed) (ground arith) (ground arith)
    | inl (gone, out) ↦ elim (Bool-cases (names.is_valid file)) [
      | inr wrong ↦
          unchanged (create file) (result create_not_allowed) (ground arith) (ground arith)
      | inl valid ↦
          met (create file) (result create_success)
            (record { data' = insort_left names file s.data'; disk = insert file [] s.disk })
            (update file (some []) (view s)) (ground arith) (ground arith)
            (put_new-IsInStep file [] out) (fun_ext (λ name. lookup-insert name file [] s.disk))
    ]
  ]

  delete-Refines : (file : String) → Refines names (delete file) s
  unfolding step delete_file
  delete-Refines file = elim (presence s i file) [
    | inl (gone, out) ↦
        unchanged (delete file) (result delete_file_does_not_exist) (ground arith) (ground arith)
    | inr (raw, (there, inside)) ↦
        met (delete file) (result delete_success)
          (record { data' = remove file s.data'; disk = erase file s.disk })
          (update file none (view s)) (ground arith) (ground arith)
          (record {
            nodup = remove-Nodup file s.data' i.nodup;
            same = λ name. ground (
              arith,
              i.same name,
              lookup-erase name file s.disk,
              contains-remove file name s.data' i.nodup,
            );
          })
          (fun_ext (λ name. lookup-erase name file s.disk))
  ]

  lookup_moved :
      (old new name : String) (raw : List ℕ)
      → lookup name (insert new raw (erase old s.disk))
        ≡ update new (some raw) (update old none (view s)) name
  lookup_moved old new name raw =
      ground (arith, lookup-insert name new raw (erase old s.disk), lookup-erase name old s.disk)

  rename-Refines :
      (old new : String) → IsFair (rename old new) (view s) → Refines names (rename old new) s
  unfolding step rename_file
  rename-Refines old new fair = elim (presence s i old) [
    | inl (gone, out) ↦
        unchanged (rename old new) (result rename_old_file_does_not_exist) (ground arith)
          (ground arith)
    | inr (raw, (there, inside)) ↦ elim (Bool-cases (names.is_valid new)) [
      | inr wrong ↦
          unchanged (rename old new) (result rename_not_performed) (ground arith) (ground arith)
      | inl valid ↦
          met (rename old new) (result rename_success)
            (record {
              data' = insort_left names new (remove old s.data');
              disk = insert new raw (erase old s.disk);
            })
            (update new (some raw) (update old none (view s))) (ground arith) (ground arith)
            (record {
              nodup =
                  insort_left-Nodup names new (remove old s.data')
                    (ground (arith, contains-remove old new s.data' i.nodup, i.same new))
                    (remove-Nodup old s.data' i.nodup);
              same = λ name. ground (
                arith,
                i.same name,
                lookup_moved old new name raw,
                contains-remove old name s.data' i.nodup,
                contains-insort_left names new name (remove old s.data'),
              );
            })
            (fun_ext (λ name. lookup_moved old new name raw))
    ]
  ]

  replace-Refines :
      (replaced source : String)
      → IsFair (replace replaced source) (view s)
      → Refines names (replace replaced source) s
  unfolding step replace_file
  replace-Refines replaced source fair = elim (presence s i replaced) [
    | inl (gone, out) ↦
        unchanged (replace replaced source)
          (result replace_file_name_one_to_be_replaced_does_not_exist) (ground arith) (ground arith)
    | inr (kept, (there, inside)) ↦ elim (presence s i source) [
      | inl (gone, out) ↦
          unchanged (replace replaced source)
            (result replace_file_name_two_replace_source_not_exist) (ground arith) (ground arith)
      | inr (raw, (found, listed)) ↦
          met (replace replaced source) (result replace_success)
            (record {
              data' = remove source s.data';
              disk = insert replaced raw (erase source s.disk);
            })
            (update replaced (some raw) (update source none (view s))) (ground arith) (ground arith)
            (record {
              nodup = remove-Nodup source s.data' i.nodup;
              same = λ name. ground (
                arith,
                i.same name,
                lookup_moved source replaced name raw,
                contains-remove source name s.data' i.nodup,
                eq_iff replaced name,
                eq_iff source name,
                eq_iff source replaced,
              );
            })
            (fun_ext (λ name. lookup_moved source replaced name raw))
    ]
  ]

-- A fair call on a cache in step.
pub step-Refines :
    (names : FileNames) (op : Op) (s : CacheStore)
    → IsInStep s
    → IsFair op (view s)
    → Refines names op s
step-Refines names (read file offset read_len) s i fair =
    read-Refines names s i file offset read_len
step-Refines names (size file) s i fair = size-Refines names s i file
step-Refines names (truncate file) s i fair = truncate-Refines names s i file
step-Refines names (write file bytes offset) s i fair = write-Refines names s i file bytes offset
step-Refines names (create file) s i fair = create-Refines names s i file
step-Refines names (delete file) s i fair = delete-Refines names s i file
step-Refines names (rename old new) s i fair = rename-Refines names s i old new fair
step-Refines names (replace replaced source) s i fair =
    replace-Refines names s i replaced source fair
