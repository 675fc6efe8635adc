-- ===== src/Protocols/CacheStore/Runs.antt =====
-- A run of calls on the cache is the run of the filestore's functions, and where it is not.
use oresat_c3_software.Prelude.{
  String, str_eq, str_eq_self, str_eq_sym, eq_iff, List, [], ◌∷◌, true, false, ◌≡◌, refl, sym, ap,
  ap₂, subst, ◌∙◌, inl, inr, Bool-cases, arith, lookup, insert, erase, contains, remove,
  lookup-insert, contains-remove, Nodup,
}
use oresat_c3_software.Protocols.CacheStore.{
  CacheStore, FileNames, rename_success, replace_success, insort_left, rename_file, replace_file,
}
use oresat_c3_software.Protocols.CacheStore.Spec.{
  Op, read, size, truncate, create, delete, write, rename, replace, result, Answer, Files, spec,
  step, IsFair,
}
use oresat_c3_software.Protocols.CacheStore.Steps.{
  presence, IsInStep, view, is_some, step-Refines, contains-insort_left,
}

module _ (names : FileNames) where
  abbrev pub run : List Op → CacheStore → List Answer × CacheStore
  run [] s = ([], s)
  run (op ∷ ops) s = let r = step names op s in let rest = run ops r.1 in (r.0 ∷ rest.0, rest.1)

  abbrev pub replay : List Op → Files → List Answer × Files
  replay [] f = ([], f)
  replay (op ∷ ops) f =
      let r = spec names op f in let rest = replay ops r.1 in (r.0 ∷ rest.0, rest.1)

  -- Each call is fair on the files that it finds.
  abbrev pub AllFair : List Op → Files → Type 0
  AllFair [] f = Unit
  AllFair (op ∷ ops) f = IsFair op f × AllFair ops (spec names op f).1

  -- What a run has done as it should.
  pub record IsReplayed (ops : List Op) (s : CacheStore) : Type 0 where
    pub kept : IsInStep (run ops s).1
    pub answers_same : (run ops s).0 ≡ (replay ops (view s)).0
    pub files_same : view (run ops s).1 ≡ (replay ops (view s)).1

  -- From a cache whose list and directory are in step, a run of calls answers as the calls on the
  -- function from names to bytes do, leaves the files that they leave, and leaves the list and the
  -- directory in step, if no file is renamed to one that is there and none is replaced by itself.
  pub run_refines :
      (ops : List Op) (s : CacheStore) → IsInStep s → AllFair ops (view s) → IsReplayed ops s
  run_refines [] s i fair = record { kept = i; answers_same = refl; files_same = refl }
  run_refines (op ∷ ops) s i fair =
      let once = step-Refines names op s i fair.0 in
      let rest =
        run_refines ops (step names op s).1 once.in_step
          (subst (AllFair ops) (sym once.becomes) fair.1) in
      record {
        kept = rest.kept;
        answers_same =
            ap₂ (λ a rest'. a ∷ rest') once.answers
              (rest.answers_same ∙ ap (λ f. (replay ops f).0) once.becomes);
        files_same = rest.files_same ∙ ap (λ f. (replay ops f).1) once.becomes;
      }

  pub insort_left_twice :
      (x : String) (xs : List String) → contains xs x ≡ true → ¬ Nodup (insort_left names x xs)
  unfolding contains insort_left
  insort_left_twice x [] h d = ground arith
  insort_left_twice x (y ∷ ys) h d = elim (Bool-cases (names.before y x)) [
    | inl below ↦
        ground (arith, insort_left_twice x ys, contains-insort_left names x y ys, str_eq_sym x y)
    | inr above ↦ ground arith
  ]

  -- A rename onto a file that is there, and a replacement of a file by itself.
  abbrev pub IsUnfair : Op → CacheStore → Type 0
  IsUnfair (rename old new) s =
      (names.is_valid new ≡ true)
      × ((str_eq old new ≡ false) × ((contains s.data' old ≡ true) × (contains s.data' new ≡ true)))
  IsUnfair (replace replaced source) s =
      (str_eq source replaced ≡ true) × (contains s.data' source ≡ true)
  IsUnfair _ s = ⊥

  renamed_over-IsInStep :
      (old new : String) (s : CacheStore)
      → IsInStep s
      → IsUnfair (rename old new) s
      → ¬ IsInStep (step names (rename old new) s).1
  unfolding step rename_file
  renamed_over-IsInStep old new s i (valid, (apart, (from, onto))) after = elim (presence s i old) [
    | inl (gone, out) ↦ ground arith
    | inr (raw, (there, inside)) ↦
        let went : step names (rename old new) s ≡ (
          result rename_success,
          record {
            data' = insort_left names new (remove old s.data');
            disk = insert new raw (erase old s.disk);
          },
        ) =
          ground arith in
        insort_left_twice new (remove old s.data')
          (ground (arith, contains-remove old new s.data' i.nodup))
          (subst (λ (r : Answer × CacheStore). Nodup r.1.data') went after.nodup)
  ]

  replaced_itself-IsInStep :
      (replaced source : String) (s : CacheStore)
      → IsInStep s
      → IsUnfair (replace replaced source) s
      → ¬ IsInStep (step names (replace replaced source) s).1
  unfolding step replace_file
  replaced_itself-IsInStep replaced source s i (same, inside) after = elim (presence s i source) [
    | inl (gone, out) ↦ ground arith
    | inr (raw, (there, found)) ↦
        let went : step names (replace replaced source) s ≡ (
          result replace_success,
          record {
            data' = remove source s.data';
            disk = insert replaced raw (erase source s.disk);
          },
        ) =
          ground (arith, eq_iff source replaced) in
        ground (
          arith,
          ap (λ (r : Answer × CacheStore). contains r.1.data' source) went,
          ap (λ (r : Answer × CacheStore). is_some (lookup source r.1.disk)) went,
          after.same source,
          contains-remove source source s.data' i.nodup,
          lookup-insert source replaced raw (erase source s.disk),
          eq_iff source replaced,
          str_eq_self source,
        )
  ]

  -- A rename onto another file that is there, by a name that is valid, and a replacement of a file
  -- by itself leave the list and the directory out of step.
  pub unfair-IsInStep :
      (op : Op) (s : CacheStore) → IsInStep s → IsUnfair op s → ¬ IsInStep (step names op s).1
  unfair-IsInStep (rename old new) s i u after = renamed_over-IsInStep old new s i u after
  unfair-IsInStep (replace replaced source) s i u after =
      replaced_itself-IsInStep replaced source s i u after
  unfair-IsInStep (read _ _ _) s i u after = absurd u
  unfair-IsInStep (size _) s i u after = absurd u
  unfair-IsInStep (truncate _) s i u after = absurd u
  unfair-IsInStep (create _) s i u after = absurd u
  unfair-IsInStep (delete _) s i u after = absurd u
  unfair-IsInStep (write _ _ _) s i u after = absurd u
