-- ===== src/Protocols/CacheStore/Tests.antt =====
-- The filestore at a small run.
use oresat_c3_software.Prelude.{
  List, [], ◌∷◌, true, false, refl, arith, none, some, contains, lookup,
}
use oresat_c3_software.Protocols.CacheStore.{CacheStore, FileNames}
use oresat_c3_software.Protocols.CacheStore.Spec.{Op, read, write, create, rename, delete, step}
use oresat_c3_software.Protocols.CacheStore.Steps.{IsInStep}
use oresat_c3_software.Protocols.CacheStore.Runs.{IsReplayed, run_refines, unfair-IsInStep}

-- Every name is valid, and each goes in front of the others.
abbrev any_name : FileNames
any_name = record { is_valid = λ name. true; before = λ x y. false }

abbrev empty_cache : CacheStore
empty_cache = record { data' = []; disk = [] }

empty_cache-IsInStep : IsInStep empty_cache
unfolding contains lookup
empty_cache-IsInStep = record { nodup = tt; same = λ name. refl }

abbrev upload : List Op
upload =
    create "a"
    ∷ write "a" (1 ∷ 2 ∷ []) none
    ∷ write "a" (7 ∷ []) (some 1)
    ∷ rename "a" "b"
    ∷ read "b" none none
    ∷ delete "a"
    ∷ []

run_refines_example : IsReplayed any_name upload empty_cache
unfolding lookup
run_refines_example =
    run_refines any_name upload empty_cache empty_cache-IsInStep
      (tt, (tt, (tt, (refl, (tt, (tt, tt))))))

abbrev two_files : CacheStore
two_files = record { data' = "a" ∷ "b" ∷ []; disk = ("a", 1 ∷ []) ∷ ("b", 2 ∷ []) ∷ [] }

two_files-IsInStep : IsInStep two_files
unfolding contains lookup
two_files-IsInStep = record { nodup = (refl, (refl, tt)); same = λ name. ground arith }

unfair-IsInStep_example : ¬ IsInStep (step any_name (rename "a" "b") two_files).1
unfolding contains
unfair-IsInStep_example =
    unfair-IsInStep any_name (rename "a" "b") two_files two_files-IsInStep
      (refl, (refl, (refl, refl)))
