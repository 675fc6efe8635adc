-- ===== src/Protocols/CacheStore/Listing.antt =====
-- `list_directory`, and which names it may be given.
use oresat_c3_software.Prelude.{
  ℕ, String, List, [], Bool, true, false, ◌≡◌, ◌∙◌, ◌||◌, sym, ap, subst, arith, str_eq_self,
  insert, contains,
}
use oresat_c3_software.Protocols.CacheStore.{
  CacheStore, FileNames, insort_left, list_directory, put, join_lines,
}
use oresat_c3_software.Protocols.CacheStore.Steps.{
  contains-insort_left, IsInStep, put-IsInStep, put_new-IsInStep,
}
use oresat_c3_software.Protocols.CacheStore.Runs.{insort_left_twice}

module _ (names : FileNames) (listing : Bool → List (String × List ℕ) → List (List ℕ)) where
  -- The cache with the file of the listing in it, and with its lines.
  abbrev listed : String → CacheStore → CacheStore
  listed file s = record { data' = insort_left names file s.data'; disk = insert file [] s.disk }

  abbrev filled : String → Bool → CacheStore → CacheStore
  filled file recursive s =
      put file (join_lines (listing recursive (listed file s).disk)) (listed file s)

  list_directory_done :
      (file : String) (recursive : Bool) (s : CacheStore)
      → names.is_valid file ≡ true
      → (list_directory names listing file recursive s).1 ≡ filled file recursive s
  unfolding list_directory
  list_directory_done file recursive s valid = ground arith

  -- The listing under a new name keeps the cache in step, and under the name of a file never.
  list_directory-IsInStep :
      (file : String) (recursive : Bool) (s : CacheStore)
      → IsInStep s
      → names.is_valid file ≡ true
      → ((contains s.data' file ≡ false)
          → IsInStep (list_directory names listing file recursive s).1)
        × ((contains s.data' file ≡ true)
            → ¬ IsInStep (list_directory names listing file recursive s).1)
  list_directory-IsInStep file recursive s i valid = (
    λ out. subst IsInStep (sym (list_directory_done file recursive s valid)) (
        put-IsInStep names (listed file s) (put_new-IsInStep names s i file [] out) file
          (join_lines (listing recursive (listed file s).disk))
          (contains-insort_left names file file s.data'
            ∙ ap (λ b. b || contains s.data' file) (str_eq_self file))),
    λ inside after.
        insort_left_twice names file s.data' inside
          (subst IsInStep (list_directory_done file recursive s valid) after).nodup,
  )
