-- ===== src/Protocols/CacheStore/Upload.antt =====
-- A file that is written in segments of another: in any order, and again where one is sent twice.
use oresat_c3_software.Prelude.{
  ℕ, suc, ◌+◌, ◌-◌, ◌≤◌, ◌<◌, List, [], ◌∷◌, ◌≡◌, refl, sym, ap, ap₂, subst, ◌∙◌, arith, inl, inr,
  ◌⊎◌, some, length, drop, get_or, length-drop, length-take,
}
use oresat_c3_software.Protocols.CacheStore.{write_at, read_from_opened_file}
use oresat_c3_software.Protocols.CacheStore.Segments.{
  le_cases, take_short, length_cases, get_or_before, get_or_written, get_or_after, get_or-take,
  get_or-drop,
}

-- Where a segment begins and how much of it is asked for.
pub record Segment : Type 0 where
  pub start : ℕ
  pub size : ℕ

-- Two files with the same bytes.
same_bytes :
    (xs ys : List ℕ)
    → length xs ≡ length ys
    → ((j : ℕ) → j < length ys → get_or xs j 0 ≡ get_or ys j 0)
    → xs ≡ ys
same_bytes [] [] e h = refl
same_bytes [] (y ∷ ys) e h = absurd (omega arith)
same_bytes (x ∷ xs) [] e h = absurd (omega arith)
same_bytes (x ∷ xs) (y ∷ ys) e h =
    ap₂ (λ (z : ℕ) (zs : List ℕ). z ∷ zs) (h 0 (omega arith))
      (same_bytes xs ys (omega arith) (λ j k. h (suc j) (omega arith)))

module _ (content : List ℕ) where
  abbrev pub chunk : Segment → List ℕ
  chunk seg = read_from_opened_file content seg.start (some seg.size)

  -- The file after the segments were written to it.
  abbrev pub written : List Segment → List ℕ → List ℕ
  written [] raw = raw
  written (seg ∷ segs) raw = written segs (write_at seg.start (chunk seg) raw)

  HasByte : ℕ → List ℕ → Type 0
  HasByte j raw = (j < length raw) × (get_or raw j 0 ≡ get_or content j 0)

  length-chunk :
      (seg : Segment)
      → ((seg.size ≤ length content - seg.start) × (length (chunk seg) ≡ seg.size))
        ⊎ ((length content - seg.start ≤ seg.size)
            × (length (chunk seg) ≡ length content - seg.start))
  unfolding read_from_opened_file
  length-chunk seg = elim (le_cases seg.size (length content - seg.start)) [
    | inl whole ↦ inl (
      whole,
      length-take seg.size (drop seg.start content) (omega (arith, length-drop seg.start content)),
    )
    | inr last ↦ inr (
      omega arith,
      ap length (
            take_short seg.size (drop seg.start content)
              (omega (arith, length-drop seg.start content)))
          ∙ length-drop seg.start content,
    )
  ]

  get_or-chunk :
      (seg : Segment) (j : ℕ)
      → j < seg.size
      → get_or (chunk seg) j 0 ≡ get_or content (seg.start + j) 0
  unfolding read_from_opened_file
  get_or-chunk seg j h =
      get_or-take seg.size (drop seg.start content) j h ∙ get_or-drop seg.start content j

  -- The file after one segment more.
  abbrev after : Segment → List ℕ → List ℕ
  after seg raw = write_at seg.start (chunk seg) raw

  -- A byte of the segment is there, whatever was there before.
  gains_at :
      (seg : Segment) (raw : List ℕ) (k : ℕ)
      → k < seg.size
      → seg.start + k < length content
      → HasByte (seg.start + k) (after seg raw)
  unfolding HasByte
  gains_at seg raw k small inside = elim (length-chunk seg) [
    | inl (fits, long) ↦ (reaches (omega arith), same (omega arith))
    | inr (ends, long) ↦ (reaches (omega arith), same (omega arith))
  ]
    where
      same :
          k < length (chunk seg)
          → get_or (after seg raw) (seg.start + k) 0 ≡ get_or content (seg.start + k) 0
      same h = get_or_written seg.start raw (chunk seg) k h ∙ get_or-chunk seg k small

      reaches : k < length (chunk seg) → seg.start + k < length (after seg raw)
      reaches h = elim (length_cases seg.start raw (chunk seg)) [
        | inl (gone, same_length) ↦ absurd (omega arith)
        | inr (some_bytes, grown) ↦ omega arith
      ]

  abbrev pub Covers : Segment → ℕ → Type 0
  Covers seg j = (seg.start ≤ j) × (j < seg.start + seg.size)

  gains :
      (seg : Segment) (raw : List ℕ) (j : ℕ)
      → j < length content
      → Covers seg j
      → HasByte j (after seg raw)
  gains seg raw j inside (from, to) =
      subst (λ k. HasByte k (after seg raw)) at_j
        (gains_at seg raw (j - seg.start) (omega arith) (omega arith))
    where
      at_j : seg.start + (j - seg.start) ≡ j
      at_j = omega arith

  same_after :
      (seg : Segment) (raw : List ℕ) (j : ℕ)
      → j < seg.start ⊎ seg.start + length (chunk seg) ≤ j
      → get_or (after seg raw) j 0 ≡ get_or raw j 0
  same_after seg raw j (inl before) = get_or_before seg.start raw (chunk seg) j before
  same_after seg raw j (inr behind) =
      ap (λ k. get_or (after seg raw) k 0) (sym at_j)
      ∙ (get_or_after seg.start raw (chunk seg) (j - (seg.start + length (chunk seg)))
          ∙ ap (λ k. get_or raw k 0) at_j)
    where
      at_j : seg.start + (length (chunk seg) + (j - (seg.start + length (chunk seg)))) ≡ j
      at_j = omega arith

  -- A byte that is there stays, in the segment and out of it.
  keeps :
      (seg : Segment) (raw : List ℕ) (j : ℕ)
      → j < length content
      → HasByte j raw
      → HasByte j (after seg raw)
  unfolding HasByte
  keeps seg raw j inside (held, same) = elim (le_cases seg.start j) [
    | inr before ↦ (longer, same_after seg raw j (inl before) ∙ same)
    | inl from ↦ elim (le_cases (seg.start + seg.size) j) [
      | inr covered ↦ gains seg raw j inside (from, covered)
      | inl past ↦ (longer, same_after seg raw j (inr (beyond past)) ∙ same)
    ]
  ]
    where
      longer : j < length (after seg raw)
      longer = elim (length_cases seg.start raw (chunk seg)) [
        | inl (gone, same_length) ↦ omega arith
        | inr (some_bytes, grown) ↦ omega arith
      ]

      beyond : seg.start + seg.size ≤ j → seg.start + length (chunk seg) ≤ j
      beyond past = elim (length-chunk seg) [
        | inl (fits, long) ↦ omega arith
        | inr (ends, long) ↦ omega arith
      ]

  -- No write goes past the end of the file that is copied.
  fits :
      (seg : Segment) (raw : List ℕ)
      → length raw ≤ length content
      → length (after seg raw) ≤ length content
  fits seg raw short = elim (length_cases seg.start raw (chunk seg)) [
    | inl (gone, same_length) ↦ omega arith
    | inr (some_bytes, grown) ↦ elim (length-chunk seg) [
      | inl (inside, long) ↦ omega arith
      | inr (ends, long) ↦ omega arith
    ]
  ]

  abbrev pub Covered : List Segment → ℕ → Type 0
  Covered [] j = ⊥
  Covered (seg ∷ segs) j = Covers seg j ⊎ Covered segs j

  written_held :
      (segs : List Segment) (raw : List ℕ) (j : ℕ)
      → j < length content
      → HasByte j raw ⊎ Covered segs j
      → HasByte j (written segs raw)
  written_held [] raw j inside (inl held) = held
  written_held [] raw j inside (inr nowhere) = elim nowhere [ ]
  written_held (seg ∷ segs) raw j inside (inl held) =
      written_held segs (after seg raw) j inside (inl (keeps seg raw j inside held))
  written_held (seg ∷ segs) raw j inside (inr (inl covered)) =
      written_held segs (after seg raw) j inside (inl (gains seg raw j inside covered))
  written_held (seg ∷ segs) raw j inside (inr (inr covered)) =
      written_held segs (after seg raw) j inside (inr covered)

  written_fits :
      (segs : List Segment) (raw : List ℕ)
      → length raw ≤ length content
      → length (written segs raw) ≤ length content
  written_fits [] raw short = short
  written_fits (seg ∷ segs) raw short = written_fits segs (after seg raw) (fits seg raw short)

  -- Segments that cover the file, in any order, make a file no longer than it into a copy.
  pub written_lem :
      (segs : List Segment) (raw : List ℕ)
      → length raw ≤ length content
      → ((j : ℕ) → j < length content → Covered segs j)
      → written segs raw ≡ content
  unfolding HasByte
  written_lem segs raw short covered =
      same_bytes (written segs raw) content same_length
        (λ j inside. (written_held segs raw j inside (inr (covered j inside))).1)
    where
      upper : length (written segs raw) ≤ length content
      upper = written_fits segs raw short

      same_length : length (written segs raw) ≡ length content
      same_length = elim (le_cases 1 (length content)) [
        | inr empty ↦ omega (arith, upper)
        | inl some_bytes ↦ omega (
          arith,
          upper,
          (written_held segs raw (length content - 1) (omega arith)
              (inr (covered (length content - 1) (omega arith)))).0,
        )
      ]
