-- ===== src/Protocols/CacheStore/Segments.antt =====
-- The bytes that a write leaves in a file, and a file that is written in segments.
use oresat_c3_software.Prelude.{
  ℕ, zero, suc, ◌+◌, ◌-◌, ◌≤◌, ◌<◌, List, [], ◌∷◌, ◌++◌, ◌≡◌, refl, sym, ap, ◌∙◌, arith, inl, inr,
  Bool-cases, leb, leb→le, ◌⊎◌, length, take, drop, replicate, get_or, length-append, length-drop,
  length-take, length-replicate,
}
use oresat_c3_software.Protocols.CacheStore.{write_at, padded}

pub le_cases : (m n : ℕ) → (m ≤ n) ⊎ (n < m)
le_cases m n = elim (Bool-cases (leb m n)) [
  | inl h ↦ inl (leb→le m n h)
  | inr h ↦ inr (ground arith)
]

get_or-append_front :
    (xs ys : List ℕ) (j : ℕ) → j < length xs → get_or (xs ++ ys) j 0 ≡ get_or xs j 0
get_or-append_front [] ys j h = absurd (omega arith)
get_or-append_front (x ∷ xs) ys zero h = refl
get_or-append_front (x ∷ xs) ys (suc j) h = get_or-append_front xs ys j (omega arith)

get_or-append_past : (xs ys : List ℕ) (j : ℕ) → get_or (xs ++ ys) (length xs + j) 0 ≡ get_or ys j 0
get_or-append_past [] ys j = ap (λ k. get_or ys k 0) (omega arith)
get_or-append_past (x ∷ xs) ys j =
    ap (λ k. get_or (x ∷ (xs ++ ys)) k 0)
      (let h : suc (length xs) + j ≡ suc (length xs + j) = omega arith in h)
    ∙ get_or-append_past xs ys j

get_or_past : (xs : List ℕ) (j : ℕ) → length xs ≤ j → get_or xs j 0 ≡ 0
get_or_past [] j h = refl
get_or_past (x ∷ xs) zero h = absurd (omega arith)
get_or_past (x ∷ xs) (suc j) h = get_or_past xs j (omega arith)

pub get_or-drop : (n : ℕ) (xs : List ℕ) (j : ℕ) → get_or (drop n xs) j 0 ≡ get_or xs (n + j) 0
get_or-drop zero xs j = ap (λ k. get_or xs k 0) (omega arith)
get_or-drop (suc n) [] j = refl
get_or-drop (suc n) (x ∷ xs) j =
    get_or-drop n xs j
    ∙ ap (λ k. get_or (x ∷ xs) k 0) (let h : suc (n + j) ≡ suc n + j = omega arith in h)

pub get_or-take : (n : ℕ) (xs : List ℕ) (j : ℕ) → j < n → get_or (take n xs) j 0 ≡ get_or xs j 0
get_or-take zero xs j h = absurd (omega arith)
get_or-take (suc n) [] j h = refl
get_or-take (suc n) (x ∷ xs) zero h = refl
get_or-take (suc n) (x ∷ xs) (suc j) h = get_or-take n xs j (omega arith)

pub take_short : (n : ℕ) (xs : List ℕ) → length xs ≤ n → take n xs ≡ xs
take_short zero [] h = refl
take_short zero (x ∷ xs) h = absurd (omega arith)
take_short (suc n) [] h = refl
take_short (suc n) (x ∷ xs) h = ap (λ t. x ∷ t) (take_short n xs (omega arith))

get_or-replicate : (n j : ℕ) → let z : ℕ = 0 in get_or (replicate n z) j z ≡ z
get_or-replicate zero j = refl
get_or-replicate (suc n) zero = refl
get_or-replicate (suc n) (suc j) = get_or-replicate n j

abbrev zeros : ℕ → List ℕ
zeros n = replicate n 0

length-padded : (offset : ℕ) (raw : List ℕ) → length (padded offset raw) ≡ offset
length-padded offset raw = elim (le_cases offset (length raw)) [
  | inl fits ↦ parts ∙ omega (arith, length-take offset raw fits, tail)
  | inr past ↦ parts ∙ omega (arith, ap length (take_short offset raw (omega arith)), tail)
]
  where
    tail : length (zeros (offset - length raw)) ≡ offset - length raw
    tail = length-replicate {A = ℕ} (offset - length raw) 0

    parts :
        length (padded offset raw) ≡ length (take offset raw) + length (zeros (offset - length raw))
    parts = length-append (take offset raw) (zeros (offset - length raw))

-- Behind the end there are zeros.
get_or-append_zeros : (raw : List ℕ) (n j : ℕ) → get_or (raw ++ zeros n) j 0 ≡ get_or raw j 0
get_or-append_zeros [] n j = get_or-replicate n j
get_or-append_zeros (x ∷ raw) n zero = refl
get_or-append_zeros (x ∷ raw) n (suc j) = get_or-append_zeros raw n j

get_or-padded :
    (offset : ℕ) (raw : List ℕ) (j : ℕ)
    → j < offset
    → get_or (padded offset raw) j 0 ≡ get_or raw j 0
get_or-padded offset raw j h =
    get_or-append_zeros (take offset raw) (offset - length raw) j ∙ get_or-take offset raw j h

-- A byte of `front ++ (bytes ++ rest)`, by its place.
module _ (front bytes rest : List ℕ) (j : ℕ) where
  get_or_inside :
      j < length bytes → get_or (front ++ (bytes ++ rest)) (length front + j) 0 ≡ get_or bytes j 0
  get_or_inside h = get_or-append_past front (bytes ++ rest) j ∙ get_or-append_front bytes rest j h

  get_or_behind :
      get_or (front ++ (bytes ++ rest)) (length front + (length bytes + j)) 0 ≡ get_or rest j 0
  get_or_behind =
      get_or-append_past front (bytes ++ rest) (length bytes + j) ∙ get_or-append_past bytes rest j

-- The bytes of a file after a write, by their places.
module _ (offset : ℕ) (raw : List ℕ) where
  length-write_at :
      (b : ℕ) (bytes : List ℕ)
      → length (write_at offset (b ∷ bytes) raw)
        ≡ offset + (length (b ∷ bytes) + (length raw - (offset + length (b ∷ bytes))))
  unfolding write_at
  length-write_at b bytes =
      length-append (padded offset raw) ((b ∷ bytes) ++ drop (offset + length (b ∷ bytes)) raw)
      ∙ omega (
        arith,
        length-padded offset raw,
        length-append bytes (drop (offset + length (b ∷ bytes)) raw),
        length-drop (offset + length (b ∷ bytes)) raw,
      )

  pub get_or_before :
      (bytes : List ℕ) (j : ℕ)
      → j < offset
      → get_or (write_at offset bytes raw) j 0 ≡ get_or raw j 0
  unfolding write_at
  get_or_before [] j h = refl
  get_or_before (b ∷ bytes) j h =
      get_or-append_front (padded offset raw)
        ((b ∷ bytes) ++ drop (offset + length (b ∷ bytes)) raw) j
        (omega (arith, length-padded offset raw))
      ∙ get_or-padded offset raw j h

  pub get_or_written :
      (bytes : List ℕ) (j : ℕ)
      → j < length bytes
      → get_or (write_at offset bytes raw) (offset + j) 0 ≡ get_or bytes j 0
  unfolding write_at
  get_or_written [] j h = absurd (omega arith)
  get_or_written (b ∷ bytes) j h =
      ap (λ k. get_or (write_at offset (b ∷ bytes) raw) (k + j) 0) (sym (length-padded offset raw))
      ∙ get_or_inside (padded offset raw) (b ∷ bytes) (drop (offset + length (b ∷ bytes)) raw) j h

  pub get_or_after :
      (bytes : List ℕ) (j : ℕ)
      → get_or (write_at offset bytes raw) (offset + (length bytes + j)) 0
        ≡ get_or raw (offset + (length bytes + j)) 0
  unfolding write_at
  get_or_after [] j = refl
  get_or_after (b ∷ bytes) j =
      ap (λ k. get_or (write_at offset (b ∷ bytes) raw) (k + (length (b ∷ bytes) + j)) 0)
        (sym (length-padded offset raw))
      ∙ get_or_behind (padded offset raw) (b ∷ bytes) (drop (offset + length (b ∷ bytes)) raw) j
      ∙ get_or-drop (offset + length (b ∷ bytes)) raw j
      ∙ ap (λ k. get_or raw k 0) (omega arith)

  -- Nothing changes for an empty write, and a file grows to the end of what is written.
  pub length_cases :
      (bytes : List ℕ)
      → ((length bytes ≡ 0) × (length (write_at offset bytes raw) ≡ length raw))
        ⊎ ((0 < length bytes)
            × (length (write_at offset bytes raw)
                ≡ offset + (length bytes + (length raw - (offset + length bytes)))))
  unfolding write_at
  length_cases [] = inl (refl, refl)
  length_cases (b ∷ bytes) = inr (omega arith, length-write_at b bytes)
