-- ===== src/Protocols/Cfdp/Segmented.antt =====
-- The CRC of a file that is read in segments is that of the file at once.
use oresat_c3_software.Prelude.{
  ℕ, zero, suc, ◌+◌, ◌-◌, ◌≤◌, ◌<◌, ltb, String, List, [], ◌∷◌, ◌++◌, ◌≡◌, refl, sym, ap, ◌∙◌, true,
  false, Bool-cases, ltb→lt, inl, inr, arith, some, take, drop, ok, err, lookup, contains,
}
use oresat_c3_software.Protocols.CacheStore.{CacheStore, file_exists}
use oresat_c3_software.Protocols.Cfdp.{
  Calculator, crc, source_file_does_not_exist, crc_from, calc_for_file, read_len_at, digested,
}
use oresat_c3_software.Protocols.Cfdp.Modular.{read_there}

-- A calculator that is given a string in parts has the string.
pub record IsIncremental (calculator : Calculator) : Type 0 where
  pub nothing : (c : calculator.Crc) → calculator.update [] c ≡ c
  pub in_parts :
      (xs ys : List ℕ) (c : calculator.Crc)
      → calculator.update ys (calculator.update xs c) ≡ calculator.update (xs ++ ys) c

take_nil : (n : ℕ) → take {A = ℕ} n [] ≡ []
take_nil zero = refl
take_nil (suc n) = refl

take_add : (m n : ℕ) (xs : List ℕ) → take (m + n) xs ≡ take m xs ++ take n (drop m xs)
take_add zero n xs = ap (λ k. take k xs) (omega arith)
take_add (suc m) n [] = take_nil (suc m + n) ∙ sym (take_nil n)
take_add (suc m) n (x ∷ xs) =
    ap (λ k. take k (x ∷ xs)) (let h : suc m + n ≡ suc (m + n) = omega arith in h)
    ∙ ap (λ t. x ∷ t) (take_add m n xs)

module _ (calculator : Calculator) (incremental : IsIncremental calculator) (s : CacheStore)
    (file : String) (raw : List ℕ) (inside : contains s.data' file ≡ true)
    (there : lookup file s.disk ≡ some raw) (file_sz segment_len : ℕ)
    (positive : 0 < segment_len) where
  -- The calculator with the first bytes of the file.
  abbrev upto : ℕ → calculator.Crc
  upto n = calculator.update (take n raw) calculator.fresh

  upto_more :
      (current n : ℕ)
      → calculator.update (take n (drop current raw)) (upto current) ≡ upto (current + n)
  upto_more current n =
      incremental.in_parts (take current raw) (take n (drop current raw)) calculator.fresh
      ∙ ap (λ t. calculator.update t calculator.fresh) (sym (take_add current n raw))

  -- A segment takes some bytes, and none behind the end.
  len_range :
      (current : ℕ)
      → current < file_sz
      → (0 < read_len_at calculator current file_sz segment_len)
        × (current + read_len_at calculator current file_sz segment_len ≤ file_sz)
  unfolding read_len_at
  len_range current more = ground (arith, positive)

  reads_on :
      (fuel current : ℕ)
      → current < file_sz
      → crc_from calculator (suc fuel) file current file_sz segment_len (upto current) s
        ≡ crc_from calculator fuel file
            (current + read_len_at calculator current file_sz segment_len)
            file_sz
            segment_len
            (calculator.update
              (take (read_len_at calculator current file_sz segment_len) (drop current raw))
              (upto current))
            s
  unfolding crc_from
  reads_on fuel current more = ground (
    arith,
    (len_range current more).0,
    read_there s file raw current (read_len_at calculator current file_sz segment_len) inside there,
  )

  crc_from_lem :
      (fuel current : ℕ)
      → current ≤ file_sz
      → file_sz - current < fuel
      → crc_from calculator fuel file current file_sz segment_len (upto current) s
        ≡ some (ok (upto file_sz))
  unfolding crc_from
  crc_from_lem zero current below enough = absurd (omega arith)
  crc_from_lem (suc fuel) current below enough = elim (Bool-cases (ltb current file_sz)) [
    | inr reached ↦ ground (arith, ap upto (let h : current ≡ file_sz = ground arith in h))
    | inl more ↦
        reads_on fuel current (ltb→lt current file_sz more)
        ∙ (ap (λ c. crc_from calculator fuel file (current + len) file_sz segment_len c s)
              (upto_more current len)
            ∙ crc_from_lem fuel (current + len) (len_range current (ltb→lt current file_sz more)).1
                (omega (arith, len_range current (ltb→lt current file_sz more))))
  ]
    where
      len : ℕ
      len = read_len_at calculator current file_sz segment_len

-- With a segment length above 0 and a calculator that takes a string in parts, the CRC ends, with a
-- fuel above the size. For a file that is not in the list it raises SourceFileDoesNotExist, and
-- for a file of the store it is the CRC of the first `file_sz` bytes at once, whatever the length.
pub calc_for_file_lem :
    (calculator : Calculator) (s : CacheStore) (file : String) (file_sz segment_len fuel : ℕ)
    → IsIncremental calculator
    → 0 < segment_len
    → file_sz < fuel
    → ((contains s.data' file ≡ false)
        → calc_for_file calculator fuel crc file file_sz segment_len s
          ≡ some (err source_file_does_not_exist))
      × ((raw : List ℕ)
          → contains s.data' file ≡ true
          → lookup file s.disk ≡ some raw
          → calc_for_file calculator fuel crc file file_sz segment_len s
            ≡ some (ok (calculator.digest (calculator.update (take file_sz raw) calculator.fresh))))
unfolding calc_for_file file_exists
calc_for_file_lem calculator s file file_sz segment_len fuel incremental positive enough = (
  λ out. ground (arith, positive, out),
  λ raw inside there.
      let run : crc_from calculator fuel file 0 file_sz segment_len calculator.fresh s
          ≡ some (
              ok (
                upto calculator incremental s file raw inside there file_sz segment_len positive
                  file_sz)) =
        ap (λ c. crc_from calculator fuel file 0 file_sz segment_len c s)
          (sym (incremental.nothing calculator.fresh))
        ∙ crc_from_lem calculator incremental s file raw inside there file_sz segment_len positive
            fuel 0 (omega arith) (omega arith) in
      ground (arith, positive, inside, ap (digested calculator) run),
)
