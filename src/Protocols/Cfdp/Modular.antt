-- ===== src/Protocols/Cfdp/Modular.antt =====
-- The modular checksum is what CFDP says it is: each byte at its place in a word of four.
use oresat_c3_software.Prelude.{
  ℕ, zero, suc, ◌+◌, ◌-◌, ◌*◌, ◌%◌, ◌^◌, ◌≤◌, String, List, [], ◌∷◌, ◌≡◌, refl, sym, ap, ◌∙◌, true,
  arith, some, length, take, drop, drop-drop, ok, lookup, contains,
}
use oresat_c3_software.Protocols.CacheStore.{CacheStore, read_data, read_from_opened_file}
use oresat_c3_software.Protocols.Cfdp.{
  read_at, word, sum_words, calc_modular_checksum, pack_u32, packed,
}

-- The sum of the bytes, each times its weight in the word: 2 ^ 24 for the first of four, and so on.
abbrev pub octets : ℕ → List ℕ → ℕ
octets place [] = 0
octets place (b ∷ raw) = b * 256 ^ (3 - place % 4) + octets (suc place) raw

-- The same four at a time, as the loop has it.
abbrev words : List ℕ → ℕ
words [] = 0
words (a ∷ []) = word (a ∷ [])
words (a ∷ b ∷ []) = word (a ∷ b ∷ [])
words (a ∷ b ∷ c ∷ []) = word (a ∷ b ∷ c ∷ [])
words (a ∷ b ∷ c ∷ d ∷ raw) = word (a ∷ b ∷ c ∷ d ∷ []) + words raw

octets_again :
    (place : ℕ) (raw : List ℕ) → octets (suc (suc (suc (suc place)))) raw ≡ octets place raw
octets_again place [] = refl
octets_again place (b ∷ raw) =
    ap (λ k. b * 256 ^ (3 - k) + octets (suc (suc (suc (suc (suc place))))) raw)
      (let h : suc (suc (suc (suc place))) % 4 ≡ place % 4 = omega arith in h)
    ∙ ap (λ k. b * 256 ^ (3 - place % 4) + k) (octets_again (suc place) raw)

words-octets : (raw : List ℕ) → words raw ≡ octets 0 raw
words-octets [] = refl
words-octets (a ∷ []) = omega arith
words-octets (a ∷ b ∷ []) = omega arith
words-octets (a ∷ b ∷ c ∷ []) = omega arith
words-octets (a ∷ b ∷ c ∷ d ∷ raw) = omega (arith, words-octets raw, octets_again 0 raw)

module _ (s : CacheStore) (file : String) (raw : List ℕ) where
  pub read_there :
      (offset n : ℕ)
      → contains s.data' file ≡ true
      → lookup file s.disk ≡ some raw
      → read_at file offset n s ≡ ok (take n (drop offset raw))
  unfolding read_data read_from_opened_file
  read_there offset n inside there = ground arith

  module _ (inside : contains s.data' file ≡ true) (there : lookup file s.disk ≡ some raw) where
    ends :
        (fuel offset sum : ℕ)
        → drop offset raw ≡ []
        → sum_words (suc fuel) file offset sum s ≡ some (ok sum)
    unfolding sum_words
    ends fuel offset sum rest = ground (arith, read_there offset 4 inside there, ap (take 4) rest)

    goes_on :
        (fuel offset sum b : ℕ) (bytes rest : List ℕ)
        → drop offset raw ≡ rest
        → take 4 rest ≡ b ∷ bytes
        → sum_words (suc fuel) file offset sum s
          ≡ sum_words fuel file (offset + 4) (sum + word (b ∷ bytes)) s
    unfolding sum_words
    goes_on fuel offset sum b bytes rest drops four =
        ground (arith, read_there offset 4 inside there, ap (take 4) drops)

    next :
        (offset : ℕ) (rest : List ℕ) → drop offset raw ≡ rest → drop (offset + 4) raw ≡ drop 4 rest
    next offset rest drops = sym (drop-drop 4 offset raw) ∙ ap (drop 4) drops

    -- A word, and the sum of what is left after it.
    on :
        (fuel offset sum b : ℕ) (bytes rest left : List ℕ)
        → drop offset raw ≡ rest
        → take 4 rest ≡ b ∷ bytes
        → words rest ≡ word (b ∷ bytes) + words left
        → sum_words fuel file (offset + 4) (sum + word (b ∷ bytes)) s
          ≡ some (ok (sum + word (b ∷ bytes) + words left))
        → sum_words (suc fuel) file offset sum s ≡ some (ok (sum + words rest))
    on fuel offset sum b bytes rest left drops first total later =
        goes_on fuel offset sum b bytes rest drops first
        ∙ (later ∙ ap (λ k. some (ok k)) (omega (arith, total)))

    -- Enough fuel sums the words that are left.
    sums :
        (fuel offset sum : ℕ) (rest : List ℕ)
        → drop offset raw ≡ rest
        → length rest + 4 ≤ 4 * fuel
        → sum_words fuel file offset sum s ≡ some (ok (sum + words rest))
    sums zero offset sum rest drops enough = absurd (omega arith)
    sums (suc fuel) offset sum [] drops enough =
        ends fuel offset sum drops ∙ ap (λ k. some (ok k)) (omega arith)
    sums (suc fuel) offset sum (a ∷ []) drops enough =
        on fuel offset sum a [] (a ∷ []) [] drops refl (omega arith) (
          sums fuel (offset + 4) (sum + word (a ∷ [])) [] (next offset (a ∷ []) drops)
            (omega arith))
    sums (suc fuel) offset sum (a ∷ b ∷ []) drops enough =
        on fuel offset sum a (b ∷ []) (a ∷ b ∷ []) [] drops refl (omega arith) (
          sums fuel (offset + 4) (sum + word (a ∷ b ∷ [])) [] (next offset (a ∷ b ∷ []) drops)
            (omega arith))
    sums (suc fuel) offset sum (a ∷ b ∷ c ∷ []) drops enough =
        on fuel offset sum a (b ∷ c ∷ []) (a ∷ b ∷ c ∷ []) [] drops refl (omega arith) (
          sums fuel (offset + 4) (sum + word (a ∷ b ∷ c ∷ [])) []
            (next offset (a ∷ b ∷ c ∷ []) drops) (omega arith))
    sums (suc fuel) offset sum (a ∷ b ∷ c ∷ d ∷ left) drops enough =
        on fuel offset sum a (b ∷ c ∷ d ∷ []) (a ∷ b ∷ c ∷ d ∷ left) left drops refl refl (
          sums fuel (offset + 4) (sum + word (a ∷ b ∷ c ∷ d ∷ [])) left
            (next offset (a ∷ b ∷ c ∷ d ∷ left) drops) (omega arith))

    -- The modular checksum of a file of the store ends, with a fuel above the number of its words:
    -- it is the sum of the bytes, each times its weight in a word of four, by 2 ^ 32.
    pub calc_modular_checksum_lem :
        (fuel : ℕ)
        → length raw + 4 ≤ 4 * fuel
        → calc_modular_checksum fuel file s ≡ some (ok (pack_u32 (octets 0 raw % 4294967296)))
    unfolding calc_modular_checksum
    calc_modular_checksum_lem fuel enough =
        ap packed (sums fuel 0 0 raw refl enough)
        ∙ ap (λ k. some (ok (pack_u32 (k % 4294967296))))
            (let h : 0 + words raw ≡ octets 0 raw = omega (arith, words-octets raw) in h)
