-- ===== src/Services/Edl/Sequence.antt =====
-- The sequence numbers of the packets that are accepted.
use oresat_c3_software.Prelude.{
  ℕ, ◌/◌, ◌<◌, ◌≤◌, ◌≡◌, ap, inl, inr, Bool-cases, arith, List, [], ◌∷◌, true, Option, none, some,
  ltb,
}
use oresat_c3_software.Services.Edl.{
  EdlService, Received, nothing, invalid, packet, upack_last_recv,
}

module _ {P : Type 0} where
  abbrev pub noted : Option (ℕ × P) → List ℕ → List ℕ
  noted none seqs = seqs
  noted (some (seq_num, content)) seqs = seq_num ∷ seqs

  -- The sequence numbers that are accepted of what is received, each with its time.
  unfoldable pub accepted : List (ℕ × Received P) → EdlService → List ℕ
  accepted [] s = []
  accepted ((now, r) ∷ rs) s = let (got, s') = upack_last_recv now r s in noted got (accepted rs s')

  -- The field of a packet has four bytes.
  abbrev pub FitsWord : Received P → Type 0
  FitsWord (packet seq_num content) = seq_num < 4294967296
  FitsWord _ = Unit

  abbrev pub AllFit : List (ℕ × Received P) → Type 0
  AllFit [] = Unit
  AllFit ((now, r) ∷ rs) = FitsWord r × AllFit rs

-- No number is below the one before it, nor the first below `lo`.
abbrev pub IsSortedFrom : ℕ → List ℕ → Type 0
IsSortedFrom lo [] = Unit
IsSortedFrom lo (n ∷ ns) = (lo ≤ n) × IsSortedFrom n ns

module _ {P : Type 0} where
  pub upack_packet :
      (now seq_num : ℕ) (content : P) (s : EdlService)
      → s.flight_mode ≡ true
      → seq_num < 4294967296
      → s.sequence_count ≤ seq_num
      → upack_last_recv now (packet seq_num content) s ≡ (
        some (seq_num, content),
        record s { last_edl = now / 1_000_000; sequence_count = seq_num },
      )
  unfolding upack_last_recv
  upack_packet now seq_num content s f h le = ground arith

  upack_stale :
      (now seq_num : ℕ) (content : P) (s : EdlService)
      → s.flight_mode ≡ true
      → seq_num < s.sequence_count
      → upack_last_recv now (packet seq_num content) s ≡ (none, s)
  unfolding upack_last_recv
  upack_stale now seq_num content s f h = ground arith

  pub accepted-cons :
      (now : ℕ) (r : Received P) (rs : List (ℕ × Received P)) (s : EdlService)
      {got : Option (ℕ × P)} {s' : EdlService}
      → upack_last_recv now r s ≡ (got, s')
      → accepted ((now, r) ∷ rs) s ≡ noted got (accepted rs s')
  unfolding accepted
  accepted-cons now r rs s e =
      ap (λ (t : Option (ℕ × P) × EdlService). noted t.0 (accepted rs t.1)) e

  -- In flight mode, of a sequence of messages that `_upack_last_recv` is called for one after the
  -- other, with nothing else that writes the count in between, the sequence numbers of the packets
  -- that are accepted never go down, and none is below the count at the start. Each number is
  -- one of four bytes; 0 is no exception to it, also behind the highest number.
  pub accepted-IsSortedFrom :
      (rs : List (ℕ × Received P)) (s : EdlService)
      → s.flight_mode ≡ true
      → AllFit rs
      → IsSortedFrom s.sequence_count (accepted rs s)
  unfolding accepted upack_last_recv
  accepted-IsSortedFrom [] s f h = tt
  accepted-IsSortedFrom ((now, nothing) ∷ rs) s f h = accepted-IsSortedFrom rs s f h.1
  accepted-IsSortedFrom ((now, invalid) ∷ rs) s f h = accepted-IsSortedFrom rs _ f h.1
  accepted-IsSortedFrom ((now, packet seq_num content) ∷ rs) s f h =
      elim (Bool-cases (ltb seq_num s.sequence_count)) [
        | inl stale ↦
            rw
              (accepted-cons now (packet seq_num content) rs s
                (upack_stale now seq_num content s f (ground arith)))
              (accepted-IsSortedFrom rs s f h.1)
        | inr fresh ↦
            let le : s.sequence_count ≤ seq_num = ground arith in
            rw
              (accepted-cons now (packet seq_num content) rs s
                (upack_packet now seq_num content s f h.0 le))
              (le, accepted-IsSortedFrom rs _ f h.1)
      ]

  -- In flight mode a packet that was accepted is accepted again when it is received a second
  -- time right after: the comparison lets an equal sequence number through.
  replay_accepted :
      (now later seq_num : ℕ) (content : P) (s : EdlService)
      → s.flight_mode ≡ true
      → seq_num < 4294967296
      → s.sequence_count ≤ seq_num
      → accepted ((now, packet seq_num content) ∷ (later, packet seq_num content) ∷ []) s
        ≡ seq_num ∷ seq_num ∷ []
  unfolding accepted upack_last_recv
  replay_accepted now later seq_num content s f h le = ground arith
