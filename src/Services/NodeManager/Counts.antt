-- ===== src/Services/NodeManager/Counts.antt =====
-- The counts of nodes that a pass of the node manager writes to the OD.
use oresat_c3_software.Prelude.{
  ℕ, ◌+◌, ◌≤◌, ◌<◌, ◌≡◌, refl, arith, str_eq, String, [], ◌∷◌, true, if◌then◌else◌, length,
  Bool-cases, ◌∙◌, ap, inl, inr, ◌⊎◌, Result, Result-cases, ok, err, With,
}
use oresat_c3_software.Services.NodeManager.{
  Readings, Card, NodeState, off, boot, on, error, not_found, bootloader, dead, same_state,
}
use oresat_c3_software.Services.NodeManager.Loop.{
  Cards, Counts, NodeManager, no_counts, count, has_card, for_cards, update_status, update_cards,
  behind_counts, after_card, with_card, monitor, on_loop,
}
use oresat_c3_software.Drivers.I2c.{I2c}
use oresat_c3_software.Subsystems.Opd.{Opd, OpdError}

-- The number of cards in a state, the c3 itself not counted.
unfoldable pub tally : NodeState → Cards → ℕ
tally st [] = 0
tally st ((name, node) ∷ cards) =
    (if str_eq name "c3" then 0 else (if same_state node.status st then 1 else 0)) + tally st cards

-- The number of cards, the c3 itself not counted.
unfoldable pub monitored : Cards → ℕ
monitored [] = 0
monitored ((name, node) ∷ cards) = (if str_eq name "c3" then 0 else 1) + monitored cards

-- The counts `c`, and those of the cards on top.
abbrev on_top : Cards → Counts → Counts
on_top cards c = record {
  nodes_off = c.nodes_off + tally off cards;
  nodes_booting = c.nodes_booting + tally boot cards;
  nodes_on = c.nodes_on + tally on cards;
  nodes_with_errors = c.nodes_with_errors + tally error cards;
  nodes_not_found = c.nodes_not_found + tally not_found cards;
  nodes_dead = c.nodes_dead + tally dead cards;
}

tally_total :
    (l : Cards)
    → tally off l
        + tally boot l
        + tally on l
        + tally error l
        + tally not_found l
        + tally dead l
        + tally bootloader l
      ≡ monitored l
unfolding tally monitored
tally_total [] = refl
tally_total ((name, node) ∷ l) = ground (arith, tally_total l)

monitored-le : (cards : Cards) → monitored cards ≤ length cards
unfolding monitored
monitored-le [] = omega arith
monitored-le ((name, node) ∷ cards) = ground (arith, monitored-le cards)

monitored-lt : (cards : Cards) → has_card cards "c3" ≡ true → monitored cards < length cards
unfolding monitored has_card
monitored-lt [] h = cc
monitored-lt ((name, node) ∷ cards) h = ground (arith, monitored-lt cards, monitored-le cards)

-- The counts are those of the cards, and with the nodes in the bootloader, which are not reported,
-- they are all the monitored cards.
pub record IsTally (cards : Cards) (c : Counts) : Type 0 where
  nodes_off : c.nodes_off ≡ tally off cards
  nodes_booting : c.nodes_booting ≡ tally boot cards
  nodes_on : c.nodes_on ≡ tally on cards
  nodes_with_errors : c.nodes_with_errors ≡ tally error cards
  nodes_not_found : c.nodes_not_found ≡ tally not_found cards
  nodes_dead : c.nodes_dead ≡ tally dead cards
  total :
      c.nodes_off
        + c.nodes_booting
        + c.nodes_on
        + c.nodes_with_errors
        + c.nodes_not_found
        + c.nodes_dead
        + tally bootloader cards
      ≡ monitored cards

on_top-IsTally : (cards : Cards) → IsTally cards (on_top cards no_counts)
on_top-IsTally cards = ground (arith, tally_total cards)

module _ {Bus : Type 0} (io : I2c Bus) where
  -- The first loop with the counts, from the loop over the cards without them.
  abbrev pub counted :
      Counts
      → (Result OpdError (Unit {0}) × Cards) × With Opd Bus
      → (Result OpdError Counts × Cards) × With Opd Bus
  counted c ((ok _, cards), s) = ((ok (on_top cards c), cards), s)
  counted c ((err e, cards), s) = ((err e, cards), s)

  with_card_lem :
      (name : String) (node : Card) (cards : Cards) (c : Counts) (s : With Opd Bus)
      (res : Result OpdError (Unit {0})) (t : (Result OpdError (Unit {0}) × Cards) × With Opd Bus)
      (u : (Result OpdError Counts × Cards) × With Opd Bus)
      → u ≡ counted (if str_eq name "c3" then c else count node.status c) t
      → elim res as (λ _. (Result OpdError Counts × Cards) × With Opd Bus) [
        | ok _ ↦ with_card io name node u
        | err e ↦ ((err e, (name, node) ∷ cards), s)
      ]
        ≡ counted c (elim res as (λ _. (Result OpdError (Unit {0}) × Cards) × With Opd Bus) [
          | ok _ ↦ after_card io name node t
          | err e ↦ ((err e, (name, node) ∷ cards), s)
        ])
  unfolding tally
  with_card_lem name node cards c s (err e) t u h = refl
  with_card_lem name node cards c s (ok _) ((err e, rest), s') u h = rw h refl
  with_card_lem name node cards c s (ok _) ((ok _, rest), s') u h =
      rw h
        (elim (Bool-cases (str_eq name "c3")) [ inl own ↦ ground arith | inr other ↦ ground arith ])

  counted_ok :
      (c : Counts) (t : (Result OpdError (Unit {0}) × Cards) × With Opd Bus)
      → t.0.0 ≡ ok tt
      → counted c t ≡ ((ok (on_top t.0.1 c), t.0.1), t.1)
  counted_ok c ((ok _, cards), s) h = refl
  counted_ok c ((err e, cards), s) h = cc

  counted_err :
      (c : Counts) (t : (Result OpdError (Unit {0}) × Cards) × With Opd Bus) {e : OpdError}
      → t.0.0 ≡ err e
      → counted c t ≡ ((err e, t.0.1), t.1)
  counted_err c ((ok _, cards), s) h = cc
  counted_err c ((err e, cards), s) h = cc

  update_cards_lem :
      (r : Readings) (cards : Cards) (c : Counts) (s : With Opd Bus)
      → update_cards io r cards c s ≡ counted c (for_cards io (update_status io r) cards s)
  unfolding update_cards for_cards tally
  update_cards_lem r [] c s = ground arith
  update_cards_lem r ((name, node) ∷ cards) c s =
      let ((res, node'), s') = update_status io r name node s in
      let c' : Counts = if str_eq name "c3" then c else count node'.status c in
      with_card_lem name node' cards c s' res (for_cards io (update_status io r) cards s')
        (update_cards io r cards c' s') (update_cards_lem r cards c' s')

  pub on_loop_done :
      (r : Readings) (m : NodeManager) (s : With Opd Bus)
      → let ((first, cards), s1) = for_cards io (update_status io r) m.cards s in
        first ≡ ok tt
        → on_loop io r m s
          ≡ monitor io r (record m { cards = cards; counts = on_top cards no_counts }) s1
  unfolding on_loop
  on_loop_done r m s h = ap (behind_counts io r m) (
      update_cards_lem r m.cards no_counts s
      ∙ counted_ok no_counts (for_cards io (update_status io r) m.cards s) h)

  pub on_loop_raised :
      (r : Readings) (m : NodeManager) (s : With Opd Bus) {e : OpdError}
      → let ((first, cards), s1) = for_cards io (update_status io r) m.cards s in
        first ≡ err e
        → on_loop io r m s ≡ ((err e, record m { cards = cards; loops = m.loops + 1 }), s1)
  unfolding on_loop
  on_loop_raised r m s {e} h = ap (behind_counts io r m) (
      update_cards_lem r m.cards no_counts s
      ∙ counted_err no_counts (for_cards io (update_status io r) m.cards s) h)

  monitor_counts :
      (r : Readings) (m : NodeManager) (s : With Opd Bus) → (monitor io r m s).0.1.counts ≡ m.counts
  unfolding monitor
  monitor_counts r m s = ground arith

  -- Where the first loop of a pass raises, the pass raises the same and leaves the counts in the OD
  -- as they were. Else the pass, whether it then raises or not, leaves in each count the number of
  -- monitored cards that the first loop has set to that state, and together with the nodes in the
  -- bootloader, which are not reported, they are all the monitored cards.
  pub on_loop-IsTally :
      (r : Readings) (m : NodeManager) (s : With Opd Bus)
      → let ((first, cards), s1) = for_cards io (update_status io r) m.cards s in
        let ((res, m'), s') = on_loop io r m s in
        ((e : OpdError) × (first ≡ err e) × (res ≡ err e) × (m'.counts ≡ m.counts))
        ⊎ ((first ≡ ok tt) × IsTally cards m'.counts)
  on_loop-IsTally r m s = elim (Result-cases (for_cards io (update_status io r) m.cards s).0.0) [
    | inr (e, raised) ↦
        let u = on_loop_raised r m s raised in inl (e, raised, ground (arith, u), ground (arith, u))
    | inl (a, done) ↦ inr (done, rw (on_loop_done r m s done, monitor_counts) (on_top-IsTally _))
  ]

-- The number of nodes that are not found never reaches the number of cards, since the c3 is a card
-- and is not counted: the test `nodes_not_found == len(self._data)` of `on_loop` always fails.
not_found_never_all :
    (cards : Cards) → has_card cards "c3" ≡ true → tally not_found cards < length cards
not_found_never_all cards h = omega (arith, tally_total cards, monitored-lt cards h)
