-- ===== src/Services/NodeManager/Resets.antt =====
-- The number of resets of a node.
use oresat_c3_software.Prelude.{
  ℕ, ◌≤◌, ◌<◌, ◌≡◌, ◌≢◌, arith, String, str_eq, [], ◌∷◌, Bool, true, false, ◌&&◌, ◌==◌, ok, With,
  Bool-cases, Result-cases, inl, inr,
}
use oresat_c3_software.Drivers.I2c.{I2c}
use oresat_c3_software.Subsystems.Opd.{Opd}
use oresat_c3_software.Services.NodeManager.{
  off, error, same_state, Card, Readings, max_co_resets, get_nodes_state, OnCard, enable,
}
use oresat_c3_software.Services.NodeManager.Counts.{on_loop_done, on_loop_raised}
use oresat_c3_software.Services.NodeManager.Loop.{
  Cards, NodeManager, has_card, for_cards, update_status, settle, maintain_card, then_card,
  not_running, probe_step, always_on_step, monitor, on_loop,
}

module _ {Bus : Type 0} (io : I2c Bus) where
  -- A node of the OPD is in the state ERROR only if it may be reset again.
  get_nodes_state_error :
      (r : Readings) (name : String) (node : Card) (s : With Opd Bus)
      → node.opd_address ≢ 0
      → (get_nodes_state io r name node s).0 ≡ ok error
      → node.opd_resets < max_co_resets
  unfolding get_nodes_state
  get_nodes_state_error r name node s ne h = ground arith

-- No node has been reset more often than allowed, and the c3 itself is not on the OPD.
pub record IsBounded (name : String) (node : Card) : Type 0 where
  pub capped : node.opd_resets ≤ max_co_resets
  pub c3_off_opd : str_eq name "c3" ≡ true → node.opd_address ≡ 0

-- Moreover a node of the OPD that has an error may be reset again.
record IsReady (name : String) (node : Card) : Type 0 where
  bounded : IsBounded name node
  room : node.opd_address ≢ 0 → node.status ≡ error → node.opd_resets < max_co_resets

abbrev pub AllCards : (String → Card → Type 0) → Cards → Type 0
AllCards P [] = Unit
AllCards P ((name, node) ∷ cards) = P name node × AllCards P cards

AllCards-mono :
    {P Q : String → Card → Type 0} (cards : Cards)
    → ((name : String) (node : Card) → P name node → Q name node)
    → AllCards P cards
    → AllCards Q cards
AllCards-mono [] f h = tt
AllCards-mono ((name, node) ∷ cards) f h = (f name node h.0, AllCards-mono cards f h.1)

module _ {Bus : Type 0} (io : I2c Bus) where
  -- What one method makes of a card, for all the cards of a loop, whether it raises or not.
  for_cards-AllCards :
      (P Q : String → Card → Type 0) (act : String → OnCard io) (cards : Cards) (s : With Opd Bus)
      → ((name : String) (node : Card) → P name node → Q name node)
      → ((name : String) (node : Card) (t : With Opd Bus)
          → P name node
          → Q name (act name node t).0.1)
      → AllCards P cards
      → AllCards Q (for_cards io act cards s).0.1
  unfolding for_cards
  for_cards-AllCards P Q act [] s weak keep h = tt
  for_cards-AllCards P Q act ((name, node) ∷ cards) s weak keep h =
      elim (Result-cases (act name node s).0.0) [
        | inl (a, e) ↦
            rw (e, AllCards)
              (
                keep name node s h.0,
                for_cards-AllCards P Q act cards (act name node s).1 weak keep h.1,
              )
        | inr (x, e) ↦ rw (e, AllCards) (keep name node s h.0, AllCards-mono cards weak h.1)
      ]

  -- What one method makes of a card where it returns, for all the cards of a loop that returns.
  for_cards_ok-AllCards :
      (P Q : String → Card → Type 0) (act : String → OnCard io) (cards : Cards) (s : With Opd Bus)
      → ((name : String) (node : Card) (t : With Opd Bus)
          → P name node
          → (act name node t).0.0 ≡ ok tt
          → Q name (act name node t).0.1)
      → AllCards P cards
      → (for_cards io act cards s).0.0 ≡ ok tt
      → AllCards Q (for_cards io act cards s).0.1
  unfolding for_cards
  for_cards_ok-AllCards P Q act [] s keep h r = tt
  for_cards_ok-AllCards P Q act ((name, node) ∷ cards) s keep h r =
      elim (Result-cases (act name node s).0.0) [
        | inl (a, e) ↦
            rw (e, AllCards)
              (
                keep name node s h.0 e,
                for_cards_ok-AllCards P Q act cards (act name node s).1 keep h.1 (ground arith),
              )
        | inr (x, e) ↦ absurd (ground arith)
      ]

  update_status-IsBounded :
      (r : Readings) (name : String) (node : Card) (s : With Opd Bus)
      → IsBounded name node
      → IsBounded name (update_status io r name node s).0.1
  unfolding update_status
  update_status-IsBounded r name node s h = ground arith

  update_status-IsReady :
      (r : Readings) (name : String) (node : Card) (s : With Opd Bus)
      → IsBounded name node
      → (update_status io r name node s).0.0 ≡ ok tt
      → IsReady name (update_status io r name node s).0.1
  unfolding update_status
  update_status-IsReady r name node s h e = ground (arith, get_nodes_state_error io r name node s)

  enable_keeps :
      (has : String → Bool) (r : Readings) (name : String) (mode : Bool) (node : Card)
      (s : With Opd Bus)
      → let node' = (enable io has r name mode node s).0.1 in
        (node'.opd_resets ≡ node.opd_resets)
        × (node'.opd_address ≡ node.opd_address)
        × (node'.status ≡ node.status)
  unfolding enable
  enable_keeps has r name mode node s = ground arith

  settle-IsBounded :
      (r : Readings) (name : String) (node : Card) (s : With Opd Bus)
      → node.opd_address ≢ 0
      → IsReady name node
      → IsBounded name (settle io r name node s).0.1
  unfolding settle
  settle-IsBounded r name node s ne h = ground arith

  -- Of two steps, what both keep and what the second makes of a card.
  then_card_keeps :
      (P Q : Card → Type 0) (first second : OnCard io) (node : Card) (s : With Opd Bus)
      → ((c : Card) → P c → Q c)
      → ((c : Card) (t : With Opd Bus) → P c → P (first c t).0.1)
      → ((c : Card) (t : With Opd Bus) → P c → Q (second c t).0.1)
      → P node
      → Q (then_card io first second node s).0.1
  then_card_keeps P Q first second node s weak keep keep' h =
      elim (Result-cases (first node s).0.0) [
        | inl (a, e) ↦ rw (e, then_card) (keep' (first node s).0.1 (first node s).1 (keep node s h))
        | inr (x, e) ↦ rw (e, then_card) (weak (first node s).0.1 (keep node s h))
      ]

  -- A card on the OPD.
  abbrev Monitored : String → Card → Type 0
  Monitored name node = IsReady name node × (node.opd_address ≢ 0)

  Monitored-weak : (name : String) (c : Card) → Monitored name c → IsBounded name c
  Monitored-weak name c h = h.0.bounded

  Monitored-same :
      (name : String) (c d : Card)
      → (d.opd_resets ≡ c.opd_resets) × (d.opd_address ≡ c.opd_address) × (d.status ≡ c.status)
      → Monitored name c
      → Monitored name d
  Monitored-same name c d e h = ground arith

  probe_keeps :
      (loops : ℕ) (name : String) (c : Card) (t : With Opd Bus)
      → Monitored name c
      → Monitored name (probe_step io loops name c t).0.1
  probe_keeps loops name c t h = ground arith

  enable_off_keeps :
      (has : String → Bool) (r : Readings) (name : String) (c : Card) (t : With Opd Bus)
      → Monitored name c
      → Monitored name (always_on_step io has r name c t).0.1
  enable_off_keeps has r name c t h =
      elim (Bool-cases (c.opd_always_on && same_state c.status off)) [
        | inl e ↦
            rw (e, always_on_step)
              (Monitored-same name c (enable io has r name false c t).0.1
                (enable_keeps has r name false c t) h)
        | inr e ↦ rw (e, always_on_step) h
      ]

  maintain-IsBounded :
      (has : String → Bool) (r : Readings) (loops : ℕ) (name : String) (node : Card)
      (s : With Opd Bus)
      → IsReady name node
      → IsBounded name (maintain_card io has r loops name node s).0.1
  unfolding maintain_card
  maintain-IsBounded has r loops name node s h = elim (Bool-cases (node.opd_address == 0)) [
    | inl e ↦ rw e h.bounded
    | inr e ↦ rw e (
        then_card_keeps (Monitored name) (IsBounded name) (probe_step io loops name)
          (then_card io (always_on_step io has r name) (settle io r name)) node s
          (Monitored-weak name) (λ c t m. probe_keeps loops name c t m)
          (λ c t m.
            then_card_keeps (Monitored name) (IsBounded name) (always_on_step io has r name)
              (settle io r name) c t (Monitored-weak name)
              (λ d u n. enable_off_keeps has r name d u n)
              (λ d u n. settle-IsBounded r name d u n.1 n.0) m)
          (h, ground arith))
  ]

  monitor-IsBounded :
      (r : Readings) (m : NodeManager) (s : With Opd Bus)
      → AllCards IsReady m.cards
      → AllCards IsBounded (monitor io r m s).0.1.cards
  unfolding monitor
  monitor-IsBounded r m s h = elim (Bool-cases (not_running io s.self.status)) [
    | inl e ↦ rw e (AllCards-mono m.cards (λ name node k. k.bounded) h)
    | inr e ↦ rw e (
        for_cards-AllCards IsReady IsBounded _ m.cards s (λ name node k. k.bounded)
          (λ name node t k. maintain-IsBounded (has_card m.cards) r _ name node t k) h)
  ]

  -- Whatever the OPD answers, and also where a pass raises, `on_loop` keeps the count of resets of
  -- every card at `max_co_resets` or below, if it was so before the pass and every card that is
  -- named c3 has the address 0; and these still have the address 0.
  pub on_loop_resets :
      (r : Readings) (m : NodeManager) (s : With Opd Bus)
      → AllCards IsBounded m.cards
      → AllCards IsBounded (on_loop io r m s).0.1.cards
  on_loop_resets r m s h = elim (Result-cases (for_cards io (update_status io r) m.cards s).0.0) [
    | inl (a, e) ↦ rw (on_loop_done io r m s e) (
        monitor-IsBounded r _ _ (
          for_cards_ok-AllCards IsBounded IsReady (update_status io r) m.cards s
            (update_status-IsReady r) h e))
    | inr (x, e) ↦ rw (on_loop_raised io r m s e) (
        for_cards-AllCards IsBounded IsBounded (update_status io r) m.cards s (λ name node k. k)
          (update_status-IsBounded r) h)
  ]
