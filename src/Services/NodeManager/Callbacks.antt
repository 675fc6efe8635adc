-- ===== src/Services/NodeManager/Callbacks.antt =====
-- oresat_c3/services/node_manager.py: the callbacks for the OPD subsystem and for the UART. The dict
-- of the names by their OPD addresses is a function.
use oresat_c3_software.Prelude.{
  ℕ, String, [], ◌∷◌, Bool, true, false, not, ◌&&◌, ◌⊎◌, inl, inr, refl, ap, ◌≡◌, ◌≢◌, arith,
  Bool-cases, Option, none, some, if◌then◌else◌, ◌==◌, Result, ok, err, Exec, With, lookup,
}
use oresat_c3_software.Drivers.I2c.{I2c}
use oresat_c3_software.Subsystems.Opd
use oresat_c3_software.Subsystems.Opd.{Opd, OpdError, OpdState, opd_state_value, key_error}
use oresat_c3_software.Subsystems.Opd.Status.{disable_lem, SamePower}
use oresat_c3_software.Services.NodeManager.{NodeState, not_found, same_state, Card}
use oresat_c3_software.Services.NodeManager.Loop.{Cards}

-- `_get_opd_status`
unfoldable pub get_opd_status : Opd → ℕ
get_opd_status opd = opd_state_value opd.status

abbrev pub or_key_error : {A : Type 0} → Option A → Result OpdError A
or_key_error none = err key_error
or_key_error (some a) = ok a

-- The name of a card by itself or by its OPD address (`isinstance(name, int)`).
pub data CardName : Type 0 where
  by_name : String → CardName
  by_addr : ℕ → CardName

abbrev pub resolve : (ℕ → Option String) → CardName → Result OpdError String
resolve opd_addr_to_name (by_name name) = ok name
resolve opd_addr_to_name (by_addr addr) = or_key_error (opd_addr_to_name addr)

abbrev pub status_of : Cards → Result OpdError String → Result OpdError NodeState
status_of cards (err e) = err e
status_of cards (ok name) = elim (lookup name cards) [
  | none ↦ err key_error
  | some node ↦ ok node.status
]

-- `node_status`
unfoldable pub node_status : (ℕ → Option String) → Cards → CardName → Result OpdError NodeState
node_status opd_addr_to_name cards name = status_of cards (resolve opd_addr_to_name name)

-- The loop over the cards when the OPD has been switched off.
abbrev pub lose : Card → Card
lose node =
    if not (node.opd_address == 0) && not (same_state node.status not_found)
    then record node { status = not_found }
    else node

unfoldable pub lose_all : Cards → Cards
lose_all [] = []
lose_all ((name, node) ∷ cards) = (name, lose node) ∷ lose_all cards

-- The loop over the cards before the OPD is switched on, by the readings of `monotonic()`.
unfoldable pub stamp_all : (String → ℕ) → Cards → Cards
stamp_all mono [] = []
stamp_all mono ((name, node) ∷ cards) =
    (name, record node { last_enable = mono name }) ∷ stamp_all mono cards

abbrev pub is_disabled : OpdState → Bool
is_disabled OpdState.disabled = true
is_disabled _ = false

module _ {Bus : Type 0} (io : I2c Bus) where
  abbrev pub Outcome : Type 0
  Outcome = (Result OpdError (Unit {0}) × Cards) × With Opd Bus

  abbrev pub after_disable : Cards → Result OpdError (Unit {0}) × With Opd Bus → Outcome
  after_disable cards (ok a, s) = ((ok tt, lose_all cards), s)
  after_disable cards (err e, s) = ((err e, cards), s)

  abbrev pub with_cards : Cards → Result OpdError (Unit {0}) × With Opd Bus → Outcome
  with_cards cards (r, s) = ((r, cards), s)

  -- `_set_opd_status`
  unfoldable pub set_opd_status : (String → ℕ) → ℕ → Cards → With Opd Bus → Outcome
  set_opd_status mono value cards s =
      if value == 0
      then after_disable cards (Opd.disable io s)
      else (if value == 1
          then with_cards (if is_disabled s.self.status then stamp_all mono cards else cards)
              (Opd.enable io s)
          else ((ok tt, cards), s))

  -- The address of the card that has the UART.
  abbrev pub addr_of : Cards → Option String → Exec OpdError (With Opd Bus) ℕ
  addr_of cards none s = (err key_error, s)
  addr_of cards (some name) s = elim (lookup name cards) [
    | none ↦ (err key_error, s)
    | some node ↦ (ok node.opd_address, s)
  ]

  abbrev pub uart_addr : Cards → Option String → Exec OpdError (With Opd Bus) ℕ
  uart_addr cards none s = (ok 0, s)
  uart_addr cards (some name) s =
      let (r, t) = Opd.get_uart_node io s in
      elim r [ err e ↦ (err e, t) | ok selected ↦ addr_of cards selected t ]

  -- `_get_uart_node_select`, which reads the property twice.
  unfoldable pub get_uart_node_select : Cards → Exec OpdError (With Opd Bus) ℕ
  get_uart_node_select cards s =
      let (r, t) = Opd.get_uart_node io s in
      elim r [ err e ↦ (err e, t) | ok selected ↦ uart_addr cards selected t ]

  abbrev pub select_name : Option String → Exec OpdError (With Opd Bus) (Unit {0})
  select_name none s = (ok tt, s)
  select_name (some name) s = Opd.set_uart_node io (some name) s

  -- `_set_uart_node_select`
  unfoldable pub set_uart_node_select :
      (ℕ → Option String) → ℕ → Exec OpdError (With Opd Bus) (Unit {0})
  set_uart_node_select opd_addr_to_name value s =
      if value == 0 then Opd.set_uart_node io none s else select_name (opd_addr_to_name value) s

-- Every card is as it was, or it is on the OPD and lost.
abbrev pub AllLost : Cards → Cards → Type 0
AllLost [] [] = Unit
AllLost ((name, node) ∷ cards) ((name', node') ∷ cards') =
    ((name' ≡ name)
      × (((node.opd_address ≡ 0) × (node' ≡ node))
          ⊎ ((node.opd_address ≢ 0) × (node' ≡ record node { status = not_found }))))
    × AllLost cards cards'
AllLost _ _ = ⊥

same_state_sound : (st : NodeState) → same_state st not_found ≡ true → st ≡ not_found
same_state_sound st h = ground arith

lose_lem :
    (node : Card)
    → ((node.opd_address ≡ 0) × (lose node ≡ node))
      ⊎ ((node.opd_address ≢ 0) × (lose node ≡ record node { status = not_found }))
lose_lem node = elim (Bool-cases (same_state node.status not_found)) [
  | inl lost ↦ ground (arith, same_state_sound node.status lost)
  | inr other ↦ ground arith
]

lose_all-AllLost : (cards : Cards) → AllLost cards (lose_all cards)
unfolding lose_all
lose_all-AllLost [] = tt
lose_all-AllLost ((name, node) ∷ cards) = ((refl, lose_lem node), lose_all-AllLost cards)

module _ {Bus : Type 0} (io : I2c Bus) where
  after_disable_lem :
      (cards : Cards) (s : With Opd Bus) {r : Result OpdError (Unit {0})}
      → (Opd.disable io s).0 ≡ r
      → after_disable io cards (Opd.disable io s) ≡ after_disable io cards (r, (Opd.disable io s).1)
  after_disable_lem cards s h =
      ap (λ (t : Result OpdError (Unit {0})). after_disable io cards (t, (Opd.disable io s).1)) h

  -- Writing 0 to the status of the OPD either returns, and then the OPD is off, with its enable
  -- pin released and no UART node, and every card on the OPD is NOT_FOUND, with all else about it
  -- and all other cards as they were; or it raises, and then a UART node was selected, and no card
  -- and neither the state nor the pin of the OPD has changed.
  pub set_opd_status_zero :
      (mono : String → ℕ) (cards : Cards) (s : With Opd Bus)
      → let ((r, cards'), s') = set_opd_status io mono 0 cards s in
        ((r ≡ ok tt)
          × (s'.self.status ≡ OpdState.disabled)
          × (s'.self.not_enable_pin ≡ true)
          × (s'.self.uart_node ≡ none)
          × AllLost cards cards')
        ⊎ ((e : OpdError) × (r ≡ err e)
            × (cards' ≡ cards)
            × SamePower s s'
            × (s.self.uart_node ≢ none))
  unfolding set_opd_status
  set_opd_status_zero mono cards s = elim (disable_lem io s) [
    | inl (returned, off, pin, uart, resets) ↦
        rw (after_disable_lem cards s returned) (inl (refl, off, pin, uart, lose_all-AllLost cards))
    | inr (e, raised, same, selected) ↦
        rw (after_disable_lem cards s raised) (inr (e, refl, refl, same, selected))
  ]
