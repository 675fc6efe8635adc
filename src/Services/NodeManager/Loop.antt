-- ===== src/Services/NodeManager/Loop.antt =====
-- oresat_c3/services/node_manager.py: the loop of the service, and its SDO callbacks.
use oresat_c3_software.Prelude.{
  ℕ, ◌+◌, ◌%◌, String, str_eq, List, [], ◌∷◌, Bool, true, false, ◌&&◌, ◌||◌, if◌then◌else◌, ◌==◌,
  length, Result, ok, err, With, when, ◌>>=◌,
}
use oresat_c3_software.Drivers.I2c.{I2c}
use oresat_c3_software.Subsystems.Opd.Methods
use oresat_c3_software.Subsystems.Opd.{Opd, OpdError, OpdState, with_node}
use oresat_c3_software.Services.NodeManager.{
  NodeState, off, boot, on, error, not_found, dead, same_state, Card, Readings, stamp, OnCard,
  finish, get_nodes_state, enable, opd_disable, opd_probe, opd_reset,
}

abbrev pub Cards : Type 0
Cards = List (String × Card)

-- `name in self._data`
unfoldable pub has_card : Cards → String → Bool
has_card [] name = false
has_card ((k, node) ∷ cards) name = str_eq k name || has_card cards name

-- The counts that a pass writes to the OD.
pub record Counts : Type 0 where
  pub nodes_off : ℕ
  pub nodes_booting : ℕ
  pub nodes_on : ℕ
  pub nodes_with_errors : ℕ
  pub nodes_not_found : ℕ
  pub nodes_dead : ℕ

-- `total += int(state == …)`
abbrev pub count_if : NodeState → NodeState → ℕ → ℕ
count_if state wanted n = if same_state state wanted then n + 1 else n

abbrev pub count : NodeState → Counts → Counts
count state c = record {
  nodes_off = count_if state off c.nodes_off;
  nodes_booting = count_if state boot c.nodes_booting;
  nodes_on = count_if state on c.nodes_on;
  nodes_with_errors = count_if state error c.nodes_with_errors;
  nodes_not_found = count_if state not_found c.nodes_not_found;
  nodes_dead = count_if state dead c.nodes_dead;
}

abbrev pub no_counts : Counts
no_counts = record {
  nodes_off = 0;
  nodes_booting = 0;
  nodes_on = 0;
  nodes_with_errors = 0;
  nodes_not_found = 0;
  nodes_dead = 0;
}

-- The service: `loops` is `_loops` + 1, which starts at 0.
pub record NodeManager : Type 0 where
  pub cards : Cards
  pub loops : ℕ
  pub counts : Counts

module _ {Bus : Type 0} (io : I2c Bus) where
  -- The rest of a loop behind one card.
  abbrev pub after_card :
      String
      → Card
      → (Result OpdError (Unit {0}) × Cards) × With Opd Bus
      → (Result OpdError (Unit {0}) × Cards) × With Opd Bus
  after_card name node ((r, cards), s) = ((r, (name, node) ∷ cards), s)

  -- A loop over the cards; a raise ends it, and the cards behind stay as they were.
  unfoldable pub for_cards :
      (String → OnCard io)
      → Cards
      → With Opd Bus
      → (Result OpdError (Unit {0}) × Cards) × With Opd Bus
  for_cards act [] s = ((ok tt, []), s)
  for_cards act ((name, node) ∷ cards) s =
      let ((r, node'), s') = act name node s in
      elim r [
        | ok _ ↦ after_card name node' (for_cards act cards s')
        | err e ↦ ((err e, (name, node') ∷ cards), s')
      ]

  abbrev pub with_state :
      Card
      → Result OpdError NodeState × With Opd Bus
      → (Result OpdError (Unit {0}) × Card) × With Opd Bus
  with_state node (ok st, s) = ((ok tt, record node { status = st }), s)
  with_state node (err e, s) = ((err e, node), s)

  -- The body of the first loop of `on_loop`.
  unfoldable pub update_status : Readings → String → OnCard io
  update_status r name node s =
      if str_eq name "c3"
      then ((ok tt, node), s)
      else with_state node (get_nodes_state io r name node s)

  -- What the first loop comes to behind one card.
  abbrev pub with_card :
      String
      → Card
      → (Result OpdError Counts × Cards) × With Opd Bus
      → (Result OpdError Counts × Cards) × With Opd Bus
  with_card name node ((r, cards), s) = ((r, (name, node) ∷ cards), s)

  -- The first loop of `on_loop`, which counts the states that it sets; `c` are the counts of the
  -- cards before.
  unfoldable pub update_cards :
      Readings → Cards → Counts → With Opd Bus → (Result OpdError Counts × Cards) × With Opd Bus
  update_cards r [] c s = ((ok c, []), s)
  update_cards r ((name, node) ∷ cards) c s =
      let ((res, node'), s') = update_status r name node s in
      let c' = if str_eq name "c3" then c else count node'.status c in
      elim res [
        | ok _ ↦ with_card name node' (update_cards r cards c' s')
        | err e ↦ ((err e, (name, node') ∷ cards), s')
      ]

  -- The reset of a node with an error.
  abbrev pub reset_node : Readings → String → OnCard io
  reset_node r name node s =
      finish io node
        (record node { last_enable = r.mono name stamp; opd_resets = node.opd_resets + 1 })
        (opd_reset io name s)

  -- `if info.status == DEAD and is_enabled: … elif ERROR: … elif ON or OFF: …`
  unfoldable pub settle : Readings → String → OnCard io
  settle r name node s = elim node.status [
    | dead ↦ finish io node node (
        (do powered ← with_node name (Methods.is_enabled io); when powered (opd_disable io name)) s)
    | error ↦ reset_node r name node s
    | on ↦ ((ok tt, record node { opd_resets = 0 }), s)
    | off ↦ ((ok tt, record node { opd_resets = 0 }), s)
    | _ ↦ ((ok tt, node), s)
  ]

  -- Two steps of the body of a loop, of which the first may raise.
  abbrev pub then_card : OnCard io → OnCard io → OnCard io
  then_card first second node s =
      let ((r, node'), s') = first node s in
      elim r [ ok _ ↦ second node' s' | err e ↦ ((err e, node'), s') ]

  -- Every tenth loop a node that was not found is probed for.
  abbrev pub probe_step : ℕ → String → OnCard io
  probe_step loops name node s =
      finish io node node
        (when (loops % 10 == 0 && same_state node.status not_found) (opd_probe io name) s)

  -- A node that is to be always on is enabled.
  abbrev pub always_on_step : (String → Bool) → Readings → String → OnCard io
  always_on_step has r name node s =
      if node.opd_always_on && same_state node.status off
      then enable io has r name false node s
      else ((ok tt, node), s)

  abbrev pub maintain : (String → Bool) → Readings → ℕ → String → OnCard io
  maintain has r loops name =
      then_card (probe_step loops name) (then_card (always_on_step has r name) (settle r name))

  -- The body of the second loop of `on_loop`.
  unfoldable pub maintain_card : (String → Bool) → Readings → ℕ → String → OnCard io
  maintain_card has r loops name node s =
      if node.opd_address == 0 then ((ok tt, node), s) else maintain has r loops name node s

  -- The OPD is off or dead: there is nothing to monitor.
  abbrev pub not_running : OpdState → Bool
  not_running OpdState.dead = true
  not_running OpdState.disabled = true
  not_running _ = false

  -- The part of `on_loop` behind the counts; `_loops` is `m.loops`, with the 1 added.
  unfoldable pub monitor :
      Readings
      → NodeManager
      → With Opd Bus
      → (Result OpdError (Unit {0}) × NodeManager) × With Opd Bus
  monitor r m s =
      if not_running s.self.status
      then ((ok tt, record m { loops = 0 }), s)
      else (let loops = if m.counts.nodes_not_found == length m.cards then 0 else m.loops in
          let ((res, cards), s') = for_cards (maintain_card (has_card m.cards) r loops) m.cards s in
          ((res, record m { cards = cards; loops = loops + 1 }), s'))

  -- What `on_loop` does behind its first loop: it writes the counts, where the loop has not raised.
  abbrev pub behind_counts :
      Readings
      → NodeManager
      → (Result OpdError Counts × Cards) × With Opd Bus
      → (Result OpdError (Unit {0}) × NodeManager) × With Opd Bus
  behind_counts r m ((ok counts, cards), s) =
      monitor r (record m { cards = cards; counts = counts }) s
  behind_counts r m ((err e, cards), s) =
      ((err e, record m { cards = cards; loops = m.loops + 1 }), s)

  -- `on_loop`. The field `loops` holds `_loops` + 1 between the passes, so here it is `_loops`.
  unfoldable pub on_loop :
      Readings
      → NodeManager
      → With Opd Bus
      → (Result OpdError (Unit {0}) × NodeManager) × With Opd Bus
  on_loop r m s = behind_counts r m (update_cards r m.cards no_counts s)
