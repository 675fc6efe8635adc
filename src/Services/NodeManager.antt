-- ===== src/Services/NodeManager.antt =====
-- oresat_c3/services/node_manager.py: the cards of the satellite, with the states of their nodes,
-- on top of the OPD. Times are microseconds of `monotonic()`.
pub mod Loop
pub mod Resets
pub mod Counts
pub mod Callbacks
mod Tests
use oresat_c3_software.Prelude.{
  ℕ, zero, suc, ◌+◌, ◌*◌, ◌%◌, String, str_eq, List, [], ◌∷◌, Bool, true, false, not, ◌&&◌, ◌||◌,
  Option, none, some, if◌then◌else◌, ltb, leb, ◌==◌, length, Result, ok, err, Exec, With, pure,
  when, choose, raise_if, gets, modify, ◌>>=◌, ◌>>◌, lookup, insert,
}
use oresat_c3_software.Drivers.I2c.{I2c}
use oresat_c3_software.Subsystems.Opd.Node.{OpdNode, OpdNodeState, Act, Kind, base, stm32, octavo}
use oresat_c3_software.Subsystems.Opd.Node
use oresat_c3_software.Subsystems.Opd.Methods
use oresat_c3_software.Subsystems.Opd
use oresat_c3_software.Subsystems.Opd.{
  Opd, OpdError, OpdState, key_error, attribute_error, type_error, with_node,
}

pub data NodeState : Type 0 where
  off boot on error not_found bootloader dead : NodeState

-- The values of `NodeState`.
abbrev pub node_state_value : NodeState → ℕ
node_state_value off = 0
node_state_value boot = 1
node_state_value on = 2
node_state_value error = 3
node_state_value not_found = 4
node_state_value bootloader = 5
node_state_value dead = 0xFF

abbrev pub same_state : NodeState → NodeState → Bool
same_state a b = node_state_value a == node_state_value b

-- `Card.processor`
pub data Processor : Type 0 where
  no_processor stm32_processor octavo_processor other_processor : Processor

abbrev pub is_stm32 : Processor → Bool
is_stm32 stm32_processor = true
is_stm32 _ = false

-- `Node`: the fields of `Card` (oresat_configs) that are used, and its own. An empty `child` is
-- `none`.
pub record Card : Type 0 where
  pub node_id : ℕ
  pub processor : Processor
  pub opd_address : ℕ
  pub opd_always_on : Bool
  pub child : Option String
  pub opd_resets : ℕ
  pub last_enable : ℕ
  pub status : NodeState

abbrev pub max_co_resets : ℕ
max_co_resets = 3

abbrev pub second : ℕ
second = 1_000_000

abbrev pub reset_timeout : ℕ
reset_timeout = 5 * second

abbrev pub stm32_boot_timeout : ℕ
stm32_boot_timeout = 10 * second

abbrev pub octavo_boot_timeout : ℕ
octavo_boot_timeout = 90 * second

abbrev pub hb_timeout : ℕ
hb_timeout = 5 * second

-- What one pass reads: the last heartbeat of a node (`node.node_status[name][2]`), `flight_mode`,
-- whether the CAN bus is up, and the readings of `monotonic()`, by the node and by the place of
-- the call.
pub data Place : Type 0 where
  dead_test boot_test boot_heartbeat heartbeat off_opd stamp : Place

pub record Readings : Type 0 where
  pub last_hb : String → ℕ
  pub flight_mode : Bool
  pub network_up : Bool
  pub mono : String → Place → ℕ

-- `_check_co_nodes_state`
unfoldable pub check_co_nodes_state : Readings → String → Card → NodeState
check_co_nodes_state r name node =
    if same_state node.status dead
    then (if ltb (r.last_hb name + reset_timeout) (r.mono name dead_test) then on else dead)
    else (let timeout =
          if is_stm32 node.processor then stm32_boot_timeout else octavo_boot_timeout in
        if ltb (r.mono name boot_test) (node.last_enable + timeout)
        then (if ltb (r.last_hb name + reset_timeout) (r.mono name boot_heartbeat)
            then boot
            else on)
        else (if same_state node.status error
            then error
            else (if r.flight_mode
                  && (r.network_up && ltb (r.last_hb name + reset_timeout) (r.mono name heartbeat))
                then error
                else on)))

abbrev pub stm32_class : Kind → Bool
stm32_class stm32 = true
stm32_class _ = false

module _ {Bus : Type 0} (io : I2c Bus) where
  abbrev pub Method : Type 0 → Type 0
  Method A = Exec OpdError (With Opd Bus) A

  -- `self.opd[name].in_bootloader_mode`
  unfoldable pub in_bootloader_mode : String → Method Bool
  in_bootloader_mode name = do
    kind ← with_node name (λ w. (w.self.kind, w))
    raise_if (not (stm32_class kind)) attribute_error
    with_node name (Methods.in_bootloader_mode io)

  -- The branch of an OPD node that is enabled.
  abbrev pub enabled_state : Readings → String → Card → Bool → NodeState
  enabled_state r name node boots =
      if boots
      then bootloader
      else (if node.node_id == 0 then on else check_co_nodes_state r name node)

  -- The branches of `_get_nodes_state` on the status of the OPD node.
  abbrev pub opd_node_state : Readings → String → Card → OpdNodeState → Method NodeState
  opd_node_state r name node status =
      if leb max_co_resets node.opd_resets then pure dead else (elim status [
        | OpdNodeState.fault ↦ pure error
        | OpdNodeState.not_found ↦ pure not_found
        | OpdNodeState.enabled ↦ do
          boots ← choose (is_stm32 node.processor) (in_bootloader_mode name) (pure false)
          pure (enabled_state r name node boots)
        | OpdNodeState.disabled ↦ pure off
        | OpdNodeState.dead ↦ pure node.status
      ])

  -- `_get_nodes_state`
  unfoldable pub get_nodes_state : Readings → String → Card → Method NodeState
  get_nodes_state r name node s =
      if node.opd_address == 0
      then (ok (if ltb (r.last_hb name + hb_timeout) (r.mono name off_opd) then off else on), s)
      else (elim s.self.status [
        | OpdState.disabled ↦ (ok not_found, s)
        | OpdState.dead ↦ (ok dead, s)
        | _ ↦ (with_node name (Methods.status io) >>= opd_node_state r name node) s
      ])

  -- `node.enable(bootloader_mode)`: only the class of STM32 nodes takes the argument.
  unfoldable pub enable_with_mode : String → Bool → Method (Unit {0})
  enable_with_mode name mode = do
    kind ← with_node name (λ w. (w.self.kind, w))
    raise_if (not (stm32_class kind)) type_error
    with_node name (λ w. (tt, (Methods.enable io mode w).1))

  -- `self.opd[name].enable()`, `.disable()`, `.probe(True)` and `.reset(1)`
  abbrev pub opd_enable : String → Method (Unit {0})
  opd_enable name = with_node name (λ w. (tt, (Methods.enable io false w).1))

  abbrev pub opd_disable : String → Method (Unit {0})
  opd_disable name = with_node name (λ w. (tt, (Methods.disable io w).1))

  abbrev pub opd_probe : String → Method (Unit {0})
  opd_probe name = with_node name (λ w. (tt, (Methods.probe io true w).1))

  abbrev pub opd_reset : String → Method (Unit {0})
  opd_reset name = with_node name (λ w. (tt, (Methods.reset io 1 w).1))

  -- A method of a card may change the card, and leaves it changed where it raises.
  abbrev pub OnCard : Type 0
  OnCard = Card → With Opd Bus → (Result OpdError (Unit {0}) × Card) × With Opd Bus

  abbrev pub finish :
      Card
      → Card
      → Result OpdError (Unit {0}) × With Opd Bus
      → (Result OpdError (Unit {0}) × Card) × With Opd Bus
  finish raised done (ok _, s) = ((ok tt, done), s)
  finish raised done (err e, s) = ((err e, raised), s)

  -- The call of `enable` for the card's child, by the mode that its parent passes.
  abbrev pub for_child : Option String → (String → Method (Unit {0})) → Method (Unit {0})
  for_child none act = pure tt
  for_child (some child) act = act child

  -- `child_node = self._data[node.child] if node.child else None`: a child that is not a card.
  abbrev pub child_missing : (String → Bool) → Option String → Bool
  child_missing has none = false
  child_missing has (some child) = not (has child)

  -- `enable`, for the card of that name; `has` says which names are cards.
  unfoldable pub enable : (String → Bool) → Readings → String → Bool → OnCard
  enable has r name mode node s =
      if child_missing has node.child
      then ((err key_error, node), s)
      else (if node.opd_address == 0 || not (same_state node.status off)
          then ((ok tt, node), s)
          else (finish node (record node { last_enable = r.mono name stamp })
              (choose (is_stm32 node.processor)
                (do
                  enable_with_mode name mode
                  for_child node.child (λ child. enable_with_mode child mode))
                (do opd_enable name; for_child node.child opd_enable) s)))

  -- `disable`, for the card of that name.
  unfoldable pub disable : (String → Bool) → String → OnCard
  disable has name node s =
      if child_missing has node.child
      then ((err key_error, node), s)
      else (if node.opd_address == 0 || (same_state node.status off || same_state node.status dead)
          then ((ok tt, node), s)
          else finish node node ((do for_child node.child opd_disable; opd_disable name) s))

  -- `_set_node_status`, for the card of that name.
  unfoldable pub set_node_status : (String → Bool) → Readings → String → ℕ → OnCard
  set_node_status has r name state node s =
      if state == node_state_value on
      then enable has r name false node s
      else (if state == node_state_value off
          then disable has name node s
          else (if state == node_state_value bootloader
              then enable has r name true node s
              else ((ok tt, node), s)))
