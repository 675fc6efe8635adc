-- ===== src/Subsystems/Opd.antt =====
-- oresat_c3/subsystems/opd.py, the class Opd: the OreSat Power Domain. Its methods act on the
-- object and the I2C bus; the GPIO of olaf is the level that was last written to the pin, and
-- the level that is read from the fault pin is an argument, one for each read.
pub mod Node
pub mod Methods
pub mod Status
pub mod Reset
pub mod Reach
pub mod Nodes
pub mod Power
mod Tests
use oresat_c3_software.Prelude.{
  ℕ, zero, suc, ◌+◌, String, List, [], ◌∷◌, Bool, true, false, not, ◌||◌, Option, none, some,
  if◌then◌else◌, Result, ok, err, Exec, With, pure, raise, raise_if, gets, modify, when, ◌>>=◌,
  ◌>>◌, lookup, insert,
}
use oresat_c3_software.Drivers.I2c.{I2c}
use Node.{OpdNode, OpdNodeState, Kind, base, is_not_found, Act}
use Methods

pub data OpdState : Type 0 where
  disabled enabled fault dead : OpdState

abbrev pub is_fault : OpdState → Bool
is_fault fault = true
is_fault _ = false

abbrev pub is_dead : OpdState → Bool
is_dead dead = true
is_dead _ = false

abbrev pub is_running : OpdState → Bool
is_running enabled = true
is_running fault = true
is_running _ = false

-- `OpdState.value`
abbrev pub opd_state_value : OpdState → ℕ
opd_state_value disabled = 0
opd_state_value enabled = 1
opd_state_value fault = 2
opd_state_value dead = 3

-- What a method of `Opd` can raise: OpdError, KeyError for a name that is not in `_nodes`, and
-- AttributeError or TypeError for a method or an argument that the class of a node does not have.
pub data OpdError : Type 0 where
  considered_dead key_error attribute_error type_error : OpdError

pub record Opd : Type 0 where
  pub not_enable_pin : Bool
  pub nodes : List (String × OpdNode)
  pub status : OpdState
  pub uart_node : Option String
  pub resets : ℕ

-- `__init__`
unfoldable pub new_opd : Opd
new_opd = record {
  not_enable_pin = true;
  nodes = [];
  status = disabled;
  uart_node = none;
  resets = 0;
}

-- `__setitem__`
unfoldable pub set_item : String → OpdNode → Opd → Opd
set_item name node opd = record opd { nodes = insert name node opd.nodes }

abbrev pub count_of : Bool → ℕ
count_of true = 1
count_of false = 0

-- The class has the UART methods.
abbrev pub has_uart : Kind → Bool
has_uart base = false
has_uart _ = true

module _ {Bus : Type 0} where
  -- A loop over the nodes, each of which may use the bus and change; the numbers add up.
  unfoldable pub for_nodes :
      Act Bus ℕ → List (String × OpdNode) → Bus → ℕ × List (String × OpdNode) × Bus
  for_nodes act [] b = (0, [], b)
  for_nodes act ((name, node) ∷ rest) b =
      let (n, w) = act (record { self = node; bus = b }) in
      let (m, rest', b') = for_nodes act rest w.bus in (n + m, (name, w.self) ∷ rest', b')

  abbrev pub each_node : {E : Type 0} → Act Bus ℕ → Exec E (With Opd Bus) ℕ
  each_node act s =
      let (n, nodes, b) = for_nodes act s.self.nodes s.bus in
      (ok n, record { self = record s.self { nodes = nodes }; bus = b })

  -- `self._nodes[name].method()`
  unfoldable pub with_node : {A : Type 0} → String → Act Bus A → Exec OpdError (With Opd Bus) A
  with_node name act s = elim (lookup name s.self.nodes) [
    | none ↦ (err key_error, s)
    | some node ↦
        let (a, w) = act (record { self = node; bus = s.bus }) in
        (
          ok a,
          record { self = record s.self { nodes = insert name w.self s.self.nodes }; bus = w.bus },
        )
  ]

  -- `self._nodes[name]` of a class with UART methods
  unfoldable pub uart_method : String → Act Bus (Unit {0}) → Exec OpdError (With Opd Bus) (Unit {0})
  unfolding with_node
  uart_method name act s = elim (lookup name s.self.nodes) [
    | none ↦ (err key_error, s)
    | some node ↦ if has_uart node.kind then with_node name act s else (err attribute_error, s)
  ]

module _ {Bus : Type 0} (io : I2c Bus) where
  abbrev pub Method : Type 0 → Type 0
  Method A = Exec OpdError (With Opd Bus) A

  abbrev pub set_status : OpdState → Method (Unit {0})
  set_status st = modify (λ s. record s { self = record s.self { status = st } })

  abbrev pub write_not_enable : Bool → Method (Unit {0})
  write_not_enable level =
      modify (λ s. record s { self = record s.self { not_enable_pin = level } })

  abbrev probe_count : Bool → Act Bus ℕ
  probe_count reset w = let (found, w') = Methods.probe io reset w in (count_of found, w')

  -- `scan`
  unfoldable pub scan : Bool → Method ℕ
  scan reset = each_node (probe_count reset)

  -- `enable`
  unfoldable pub enable : Method (Unit {0})
  enable = do
    status ← gets (λ s. s.self.status)
    raise_if (is_dead status) considered_dead
    when (not (is_running status)) do write_not_enable false; set_status enabled; scan true; pure tt

  -- `_uart_disconnect`
  unfoldable pub uart_disconnect : Method (Unit {0})
  uart_disconnect = do
    selected ← gets (λ s. s.self.uart_node)
    elim selected [
      | none ↦ pure tt
      | some name ↦ do
        uart_method name (Methods.disable_uart io)
        modify (λ s. record s { self = record s.self { uart_node = none } })
    ]

  abbrev pub disable_found : Act Bus ℕ
  disable_found w =
      let (status, w') = Methods.status io w in
      if is_not_found status then (0, w') else (1, (Methods.disable io w').1)

  -- `disable`
  unfoldable pub disable : Method (Unit {0})
  disable = do
    each_node disable_found
    uart_disconnect
    write_not_enable true
    modify (λ s. record s { self = record s.self { status = disabled; resets = 0 } })

  -- The body of the loop of `reset`; `fault_pin` is the level read from the fault pin.
  unfoldable pub reset_once : Bool → Method (Unit {0})
  reset_once fault_pin = do disable; enable; when (not fault_pin) (set_status fault)

  -- The loop of `reset`, with the tries that are left; `pins i` is the level of the fault pin
  -- that the i-th try reads.
  unfoldable pub reset_loop : ℕ → ℕ → (ℕ → Bool) → Method (Unit {0})
  reset_loop zero i pins s = (ok tt, s)
  reset_loop (suc tries) i pins s = elim (is_fault s.self.status) [
    | false ↦ (ok tt, s)
    | true ↦ (reset_once (pins i) >>= λ _. reset_loop tries (suc i) pins) s
  ]

  -- `reset`
  unfoldable pub reset : ℕ → (ℕ → Bool) → Method (Unit {0})
  reset tries pins = do
    reset_loop tries 0 pins
    status ← gets (λ s. s.self.status)
    when (is_fault status) (do disable; set_status dead)

  -- The property `uart_node`.
  unfoldable pub get_uart_node : Method (Option String)
  get_uart_node = do
    selected ← gets (λ s. s.self.uart_node)
    elim selected [
      | none ↦ pure tt
      | some name ↦ do
        status ← with_node name (Methods.status io)
        when (is_not_found status) uart_disconnect
    ]
    gets (λ s. s.self.uart_node)

  -- The setter of `uart_node`.
  unfoldable pub set_uart_node : Option String → Method (Unit {0})
  set_uart_node none = uart_disconnect
  set_uart_node (some name) = do
    uart_disconnect
    status ← with_node name (Methods.status io)
    when (not (is_not_found status)) do
      uart_method name (Methods.enable_uart io)
      modify (λ s. record s { self = record s.self { uart_node = some name } })
