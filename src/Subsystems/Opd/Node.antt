-- ===== src/Subsystems/Opd/Node.antt =====
-- oresat_c3/subsystems/opd.py, the classes OpdNode, OpdStm32Node and OpdOctavoNode. A node is a
-- record, and its class is the field `kind`, on which the overridden methods branch. A method
-- acts on the node and the I2C bus. Logging and the reset delay have no counterpart.
use oresat_c3_software.Prelude.{
  ℕ, bit_or, bit_mask, String, Bool, true, false, ok, err, Exec, With, if◌then◌else◌, Result,
}
use oresat_c3_software.Drivers.Max7310.{Max7310, Max7310Error}
use oresat_c3_software.Drivers.Max7310

pub data OpdNodeState : Type 0 where
  disabled enabled fault dead not_found : OpdNodeState

abbrev pub is_not_found : OpdNodeState → Bool
is_not_found not_found = true
is_not_found _ = false

abbrev pub is_dead : OpdNodeState → Bool
is_dead dead = true
is_dead _ = false

-- The classes of nodes.
pub data Kind : Type 0 where
  base stm32 octavo : Kind

pub record OpdNode : Type 0 where
  pub kind : Kind
  pub addr : ℕ
  pub name : String
  pub mock : Bool
  pub max7310 : Max7310
  pub status : OpdNodeState

abbrev pub timeout_config : ℕ
timeout_config = 1

abbrev pub not_fault_pin : ℕ
not_fault_pin = 2

abbrev pub enable_pin : ℕ
enable_pin = 3

abbrev pub cb_reset_pin : ℕ
cb_reset_pin = 4

abbrev pub i2c_scl_pin : ℕ
i2c_scl_pin = 0

abbrev pub i2c_sda_pin : ℕ
i2c_sda_pin = 1

abbrev pub boot_pin : ℕ
boot_pin = 5

abbrev pub uart_pin : ℕ
uart_pin = 7

abbrev pub sys_boot2 : ℕ
sys_boot2 = 0

-- `__init__`: the node's chip, or the error that its constructor raises.
unfoldable pub new_node : Kind → ℕ → String → ℕ → Bool → Result Max7310Error OpdNode
unfolding Max7310.new_max7310
new_node kind bus name addr mock = elim (Max7310.new_max7310 bus addr mock) [
  | ok chip ↦ ok (record {
    kind = kind;
    addr = addr;
    name = name;
    mock = mock;
    max7310 = chip;
    status = not_found;
  })
  | err e ↦ err e
]

-- The input pins that `configure` asks for, by class.
abbrev pub inputs : Kind → ℕ
inputs stm32 =
    bit_or (bit_or (bit_mask i2c_scl_pin) (bit_mask i2c_sda_pin)) (bit_mask not_fault_pin)
inputs _ = bit_mask not_fault_pin

abbrev pub Node : Type 0 → Type 0
Node Bus = With OpdNode Bus

-- A method, which raises nothing.
abbrev pub Act : Type 0 → Type 0 → Type 0
Act Bus A = Node Bus → A × Node Bus

-- The inside of a `try` block.
abbrev pub Try : Type 0 → Type 0 → Type 0
Try Bus A = Exec Max7310Error (Node Bus) A

module _ {Bus : Type 0} where
  abbrev pub chip : {A : Type 0} → Exec Max7310Error (With Max7310 Bus) A → Try Bus A
  chip m w =
      let (r, s) = m (record { self = w.self.max7310; bus = w.bus }) in
      (r, record { self = record w.self { max7310 = s.self }; bus = s.bus })

  abbrev pub call : {A : Type 0} → Act Bus A → Try Bus A
  call act w = let (a, w') = act w in (ok a, w')

  -- `try: … except Max7310Error: …`
  abbrev pub except : {A : Type 0} → Try Bus A → Act Bus A → Act Bus A
  except body handler w = let (r, w') = body w in elim r [ ok a ↦ (a, w') | err e ↦ handler w' ]

  abbrev pub set_status : OpdNodeState → Act Bus (Unit {0})
  set_status st w = (tt, record w { self = record w.self { status = st } })

  -- The handler of `is_enabled` and `fault`: a fault, unless the node is not found.
  abbrev pub fault_if_found : {A : Type 0} → A → Act Bus A
  fault_if_found a w = (a, if is_not_found w.self.status then w else (set_status fault w).1)

  -- `return self._status` behind the statements of `act`.
  abbrev pub then_status : Act Bus (Unit {0}) → Act Bus OpdNodeState
  then_status act w = let w' = (act w).1 in (w'.self.status, w')
