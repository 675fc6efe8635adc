-- ===== src/Subsystems/Opd/Reach.antt =====
-- The states that the OPD subsystem can reach by calls of its methods, in any order and with any
-- answers of the bus.
use oresat_c3_software.Prelude.{
  ℕ, String, ◌≡◌, ◌⊎◌, inl, inr, refl, arith, Bool, Option, none, some, With, Option-cases,
}
use oresat_c3_software.Drivers.I2c.{I2c}
use oresat_c3_software.Subsystems.Opd.Node.{Act, OpdNode}
use oresat_c3_software.Subsystems.Opd.Methods
use oresat_c3_software.Subsystems.Opd.{
  Opd, OpdState, disabled, enabled, new_opd, set_item, with_node, scan, enable, disable, reset,
  uart_disconnect, get_uart_node, set_uart_node,
}
use oresat_c3_software.Subsystems.Opd.Status.{
  SamePower, with_node-SamePower, uart_method-SamePower, scan-SamePower, uart_disconnect-SamePower,
  disable_lem, enable_lem,
}
use oresat_c3_software.Subsystems.Opd.Reset.{reset_unless_fault}

-- A call of a method of the subsystem, or of a method of one of its nodes.
pub data Step {Bus : Type 0} (io : I2c Bus) : With Opd Bus → With Opd Bus → Type 0 where
  enable_call : (s : With Opd Bus) → Step io s (enable io s).1
  disable_call : (s : With Opd Bus) → Step io s (disable io s).1
  reset_call :
      (s : With Opd Bus) (tries : ℕ) (pins : ℕ → Bool) → Step io s (reset io tries pins s).1
  scan_call : (s : With Opd Bus) (r : Bool) → Step io s (scan io r s).1
  get_uart_call : (s : With Opd Bus) → Step io s (get_uart_node io s).1
  set_uart_call : (s : With Opd Bus) (name : Option String) → Step io s (set_uart_node io name s).1
  node_call :
      (s : With Opd Bus) (name : String) (act : Act Bus (Unit {0}))
      → Step io s (with_node name act s).1
  add_node :
      (s : With Opd Bus) (name : String) (node : OpdNode)
      → Step io s (record s { self = set_item name node s.self })

pub data Reach {Bus : Type 0} (io : I2c Bus) (s : With Opd Bus) : With Opd Bus → Type 0 where
  here : Reach io s s
  next : {t u : With Opd Bus} → Reach io s t → Step io t u → Reach io s u

abbrev pub IsOffOrOn : OpdState → Type 0
IsOffOrOn st = (st ≡ disabled) ⊎ (st ≡ enabled)

module _ {Bus : Type 0} (io : I2c Bus) where
  get_uart_node-SamePower : (s : With Opd Bus) → SamePower s (get_uart_node io s).1
  unfolding get_uart_node
  get_uart_node-SamePower s = elim (Option-cases s.self.uart_node) [
    | inl e ↦ ground arith
    | inr (name, e) ↦ ground (
      arith,
      with_node-SamePower name (Methods.status io) s,
      uart_disconnect-SamePower io (with_node name (Methods.status io) s).1,
    )
  ]

  set_uart_node-SamePower :
      (name : Option String) (s : With Opd Bus) → SamePower s (set_uart_node io name s).1
  unfolding set_uart_node
  set_uart_node-SamePower none s = uart_disconnect-SamePower io s
  set_uart_node-SamePower (some name) s = ground (
    arith,
    uart_disconnect-SamePower io s,
    with_node-SamePower name (Methods.status io) (uart_disconnect io s).1,
    uart_method-SamePower name (Methods.enable_uart io)
        (with_node name (Methods.status io) (uart_disconnect io s).1).1,
  )

  Step-IsOffOrOn :
      {s t : With Opd Bus} → Step io s t → IsOffOrOn s.self.status → IsOffOrOn t.self.status
  Step-IsOffOrOn (enable_call s) h = ground (arith, enable_lem io s)
  Step-IsOffOrOn (disable_call s) h = ground (arith, disable_lem io s)
  Step-IsOffOrOn (reset_call s tries pins) h =
      rw (reset_unless_fault io tries pins s (ground arith)) h
  Step-IsOffOrOn (scan_call s r) h = ground (arith, scan-SamePower io r s)
  Step-IsOffOrOn (get_uart_call s) h = ground (arith, get_uart_node-SamePower s)
  Step-IsOffOrOn (set_uart_call s name) h = ground (arith, set_uart_node-SamePower name s)
  Step-IsOffOrOn (node_call s name act) h = ground (arith, with_node-SamePower name act s)
  Step-IsOffOrOn (add_node s name node) h = unfold set_item in h

  Reach-step :
      {s t : With Opd Bus} → IsOffOrOn s.self.status → Reach io s t → IsOffOrOn t.self.status
  Reach-step h here = h
  Reach-step h (next r st) = Step-IsOffOrOn st (Reach-step h r)

  -- From a new subsystem no sequence of calls reaches the state FAULT or the state DEAD: only
  -- `reset` sets them, and it does nothing unless the state is FAULT already.
  pub fault_unreachable :
      {s : With Opd Bus} (b : Bus)
      → Reach io (record { self = new_opd; bus = b }) s
      → IsOffOrOn s.self.status
  unfolding new_opd
  fault_unreachable b r = Reach-step (inl refl) r
