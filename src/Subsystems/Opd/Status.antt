-- ===== src/Subsystems/Opd/Status.antt =====
-- The state of the OPD subsystem under its methods, whatever the bus and the nodes answer.
use oresat_c3_software.Prelude.{
  ℕ, String, ◌≡◌, ◌≢◌, ◌⊎◌, inl, inr, refl, arith, Bool, true, false, none, ok, err, With,
  Option-cases, Result-cases, lookup,
}
use oresat_c3_software.Drivers.I2c.{I2c}
use oresat_c3_software.Subsystems.Opd.Methods
use oresat_c3_software.Subsystems.Opd.Node.{Act}
use oresat_c3_software.Subsystems.Opd.{
  Opd, disabled, enabled, dead, OpdError, considered_dead, is_running, with_node, uart_method, scan,
  enable, uart_disconnect, disable, disable_found, each_node,
}

-- The fields that a call leaves as they were.
pub record SamePower {Bus : Type 0} (s s' : With Opd Bus) : Type 0 where
  pub same_status : s'.self.status ≡ s.self.status
  pub same_pin : s'.self.not_enable_pin ≡ s.self.not_enable_pin

module _ {Bus : Type 0} where
  pub with_node-SamePower :
      {A : Type 0} (name : String) (act : Act Bus A) (s : With Opd Bus)
      → SamePower s (with_node name act s).1
  unfolding with_node
  with_node-SamePower name act s = elim (Option-cases (lookup name s.self.nodes)) [
    | inl e ↦ ground arith
    | inr (node, e) ↦ ground arith
  ]

  pub uart_method-SamePower :
      (name : String) (act : Act Bus (Unit {0})) (s : With Opd Bus)
      → SamePower s (uart_method name act s).1
  unfolding uart_method
  uart_method-SamePower name act s = elim (Option-cases (lookup name s.self.nodes)) [
    | inl e ↦ ground arith
    | inr (node, e) ↦ ground (arith, with_node-SamePower name act s)
  ]

module _ {Bus : Type 0} (io : I2c Bus) where
  pub scan-SamePower : (r : Bool) (s : With Opd Bus) → SamePower s (scan io r s).1
  unfolding scan
  scan-SamePower r s = record { same_status = refl; same_pin = refl }

  -- Disconnecting the UART node changes neither the state nor the power.
  pub uart_disconnect-SamePower : (s : With Opd Bus) → SamePower s (uart_disconnect io s).1
  unfolding uart_disconnect
  uart_disconnect-SamePower s = elim (Option-cases s.self.uart_node) [
    | inl e ↦ ground arith
    | inr (name, e) ↦ ground (arith, uart_method-SamePower name (Methods.disable_uart io) s)
  ]

  -- The state behind the loop of `disable`.
  abbrev swept : With Opd Bus → With Opd Bus
  swept s = (each_node {E = OpdError} (disable_found io) s).1

  uart_disconnect-none :
      (s : With Opd Bus)
      → (uart_disconnect io s).0 ≡ ok tt
      → (uart_disconnect io s).1.self.uart_node ≡ none
  unfolding uart_disconnect
  uart_disconnect-none s h = elim (Option-cases s.self.uart_node) [
    | inl e ↦ ground arith
    | inr (name, e) ↦ ground arith
  ]

  uart_disconnect_selected :
      (s : With Opd Bus) → s.self.uart_node ≡ none → (uart_disconnect io s).0 ≡ ok tt
  unfolding uart_disconnect
  uart_disconnect_selected s h = ground arith

  -- A call of `disable` that returns has switched the subsystem off; one that raises had a UART node
  -- selected, and has changed neither the state nor the power.
  pub disable_lem :
      (s : With Opd Bus)
      → let (r, s') = disable io s in
        ((r ≡ ok tt)
          × (s'.self.status ≡ disabled)
          × (s'.self.not_enable_pin ≡ true)
          × (s'.self.uart_node ≡ none)
          × (s'.self.resets ≡ 0))
        ⊎ ((e : OpdError) × (r ≡ err e) × SamePower s s' × (s.self.uart_node ≢ none))
  unfolding disable
  disable_lem s = elim (Result-cases (uart_disconnect io (swept s)).0) [
    | inl (a, e) ↦ inl (ground (arith, uart_disconnect-none (swept s)))
    | inr (x, e) ↦ inr (
      x,
      ground arith,
      ground (arith, uart_disconnect-SamePower (swept s)),
      λ n. ground (arith, uart_disconnect_selected (swept s) n),
    )
  ]

  scan_ok : (r : Bool) (s : With Opd Bus) → (n : ℕ) × ((scan io r s).0 ≡ ok n)
  unfolding scan
  scan_ok r s = (_, refl)

  scan_uart : (r : Bool) (s : With Opd Bus) → (scan io r s).1.self.uart_node ≡ s.self.uart_node
  unfolding scan
  scan_uart r s = refl

  -- The state in which `enable` scans.
  abbrev powered : With Opd Bus → With Opd Bus
  powered s = record s { self = record s.self { not_enable_pin = false; status = enabled } }

  pub enable_lem :
      (s : With Opd Bus)
      → let (r, s') = enable io s in
        ((s.self.status ≡ dead) × (r ≡ err considered_dead) × (s' ≡ s))
        ⊎ ((is_running s.self.status ≡ true) × (r ≡ ok tt) × (s' ≡ s))
        ⊎ ((s.self.status ≡ disabled)
            × (r ≡ ok tt)
            × (s'.self.status ≡ enabled)
            × (s'.self.not_enable_pin ≡ false)
            × (s'.self.uart_node ≡ s.self.uart_node))
  unfolding enable
  enable_lem s =
      ground (
        arith,
        scan_ok true (powered s),
        scan-SamePower true (powered s),
        scan_uart true (powered s),
      )
