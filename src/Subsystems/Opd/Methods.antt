-- ===== src/Subsystems/Opd/Methods.antt =====
-- oresat_c3/subsystems/opd.py: the methods and properties of the OPD nodes.
use oresat_c3_software.Prelude.{
  ℕ, zero, suc, Bool, true, false, not, ok, err, pure, gets, when, choose, ◌>>=◌, ◌>>◌,
  if◌then◌else◌,
}
use oresat_c3_software.Drivers.I2c.{I2c}
use oresat_c3_software.Drivers.Max7310
use oresat_c3_software.Subsystems.Opd.Node.{
  OpdNodeState, disabled, enabled, fault, not_found, is_not_found, is_dead, base, stm32, octavo,
  inputs, timeout_config, not_fault_pin, enable_pin, cb_reset_pin, boot_pin, uart_pin, sys_boot2,
  Node, Act, Try, chip, call, except, set_status, fault_if_found, then_status,
}

module _ {Bus : Type 0} (io : I2c Bus) where
  abbrev mock_not_fault : Try Bus (Unit {0})
  mock_not_fault = do
    mock ← gets (λ w. w.self.mock)
    when mock (chip (Max7310.mock_input_set io not_fault_pin))

  -- `configure`, of all three classes
  unfoldable pub configure : Act Bus (Unit {0})
  configure w =
      except
        (do
          chip (Max7310.configure io 0 0 (inputs w.self.kind) timeout_config)
          mock_not_fault
          call (set_status disabled))
        (set_status fault) w

  abbrev pub probe_found : Bool → Try Bus (Unit {0})
  probe_found reset = do
    status ← gets (λ w. w.self.status)
    when (is_not_found status) (call configure)
    when reset (do chip (Max7310.reset io); call configure)
    call (set_status disabled)

  abbrev pub probe_lost : Try Bus (Unit {0})
  probe_lost = do
    status ← gets (λ w. w.self.status)
    when (not (is_not_found status)) (call (set_status not_found))

  abbrev pub probe_alive : Bool → Act Bus (Unit {0})
  probe_alive reset =
      except (do valid ← chip (Max7310.is_valid io); choose valid (probe_found reset) probe_lost)
        (set_status not_found)

  unfoldable pub probe : Bool → Act Bus Bool
  probe reset w =
      if is_dead w.self.status
      then (false, w)
      else (let w' = (probe_alive reset w).1 in (not (is_not_found w'.self.status), w'))

  -- `OpdNode.enable`
  unfoldable pub base_enable : Act Bus OpdNodeState
  base_enable w =
      if is_not_found w.self.status
      then (w.self.status, w)
      else then_status
          (except (do chip (Max7310.output_set io enable_pin); call (set_status enabled))
            (set_status fault))
          w

  -- `OpdNode.disable`
  unfoldable pub base_disable : Act Bus OpdNodeState
  base_disable = then_status (
      except (do chip (Max7310.output_clear io enable_pin); call (set_status disabled))
        (set_status fault))

  -- `OpdStm32Node.enable`
  unfoldable pub stm32_enable : Bool → Act Bus OpdNodeState
  stm32_enable bootloader_mode w =
      let (r, w') =
        chip
          (choose bootloader_mode (Max7310.output_set io boot_pin)
            (Max7310.output_clear io boot_pin))
          w in
      elim r [ ok _ ↦ base_enable w' | err _ ↦ (fault, (set_status fault w').1) ]

  -- `OpdStm32Node.disable`
  unfoldable pub stm32_disable : Act Bus OpdNodeState
  stm32_disable w = base_disable (chip (Max7310.output_clear io boot_pin) w).1

  -- `OpdOctavoNode.enable`
  unfoldable pub octavo_enable : Act Bus OpdNodeState
  octavo_enable w =
      let (r, w') =
        except (do chip (Max7310.output_set io sys_boot2); call base_enable) (λ v. (fault, v)) w in
      (r, (set_status r w').1)

  -- `node.enable(bootloader_mode)` by class; the other classes take no such argument.
  unfoldable pub enable : Bool → Act Bus OpdNodeState
  enable bootloader_mode w = elim w.self.kind [
    | base ↦ base_enable w
    | stm32 ↦ stm32_enable bootloader_mode w
    | octavo ↦ octavo_enable w
  ]

  -- `node.disable()` by class
  unfoldable pub disable : Act Bus OpdNodeState
  disable w = elim w.self.kind [ stm32 ↦ stm32_disable w | _ ↦ base_disable w ]

  -- The property `fault`.
  unfoldable pub has_fault : Act Bus Bool
  has_fault =
      except (do high ← chip (Max7310.input_status io not_fault_pin); pure (not high))
        (fault_if_found true)

  -- The property `is_enabled`.
  unfoldable pub is_enabled : Act Bus Bool
  is_enabled = except (chip (Max7310.output_status io enable_pin)) (fault_if_found false)

  abbrev after_fault_read : Bool → Act Bus Bool
  after_fault_read true w = (false, (set_status fault w).1)
  after_fault_read false w = (true, (set_status enabled w).1)

  -- One pass of the loop of `reset`; `true` is the `break`.
  unfoldable pub reset_try : Act Bus Bool
  unfolding has_fault
  reset_try =
      except
        (do
          chip (Max7310.output_set io cb_reset_pin)
          chip (Max7310.output_clear io cb_reset_pin)
          mock_not_fault
          faulty ← call has_fault
          call (after_fault_read faulty))
        (λ w. (false, (set_status fault w).1))

  unfoldable pub reset_loop : ℕ → Node Bus → Node Bus
  reset_loop zero w = w
  reset_loop (suc n) w =
      let (done, w') = reset_try w in elim done [ true ↦ w' | false ↦ reset_loop n w' ]

  -- `reset`
  unfoldable pub reset : ℕ → Act Bus OpdNodeState
  reset attempts w = let w' = reset_loop attempts w in (w'.self.status, w')

  abbrev enabled_with_fault : Act Bus Bool
  enabled_with_fault w =
      let (on, w') = is_enabled w in elim on [ true ↦ has_fault w' | false ↦ (false, w') ]

  -- The property `status`.
  unfoldable pub status : Act Bus OpdNodeState
  unfolding is_enabled has_fault
  status w =
      let (valid, w') = except (chip (Max7310.is_valid io)) (λ v. (false, v)) w in
      elim valid [
        | false ↦ (not_found, (set_status not_found w').1)
        | true ↦
            then_status
              (λ v.
                let (faulty, v') = enabled_with_fault v in
                elim faulty [ true ↦ set_status fault v' | false ↦ (tt, v') ])
              w'
      ]

  -- `in_bootloader_mode` of an STM32 node
  unfoldable pub in_bootloader_mode : Act Bus Bool
  in_bootloader_mode =
      except (chip (Max7310.output_status io boot_pin)) (λ w. (false, (set_status fault w).1))

  -- `is_uart_enabled` of an STM32 or an Octavo node
  unfoldable pub is_uart_enabled : Act Bus Bool
  is_uart_enabled =
      except (chip (Max7310.output_status io uart_pin)) (λ w. (false, (set_status fault w).1))

  -- `enable_uart` of an STM32 or an Octavo node
  unfoldable pub enable_uart : Act Bus (Unit {0})
  enable_uart = except (chip (Max7310.output_set io uart_pin)) (set_status fault)

  -- `disable_uart` of an STM32 or an Octavo node
  unfoldable pub disable_uart : Act Bus (Unit {0})
  disable_uart = except (chip (Max7310.output_clear io uart_pin)) (set_status fault)

  -- `__del__`: the node is switched off, and an error is ignored.
  unfoldable pub delete : Act Bus (Unit {0})
  delete = except (chip (Max7310.output_clear io enable_pin)) (λ w. (tt, w))
