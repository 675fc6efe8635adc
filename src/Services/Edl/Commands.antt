-- ===== src/Services/Edl/Commands.antt =====
-- oresat_c3/services/edl.py: `_run_cmd`, the commands of the ground on the OPD, on olaf's node and
-- on the OD. Arguments are of the classes that the unpacking of a request gives.
use oresat_c3_software.Prelude.{
  ℕ, ◌/◌, List, [], ◌∷◌, true, false, Option, none, some, length, lookup, Exec, pure, raise,
  raise_if, gets, choose, ◌>>=◌, ◌>>◌,
}
use oresat_c3_software.Drivers.I2c.{I2c}
use oresat_c3_software.Protocols.Struct.{Value, truth, int, bytes, is_truthy}
use oresat_c3_software.Protocols.EdlCommand.{
  tx_ctrl, c3_soft_reset, c3_hard_reset, c3_factory_reset, co_node_enable, co_node_status,
  co_sdo_write, co_sync, opd_sysenable, opd_scan, opd_probe, opd_enable, opd_reset, opd_status,
  rtc_set_time, time_sync, beacon_ping, ping, rx_test, co_sdo_read, Payload,
}
use oresat_c3_software.Subsystems.Opd
use oresat_c3_software.Subsystems.Opd.{Opd, OpdState, OpdError}
use oresat_c3_software.Subsystems.Opd.Methods
use oresat_c3_software.Services.Edl.Outside.{
  Outside, soft_reset, hard_reset, factory_reset, of_result,
}
use oresat_c3_software.Services.Edl.World.{
  RunError, value_error, key_error, World, Names, is_zero, arg, int_arg, name_of, sdo_write,
  sdo_read, call, opd_call, set_tx, opd_name, node_name, answer, silent, node_state, is_missing,
}

module _ {W Bus Obj V : Type 0} (io : I2c Bus) (out : Outside W Obj V) (names : Names) where
  abbrev pub Run : Type 0 → Type 0
  Run A = Exec RunError (World W Bus) A

  -- TX_CTRL
  unfoldable pub run_tx_ctrl : ℕ → Option (List Value) → Run (Option (List Value))
  run_tx_ctrl now args = do
    v ← of_result (arg 0 args)
    choose (is_zero v) (answer (set_tx false 0) (λ _. truth false ∷ []))
        (answer (set_tx true (now / 1_000_000)) (λ _. truth true ∷ []))

  -- CO_NODE_STATUS: the tuple of the node is the values of the response.
  unfoldable pub run_node_status : Option (List Value) → Run (Option (List Value))
  run_node_status args = do
    name ← node_name names args
    status ← gets (λ s. out.node_status name s.outside)
    elim status [ none ↦ raise key_error | some values ↦ pure (some values) ]

  -- CO_SDO_WRITE
  unfoldable pub run_sdo_write : Option (List Value) → Run (Option (List Value))
  run_sdo_write (some (int node_id ∷ int index ∷ int subindex ∷ size ∷ bytes data' ∷ [])) = do
    name ← of_result (name_of names.node_id_to_name node_id)
    answer (call (sdo_write out node_id name index subindex data')) (λ code. int code ∷ [])
  run_sdo_write _ = raise value_error

  -- CO_SDO_READ
  unfoldable pub run_sdo_read : Option (List Value) → Run (Option (List Value))
  run_sdo_read (some (int node_id ∷ int index ∷ int subindex ∷ [])) = do
    name ← of_result (name_of names.node_id_to_name node_id)
    answer (call (sdo_read out node_id name index subindex))
        (λ (r : ℕ × List ℕ). int r.0 ∷ (int (length r.1) ∷ (bytes r.1 ∷ [])))
  run_sdo_read _ = raise value_error

  -- OPD_SYSENABLE
  unfoldable pub run_sysenable : Option (List Value) → Run (Option (List Value))
  run_sysenable args = do
    v ← of_result (arg 0 args)
    choose (is_truthy v) (opd_call (Opd.enable io)) (opd_call (Opd.disable io))
    gets (λ s. some (int (Opd.opd_state_value s.opd.self.status) ∷ []))

  -- OPD_PROBE
  unfoldable pub run_probe : Option (List Value) → Run (Option (List Value))
  run_probe args = do
    name ← opd_name names args
    answer (opd_call (Opd.with_node name (Methods.probe io false))) (λ found. truth found ∷ [])

  -- OPD_ENABLE
  unfoldable pub run_enable : Option (List Value) → Run (Option (List Value))
  run_enable args = do
    name ← opd_name names args
    missing ← gets (λ s. is_missing (lookup name s.opd.self.nodes))
    raise_if missing key_error
    v ← of_result (arg 1 args)
    choose (is_zero v) (opd_call (Opd.with_node name (Methods.disable io)))
        (opd_call (Opd.with_node name (Methods.enable io false)))
    node_state io name

  -- OPD_RESET
  unfoldable pub run_reset : Option (List Value) → Run (Option (List Value))
  run_reset args = do
    name ← opd_name names args
    opd_call (Opd.with_node name (Methods.reset io 3))
    node_state io name

  -- OPD_STATUS
  unfoldable pub run_status : Option (List Value) → Run (Option (List Value))
  run_status args = do name ← opd_name names args; node_state io name

  -- RTC_SET_TIME
  unfoldable pub run_rtc_set_time : Option (List Value) → Run (Option (List Value))
  run_rtc_set_time args = do
    ts ← of_result (int_arg (arg 0 args))
    call (out.set_rtc_time ts)
    silent (call out.set_system_time_to_rtc_time)

  -- `_run_cmd`; the result is the values of the response.
  unfoldable pub run_cmd : ℕ → Payload → Run (Option (List Value))
  run_cmd now request = elim request.code [
    | tx_ctrl ↦ run_tx_ctrl now request.args
    | c3_soft_reset ↦ silent (call (out.stop soft_reset))
    | c3_hard_reset ↦ silent (call (out.stop hard_reset))
    | c3_factory_reset ↦ silent (call (out.stop factory_reset))
    | co_node_enable ↦ do name ← node_name names request.args; pure none
    | co_node_status ↦ run_node_status request.args
    | co_sdo_write ↦ run_sdo_write request.args
    | co_sync ↦ silent (call out.send_sync)
    | opd_sysenable ↦ run_sysenable request.args
    | opd_scan ↦ answer (opd_call (Opd.scan io false)) (λ n. int n ∷ [])
    | opd_probe ↦ run_probe request.args
    | opd_enable ↦ run_enable request.args
    | opd_reset ↦ run_reset request.args
    | opd_status ↦ run_status request.args
    | rtc_set_time ↦ run_rtc_set_time request.args
    | time_sync ↦ silent (call (out.send_tpdo 0))
    | beacon_ping ↦ silent (call out.beacon_send)
    | ping ↦ answer (of_result (arg 0 request.args)) (λ v. v ∷ [])
    | rx_test ↦ pure none
    | co_sdo_read ↦ run_sdo_read request.args
  ]
