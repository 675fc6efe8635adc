-- ===== src/Services/State/Tests.antt =====
-- The theorems on the c3 state at concrete inputs.
use oresat_c3_software.Prelude.{
  ap, drop, ◌-◌, ◌++◌, ℕ, ◌+◌, ◌-◌, ◌*◌, ◌/◌, ◌%◌, ◌≤◌, ◌<◌, ◌≡◌, refl, arith, List, [], ◌∷◌, map,
  length, Bool, true, false, ok, err, ◌⊎◌, if◌then◌else◌,
}
use oresat_c3_software.Drivers.Fm24cl64b.Chip.{fram_bus, fram_bytes, blank_fram, blank_fram-IsFram}
use oresat_c3_software.Services.State.{
  deploy, standby, second, StateService, Readings, expire_tx, loop_pass, dispatch, deploy_method,
  value_error, log_raises, has_tx_timed_out, is_bat_lvl_good,
}
use oresat_c3_software.Services.State.Machine.{
  next_status, is_unnamed_change, is_active, run, loop_pass-next_status, run_active,
}
use oresat_c3_software.Services.State.Deployments.{fired, run-fired_bounded, fired_conditions}
use oresat_c3_software.Services.State.Kept.{KeysAreOctets, kept, kept_image, zeros}
use oresat_c3_software.Services.State.Clearing.{memory-clear_state}
use oresat_c3_software.Drivers.Fm24cl64b.Memory.{memory, IsFram}
use oresat_c3_software.Services.State.Storage.{
  clear_state, FramObj, domain, octet_string, variable, Codec, store_state, restore_state,
}
use oresat_c3_software.Services.State.RoundTrip.{blank, image, bytes_of, restore-store}

abbrev deploying : StateService
deploying = record {
  od = record {
    status = deploy;
    reset_timeout = 86_400;
    ant_attempts = 5;
    deployed = false;
    pre_deploy_timeout = 2_700;
    ant_attempt_timeout = 10;
    ant_attempt_between_timeout = 5;
    ant_reattempt_timeout = 7_200;
    tx_timeout = 604_800;
    tx_enable = true;
    last_tx_enable = 1_700_000_000;
    last_edl = 0;
    edl_timeout = 300;
    vbatt_bp1 = 7_000;
    vbatt_bp2 = 7_100;
    flight_mode = true;
    updating = false;
  };
  attempts = 2;
  loops = 3;
  last_state = deploy;
  last_antennas_deploy = 0;
  start_time = 0;
  effects = [];
}

abbrev with_status : ℕ → StateService
with_status st = record deploying { od = record deploying.od { status = st } }

abbrev late : Readings
late = record {
  time_head = 1_700_001_000 * second;
  time_edl = 1_700_001_000 * second;
  time_tx = 1_700_001_000 * second;
  time_enable = 1_700_001_000 * second;
  mono = 8_000 * second;
  mono_after = 8_001 * second;
  root = true;
  watchdog_stopped = true;
}

late_fires : fired deploying.effects < fired (loop_pass late deploying).1.effects
unfolding fired loop_pass dispatch deploy_method expire_tx has_tx_timed_out is_bat_lvl_good
    log_raises
late_fires = omega arith

loop_pass-next_status_example :
    let (res, s') = loop_pass late deploying in
    ((is_unnamed_change deploying ≡ true)
      × (res ≡ err value_error)
      × (s' ≡ expire_tx late deploying))
    ⊎ ((stored : Bool) × (is_unnamed_change deploying ≡ false)
        × (res ≡ ok stored)
        × (s'.od.status ≡ next_status late (expire_tx late deploying))
        × (s'.last_state ≡ s'.od.status))
loop_pass-next_status_example = loop_pass-next_status late deploying

-- An octet that is no status, written to the OD.
invalid_raises : (loop_pass late (with_status 7)).0 ≡ err value_error
unfolding loop_pass log_raises expire_tx has_tx_timed_out
invalid_raises = refl

run_active_example : is_active (run (late ∷ late ∷ []) (with_status standby)).od.status ≡ true
unfolding is_active
run_active_example = run_active (late ∷ late ∷ []) (with_status standby) refl

run-fired_bounded_example :
    fired (run (late ∷ late ∷ []) deploying).effects ≤ fired [] + (if false then 0 else 5 - 2)
run-fired_bounded_example = run-fired_bounded (late ∷ late ∷ []) deploying

fired_conditions_example :
    (deploy ≡ deploy)
    × (false ≡ false)
    × (2 < 5)
    × (6500 < 7_000)
    × (6500 < 7_100)
    × (0 + 7_200 * second < late.mono)
    × ((loop_pass late deploying).1.last_antennas_deploy ≡ late.mono_after)
fired_conditions_example = fired_conditions late deploying late_fires

-- Numbers of two bytes.
abbrev decode_two : ℕ → List ℕ → ℕ
decode_two data_type (a ∷ b ∷ []) = a * 256 + b
decode_two data_type _ = 0

abbrev two_bytes : Codec ℕ
two_bytes = record {
  encode_raw = λ data_type v. (v / 256) ∷ (v % 256) ∷ [];
  decode_raw = decode_two;
}

abbrev stored_objs : List (FramObj ℕ)
stored_objs =
    domain "log"
    ∷ octet_string "key" (0 ∷ 0 ∷ 0 ∷ []) (1 ∷ 2 ∷ 3 ∷ [])
    ∷ variable "tx_timeout" 6 0 604
    ∷ []

image_size : length (image two_bytes stored_objs) ≤ 8192
unfolding image bytes_of
image_size = omega arith

restore-store_example :
    let (r, s') = store_state two_bytes fram_bus standby stored_objs blank_fram in
    (r ≡ ok tt)
    × (restore_state two_bytes fram_bus (map blank stored_objs) s' ≡ ((ok tt, stored_objs), s'))
restore-store_example =
    restore-store two_bytes fram_bus fram_bytes standby stored_objs blank_fram (λ e. cc)
      (tt, ((refl, omega arith), ((refl, omega arith, refl), tt))) image_size blank_fram-IsFram

abbrev keyed_objs : List (FramObj ℕ)
keyed_objs =
    domain "log"
    ∷ variable "tx_timeout" 6 0 604
    ∷ octet_string "crypto_key_0" (0 ∷ 0 ∷ 0 ∷ []) (1 ∷ 2 ∷ 3 ∷ [])
    ∷ octet_string "uid" (0 ∷ []) (9 ∷ [])
    ∷ []

keyed_image : kept_image two_bytes keyed_objs ≡ 0 ∷ 0 ∷ 1 ∷ 2 ∷ 3 ∷ 0 ∷ []
unfolding kept_image kept
keyed_image = refl

keyed_objs-KeysAreOctets : KeysAreOctets keyed_objs
unfolding KeysAreOctets
keyed_objs-KeysAreOctets = (refl, tt)

memory-clear_state_example :
    let (r, s') = clear_state two_bytes fram_bus keyed_objs blank_fram in
    (r ≡ ok tt)
    × (memory fram_bus fram_bytes s'
        ≡ kept_image two_bytes keyed_objs
          ++ (zeros (4096 - length (kept_image two_bytes keyed_objs))
              ++ drop 4096 (memory fram_bus fram_bytes blank_fram)))
    × IsFram fram_bus fram_bytes s'
memory-clear_state_example =
    memory-clear_state two_bytes fram_bus fram_bytes keyed_objs blank_fram
      (tt, ((refl, omega arith, refl), ((refl, omega arith), ((refl, omega arith), tt))))
      keyed_objs-KeysAreOctets blank_fram-IsFram
      (omega (arith, ap (λ (t : List ℕ). length t) keyed_image))
