-- ===== src/Services/State/Machine.antt =====
-- The c3 state machine: its transitions, the conditions of the active states, and what starting
-- the service leaves.
use oresat_c3_software.Prelude.{
  ℕ, ◌+◌, ◌*◌, ◌≡◌, ◌⊎◌, inl, inr, Bool-cases, ok, err, false, arith, List, [], ◌∷◌, Bool, true,
  not, ◌&&◌, ◌||◌, ◌==◌, if◌then◌else◌, ltb, leb,
}
use oresat_c3_software.Services.State.{
  pre_deploy, deploy, standby, beacon, edl, in_c3_state, second, Od, StateService, Readings,
  has_tx_timed_out, has_edl_timed_out, has_reset_timed_out, is_bat_lvl_good, reset,
  pre_deploy_method, deploy_method, standby_method, beacon_method, edl_method, expire_tx, dispatch,
  value_error, log_raises, loop_pass, start,
}

-- The status that one pass leaves, as a table: what the state diagram says, with the conditions
-- that the code attaches to it. `od` is the OD that the state method sees.
unfoldable pub active_next : Readings → Od → ℕ
active_next r od =
    if has_edl_timed_out r.time_edl od
    then edl
    else (if not (has_tx_timed_out r.time_tx od) && is_bat_lvl_good od then beacon else standby)

-- In STANDBY and in BEACON a reset that is due comes before the tests of tx and battery.
unfoldable pub next_status : Readings → StateService → ℕ
next_status r s =
    if s.od.status == pre_deploy
    then (if ltb r.mono (s.start_time + s.od.pre_deploy_timeout * second)
        then pre_deploy
        else deploy)
    else (if s.od.status == deploy
        then (if not s.od.deployed && ltb s.attempts s.od.ant_attempts then deploy else standby)
        else (if s.od.status == edl
            then active_next r s.od
            else (if s.od.status == standby || s.od.status == beacon
                then (if not (has_edl_timed_out r.time_edl s.od) && has_reset_timed_out r s
                    then s.od.status
                    else active_next r s.od)
                else pre_deploy)))

reset_status : (r : Readings) (s : StateService) → (reset r s).od.status ≡ s.od.status
unfolding reset
reset_status r s = ground arith

dispatch_status : (r : Readings) (s : StateService) → (dispatch r s).1.od.status ≡ next_status r s
unfolding dispatch next_status active_next pre_deploy_method deploy_method standby_method
    beacon_method edl_method
dispatch_status r s = ground (arith, reset_status r s)

expire_tx_status : (r : Readings) (s : StateService) → (expire_tx r s).od.status ≡ s.od.status
unfolding expire_tx
expire_tx_status r s = ground arith

log_raises-expire_tx : (r : Readings) (s : StateService) → log_raises (expire_tx r s) ≡ log_raises s
unfolding expire_tx log_raises
log_raises-expire_tx r s = ground arith

-- The status differs from the last state, and one of the two is no member of `C3State`.
abbrev pub is_unnamed_change : StateService → Bool
is_unnamed_change s =
    not (s.od.status == s.last_state) && not (in_c3_state s.last_state && in_c3_state s.od.status)

-- A pass of the loop first clears the tx enable flag where its timeout has passed. Where the
-- status has been changed since the last pass and it or the last state is no member of `C3State`,
-- the pass then raises and leaves all else as it is. Otherwise it returns, moves the status as the
-- table says and notes the new status as the last one.
pub loop_pass-next_status :
    (r : Readings) (s : StateService)
    → let (res, s') = loop_pass r s in
      ((is_unnamed_change s ≡ true) × (res ≡ err value_error) × (s' ≡ expire_tx r s))
      ⊎ ((stored : Bool) × (is_unnamed_change s ≡ false)
          × (res ≡ ok stored)
          × (s'.od.status ≡ next_status r (expire_tx r s))
          × (s'.last_state ≡ s'.od.status))
unfolding loop_pass log_raises
loop_pass-next_status r s =
    let same = log_raises-expire_tx r s in
    let st = dispatch_status r (expire_tx r s) in
    elim (Bool-cases (log_raises (expire_tx r s))) [
      | inl e ↦ inl (ground arith)
      | inr e ↦ elim (Bool-cases (dispatch r (expire_tx r s)).0) [
        | inl v ↦ inr (
          (loop_pass r s).1.loops == 0,
          ground arith,
          ground arith,
          ground (arith, st),
          ground (arith, st),
        )
        | inr v ↦ inr (false, ground arith, ground arith, ground (arith, st), ground (arith, st))
      ]
    ]

-- The statuses of the diagram, without OFFLINE.
unfoldable pub is_operational : ℕ → Bool
is_operational st = leb pre_deploy st && leb st edl

-- The statuses that follow the deployment of the antennas.
unfoldable pub is_active : ℕ → Bool
is_active st = leb standby st && leb st edl

next_status_operational :
    (r : Readings) (s : StateService) → is_operational (next_status r s) ≡ true
unfolding next_status active_next is_operational
next_status_operational r s = ground arith

next_status_active :
    (r : Readings) (s : StateService)
    → is_active s.od.status ≡ true
    → is_active (next_status r s) ≡ true
unfolding next_status active_next is_active
next_status_active r s h = ground arith

-- A pass that does not raise leaves one of the five operational states.
loop_pass_operational :
    (r : Readings) (s : StateService)
    → is_unnamed_change s ≡ false
    → is_operational (loop_pass r s).1.od.status ≡ true
loop_pass_operational r s h = elim (loop_pass-next_status r s) [
  | inl (e, raised, same) ↦ cc
  | inr (stored, unlike, returned, st, last) ↦ rw st (next_status_operational r (expire_tx r s))
]

loop_pass_active :
    (r : Readings) (s : StateService)
    → is_active s.od.status ≡ true
    → is_active (loop_pass r s).1.od.status ≡ true
loop_pass_active r s h =
    let before : is_active (expire_tx r s).od.status ≡ true = rw (expire_tx_status r s) h in
    elim (loop_pass-next_status r s) [
      | inl (e, raised, same) ↦ rw same before
      | inr (stored, unlike, returned, st, last) ↦
          rw st (next_status_active r (expire_tx r s) before)
    ]

-- The passes of the loop, one after the other.
unfoldable pub run : List Readings → StateService → StateService
run [] s = s
run (r ∷ rs) s = run rs (loop_pass r s).1

-- Once the status is STANDBY, BEACON or EDL, no run of passes of the loop takes it back to
-- PRE_DEPLOY or DEPLOY, whatever the readings.
pub run_active :
    (rs : List Readings) (s : StateService)
    → is_active s.od.status ≡ true
    → is_active (run rs s).od.status ≡ true
unfolding run
run_active [] s h = h
run_active (r ∷ rs) s h = run_active rs (loop_pass r s).1 (loop_pass_active r s h)

-- `on_start` leaves a state of `C3State` that is not EDL, whatever was restored; it keeps a state
-- of the others, turns EDL into STANDBY and all else into PRE_DEPLOY, and tx that is off has no
-- timestamp.
pub start_status :
    (now : ℕ) (s : StateService)
    → let s' = start now s in
      (s'.od.status ≡ (
        if s.od.status == edl
        then standby
        else (if in_c3_state s.od.status then s.od.status else pre_deploy)))
      × (s'.last_state ≡ s'.od.status)
      × (s'.start_time ≡ now)
      × (s'.od.tx_enable ≡ s.od.tx_enable)
      × (s'.od.last_tx_enable ≡ (if s.od.tx_enable then s.od.last_tx_enable else 0))
unfolding start
start_status now s = ground arith
