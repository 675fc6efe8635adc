-- ===== src/Services/State.antt =====
-- oresat_c3/services/state.py: the c3 state machine. The entries of the object dictionary (OD)
-- that the service uses are a record; a status is the octet that the OD holds. A pass of the
-- loop gets the readings of the clocks and of the system that it makes, one for each call that
-- one pass can make; `time()` and `monotonic()` are counted in microseconds.
pub mod Machine
pub mod Storage
pub mod RoundTrip
pub mod Kept
pub mod Clearing
pub mod Deployments
mod Tests
use oresat_c3_software.Prelude.{
  ℕ, ◌+◌, ◌*◌, ◌/◌, ◌%◌, List, [], ◌∷◌, ◌++◌, Bool, true, false, not, ◌&&◌, ◌||◌, if◌then◌else◌,
  ltb, leb, ◌==◌, Result, ok, err,
}
use oresat_c3_software.Subsystems.Antennas
use oresat_c3_software.Subsystems.Antennas.{GpioEvent}

-- `C3State`, by the values of the members (oresat_c3/__init__.py).
abbrev pub offline : ℕ
offline = b'A'

abbrev pub pre_deploy : ℕ
pre_deploy = b'B'

abbrev pub deploy : ℕ
deploy = b'C'

abbrev pub standby : ℕ
standby = b'D'

abbrev pub beacon : ℕ
beacon = b'E'

abbrev pub edl : ℕ
edl = b'F'

-- `value in list(C3State)`
abbrev pub in_c3_state : ℕ → Bool
in_c3_state value = leb offline value && leb value edl

abbrev pub bat_level_low : ℕ
bat_level_low = 6500

-- Microseconds in a second, the unit of the timeouts and the timestamps of the OD.
abbrev pub second : ℕ
second = 1_000_000

pub record Od : Type 0 where
  pub status : ℕ
  pub reset_timeout : ℕ
  pub ant_attempts : ℕ
  pub deployed : Bool
  pub pre_deploy_timeout : ℕ
  pub ant_attempt_timeout : ℕ
  pub ant_attempt_between_timeout : ℕ
  pub ant_reattempt_timeout : ℕ
  pub tx_timeout : ℕ
  pub tx_enable : Bool
  pub last_tx_enable : ℕ
  pub last_edl : ℕ
  pub edl_timeout : ℕ
  pub vbatt_bp1 : ℕ
  pub vbatt_bp2 : ℕ
  pub flight_mode : Bool
  -- `od["updater"]["status"].value == UpdaterState.UPDATING`
  pub updating : Bool

-- What the service does to the world, in order.
pub data Effect : Type 0 where
  fire_antennas : List GpioEvent → Effect
  stop_watchdog hard_reset : Effect

pub record StateService : Type 0 where
  pub od : Od
  pub attempts : ℕ
  pub loops : ℕ
  pub last_state : ℕ
  pub last_antennas_deploy : ℕ
  pub start_time : ℕ
  pub effects : List Effect

-- The readings of one pass: `time()` in the test at the head of `on_loop`, in `has_edl_timed_out`,
-- in `has_tx_timed_out` and where tx is enabled; `monotonic()` in the state method, and after a
-- deployment; `os.geteuid() == 0`; and whether stopping the watchdog succeeded.
pub record Readings : Type 0 where
  pub time_head : ℕ
  pub time_edl : ℕ
  pub time_tx : ℕ
  pub time_enable : ℕ
  pub mono : ℕ
  pub mono_after : ℕ
  pub root : Bool
  pub watchdog_stopped : Bool

-- `(time() - last_tx_enable) > tx_timeout`
unfoldable pub has_tx_timed_out : ℕ → Od → Bool
has_tx_timed_out now od = ltb ((od.last_tx_enable + od.tx_timeout) * second) now

-- `(time() - last_edl) < edl_timeout`: true as long as the timeout has not been reached.
unfoldable pub has_edl_timed_out : ℕ → Od → Bool
has_edl_timed_out now od = ltb now ((od.last_edl + od.edl_timeout) * second)

unfoldable pub is_bat_lvl_good : Od → Bool
is_bat_lvl_good od = ltb bat_level_low od.vbatt_bp1 && ltb bat_level_low od.vbatt_bp2

unfoldable pub has_reset_timed_out : Readings → StateService → Bool
has_reset_timed_out r s =
    if not r.root || not s.od.flight_mode
    then false
    else ltb (s.start_time + s.od.reset_timeout * second) r.mono

abbrev pub set_status : ℕ → StateService → StateService
set_status st s = record s { od = record s.od { status = st } }

abbrev pub emit : Effect → StateService → StateService
emit e s = record s { effects = s.effects ++ (e ∷ []) }

-- `_reset`
unfoldable pub reset : Readings → StateService → StateService
reset r s =
    if s.od.updating
    then s
    else (let s' = emit stop_watchdog s in if r.watchdog_stopped then s' else emit hard_reset s')

-- `_pre_deploy`
unfoldable pub pre_deploy_method : Readings → StateService → StateService
pre_deploy_method r s =
    if ltb r.mono (s.start_time + s.od.pre_deploy_timeout * second)
    then (if s.od.tx_enable then s else record s {
      od = record s.od { tx_enable = true; last_tx_enable = r.time_enable / second };
    })
    else set_status deploy s

-- `_deploy`
unfoldable pub deploy_method : Readings → StateService → StateService
unfolding is_bat_lvl_good
deploy_method r s =
    if not s.od.deployed && ltb s.attempts s.od.ant_attempts
    then (if ltb (s.last_antennas_deploy + s.od.ant_reattempt_timeout * second) r.mono
          && is_bat_lvl_good s.od
        then record s {
          effects =
              s.effects
              ++ (fire_antennas
                    (Antennas.deploy s.od.ant_attempt_timeout s.od.ant_attempt_between_timeout)
                  ∷ []);
          last_antennas_deploy = r.mono_after;
          attempts = s.attempts + 1;
        }
        else s)
    else record s { od = record s.od { status = standby; deployed = true }; attempts = 0 }

-- `_standby`
unfoldable pub standby_method : Readings → StateService → StateService
standby_method r s =
    if has_edl_timed_out r.time_edl s.od
    then set_status edl s
    else (if has_reset_timed_out r s
        then reset r s
        else (if not (has_tx_timed_out r.time_tx s.od) && is_bat_lvl_good s.od
            then set_status beacon s
            else s))

-- `_beacon`
unfoldable pub beacon_method : Readings → StateService → StateService
beacon_method r s =
    if has_edl_timed_out r.time_edl s.od
    then set_status edl s
    else (if has_reset_timed_out r s
        then reset r s
        else (if has_tx_timed_out r.time_tx s.od || not (is_bat_lvl_good s.od)
            then set_status standby s
            else s))

-- `_edl`
unfoldable pub edl_method : Readings → StateService → StateService
edl_method r s =
    if has_edl_timed_out r.time_edl s.od
    then s
    else (if not (has_tx_timed_out r.time_tx s.od) && is_bat_lvl_good s.od
        then set_status beacon s
        else set_status standby s)

-- The test at the head of `on_loop`.
unfoldable pub expire_tx : Readings → StateService → StateService
expire_tx r s =
    if has_tx_timed_out r.time_head s.od && s.od.tx_enable
    then record s { od = record s.od { tx_enable = false } }
    else s

-- The state methods, by the status; the result says whether the status was a valid one.
unfoldable pub dispatch : Readings → StateService → Bool × StateService
dispatch r s =
    if s.od.status == pre_deploy
    then (true, pre_deploy_method r s)
    else (if s.od.status == deploy
        then (true, deploy_method r s)
        else (if s.od.status == standby
            then (true, standby_method r s)
            else (if s.od.status == beacon
                then (true, beacon_method r s)
                else (if s.od.status == edl
                    then (true, edl_method r s)
                    else (false, set_status pre_deploy s)))))

-- What gets out of a pass: the `ValueError` of `C3State(...)` for a value that is no member.
pub data StateError : Type 0 where
  value_error : StateError

-- The log line of a change that was made from outside raises where the last state or the status
-- is no member of `C3State`. The log line behind the state methods names a status that one of
-- them has been called for and the one that it has set, which are members.
unfoldable pub log_raises : StateService → Bool
log_raises s =
    not (s.od.status == s.last_state) && not (in_c3_state s.last_state && in_c3_state s.od.status)

-- One pass of `on_loop` up to the storing of the state; the result says whether the state is
-- stored in this pass.
unfoldable pub loop_pass : Readings → StateService → Result StateError Bool × StateService
loop_pass r s =
    let s' = expire_tx r s in
    if log_raises s'
    then (err value_error, s')
    else (let (valid, t) = dispatch r s' in
        let u = record t { last_state = t.od.status } in
        if valid
        then (let loops = (u.loops + 1) % 10 in (ok (loops == 0), record u { loops = loops }))
        else (ok false, u))

-- `_on_write_tx_enable`; `now` is `time()`.
unfoldable pub on_write_tx_enable : ℕ → Bool → Od → Od
on_write_tx_enable now true od = record od { tx_enable = true; last_tx_enable = now / second }
on_write_tx_enable now false od = record od { tx_enable = false; last_tx_enable = 0 }

-- `on_start` behind `restore_state`; `now` is `monotonic()`.
unfoldable pub start : ℕ → StateService → StateService
start now s =
    let od = if s.od.tx_enable then s.od else record s.od { last_tx_enable = 0 } in
    let od' = if od.status == edl then record od { status = standby } else od in
    let od'' = if in_c3_state od'.status then od' else record od' { status = pre_deploy } in
    record s { od = od''; last_state = od''.status; start_time = now }
