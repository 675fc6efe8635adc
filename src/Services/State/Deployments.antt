-- ===== src/Services/State/Deployments.antt =====
-- How often the antennas are fired.
use oresat_c3_software.Prelude.{
  ℕ, suc, ◌+◌, ◌-◌, ◌*◌, ◌<◌, ◌≤◌, ◌≡◌, inl, inr, arith, List, [], ◌∷◌, ◌++◌, false, ◌==◌,
  if◌then◌else◌, Bool-cases,
}
use oresat_c3_software.Subsystems.Antennas
use oresat_c3_software.Services.State.{
  deploy, second, StateService, Readings, Effect, fire_antennas, stop_watchdog, hard_reset, reset,
  pre_deploy_method, deploy_method, standby_method, beacon_method, edl_method, expire_tx, dispatch,
  loop_pass,
}
use oresat_c3_software.Services.State.Machine.{run}

-- The deployments among the effects.
unfoldable pub fired : List Effect → ℕ
fired [] = 0
fired (fire_antennas events ∷ es) = suc (fired es)
fired (stop_watchdog ∷ es) = fired es
fired (hard_reset ∷ es) = fired es

fired-append : (es fs : List Effect) → fired (es ++ fs) ≡ fired es + fired fs
unfolding fired
fired-append [] fs = omega arith
fired-append (fire_antennas events ∷ es) fs = omega (arith, fired-append es fs)
fired-append (stop_watchdog ∷ es) fs = fired-append es fs
fired-append (hard_reset ∷ es) fs = fired-append es fs

-- The attempts that are left.
unfoldable pub remaining : StateService → ℕ
remaining s = if s.od.deployed then 0 else s.od.ant_attempts - s.attempts

-- What a step fires it takes from what is left.
abbrev InBudget : StateService → StateService → Type 0
InBudget s s' = fired s'.effects + remaining s' ≤ fired s.effects + remaining s

reset-InBudget : (r : Readings) (s : StateService) → InBudget s (reset r s)
unfolding reset remaining fired
reset-InBudget r s = ground (
  arith,
  fired-append s.effects (stop_watchdog ∷ []),
  fired-append (s.effects ++ stop_watchdog ∷ []) (hard_reset ∷ []),
)

pre_deploy-InBudget : (r : Readings) (s : StateService) → InBudget s (pre_deploy_method r s)
unfolding pre_deploy_method remaining
pre_deploy-InBudget r s = ground arith

deploy-InBudget : (r : Readings) (s : StateService) → InBudget s (deploy_method r s)
unfolding deploy_method remaining fired
deploy-InBudget r s = ground (
  arith,
  fired-append s.effects (
      fire_antennas (Antennas.deploy s.od.ant_attempt_timeout s.od.ant_attempt_between_timeout)
      ∷ []),
)

standby-InBudget : (r : Readings) (s : StateService) → InBudget s (standby_method r s)
unfolding standby_method remaining
standby-InBudget r s = ground (arith, reset-InBudget r s)

beacon-InBudget : (r : Readings) (s : StateService) → InBudget s (beacon_method r s)
unfolding beacon_method remaining
beacon-InBudget r s = ground (arith, reset-InBudget r s)

edl-InBudget : (r : Readings) (s : StateService) → InBudget s (edl_method r s)
unfolding edl_method remaining
edl-InBudget r s = ground arith

expire_tx-InBudget : (r : Readings) (s : StateService) → InBudget s (expire_tx r s)
unfolding expire_tx remaining
expire_tx-InBudget r s = ground arith

dispatch-InBudget : (r : Readings) (s : StateService) → InBudget s (dispatch r s).1
unfolding dispatch remaining
dispatch-InBudget r s = ground (
  arith,
  pre_deploy-InBudget r s,
  deploy-InBudget r s,
  standby-InBudget r s,
  beacon-InBudget r s,
  edl-InBudget r s,
)

loop_pass-InBudget : (r : Readings) (s : StateService) → InBudget s (loop_pass r s).1
unfolding loop_pass remaining
loop_pass-InBudget r s = ground (arith, expire_tx-InBudget r s, dispatch-InBudget r (expire_tx r s))

run-InBudget : (rs : List Readings) (s : StateService) → InBudget s (run rs s)
unfolding run
run-InBudget [] s = omega arith
run-InBudget (r ∷ rs) s = omega (arith, loop_pass-InBudget r s, run-InBudget rs (loop_pass r s).1)

-- However many passes of the loop are run, with whatever readings, they fire the antennas at most
-- as often as there are attempts left, and not at all once the antennas are marked as deployed.
pub run-fired_bounded :
    (rs : List Readings) (s : StateService)
    → fired (run rs s).effects
      ≤ fired s.effects + (if s.od.deployed then 0 else s.od.ant_attempts - s.attempts)
unfolding remaining
run-fired_bounded rs s = omega (arith, run-InBudget rs s)

fired-reset : (r : Readings) (s : StateService) → fired (reset r s).effects ≡ fired s.effects
unfolding reset fired
fired-reset r s = ground (
  arith,
  fired-append s.effects (stop_watchdog ∷ []),
  fired-append (s.effects ++ stop_watchdog ∷ []) (hard_reset ∷ []),
)

-- What holds of a service and a pass in which its antennas are fired.
record Fires (r : Readings) (s s' : StateService) : Type 0 where
  not_deployed : s.od.deployed ≡ false
  left : s.attempts < s.od.ant_attempts
  bp1 : 6500 < s.od.vbatt_bp1
  bp2 : 6500 < s.od.vbatt_bp2
  spaced : s.last_antennas_deploy + s.od.ant_reattempt_timeout * second < r.mono
  noted : s'.last_antennas_deploy ≡ r.mono_after

deploy-Fires :
    (r : Readings) (s : StateService)
    → fired s.effects < fired (deploy_method r s).effects
    → Fires r s (deploy_method r s)
unfolding deploy_method
deploy-Fires r s h = ground arith

pre_deploy_quiet : (r : Readings) (s : StateService) → (pre_deploy_method r s).effects ≡ s.effects
unfolding pre_deploy_method
pre_deploy_quiet r s = ground arith

standby_quiet :
    (r : Readings) (s : StateService) → fired (standby_method r s).effects ≡ fired s.effects
unfolding standby_method
standby_quiet r s = ground (arith, fired-reset r s)

beacon_quiet :
    (r : Readings) (s : StateService) → fired (beacon_method r s).effects ≡ fired s.effects
unfolding beacon_method
beacon_quiet r s = ground (arith, fired-reset r s)

edl_quiet : (r : Readings) (s : StateService) → (edl_method r s).effects ≡ s.effects
unfolding edl_method
edl_quiet r s = ground arith

dispatch_quiet :
    (r : Readings) (s : StateService)
    → (s.od.status == deploy) ≡ false
    → fired (dispatch r s).1.effects ≡ fired s.effects
unfolding dispatch
dispatch_quiet r s e =
    ground (arith, pre_deploy_quiet r s, standby_quiet r s, beacon_quiet r s, edl_quiet r s)

dispatch-Fires :
    (r : Readings) (s : StateService)
    → fired s.effects < fired (dispatch r s).1.effects
    → (s.od.status ≡ deploy) × Fires r s (dispatch r s).1
unfolding dispatch
dispatch-Fires r s h = elim (Bool-cases (s.od.status == deploy)) [
  | inl e ↦ ground (arith, deploy-Fires r s)
  | inr e ↦ absurd (omega (arith, dispatch_quiet r s e))
]

-- A pass that fires the antennas was made in DEPLOY, by a service with an attempt left whose
-- antennas are not marked as deployed, with both batteries above the threshold, and more than the
-- reattempt timeout after the last attempt.
pub fired_conditions :
    (r : Readings) (s : StateService)
    → fired s.effects < fired (loop_pass r s).1.effects
    → (s.od.status ≡ deploy)
      × (s.od.deployed ≡ false)
      × (s.attempts < s.od.ant_attempts)
      × (6500 < s.od.vbatt_bp1)
      × (6500 < s.od.vbatt_bp2)
      × (s.last_antennas_deploy + s.od.ant_reattempt_timeout * second < r.mono)
      × ((loop_pass r s).1.last_antennas_deploy ≡ r.mono_after)
unfolding loop_pass expire_tx
fired_conditions r s h = ground (arith, dispatch-Fires r (expire_tx r s))
