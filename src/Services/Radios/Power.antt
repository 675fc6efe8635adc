-- ===== src/Services/Radios/Power.antt =====
-- The radios stay on.
use oresat_c3_software.Prelude.{
  ℕ, ◌≡◌, refl, arith, List, [], ◌∷◌, Bool, true, false, ok, ◌>>◌, >>-eq_ok, not, when,
}
use oresat_c3_software.Drivers.Si41xx.{ready, is_ready, stop}
use oresat_c3_software.Drivers.Si41xx.Running.{HasDividers, start_lem, stop_lem}
use oresat_c3_software.Services.Radios.{
  RadiosService, Radios, uhf_tot_clear, enable, disable, check_lock, put, on_loop,
}

-- The three parts are powered, the timer is not held clear, the synthesizer runs with dividers that
-- fit, and the daemons run unless the hardware is mocked.
pub record IsOn (s : RadiosService) : Type 0 where
  pub radio : s.radio_enable_pin ≡ true
  pub uhf : s.uhf_enable_pin ≡ true
  pub lband : s.lband_enable_pin ≡ true
  pub timer : s.uhf_tot_clear_pin ≡ false
  pub running : s.si41xx.state ≡ ready
  pub dividers : HasDividers s.si41xx
  pub daemons : s.mock_hw ≡ false → s.daemons ≡ true

-- A call returns with the radios on.
abbrev pub Keeps : Radios (Unit {0}) → RadiosService → Type 0
Keeps m s = ((m s).0 ≡ ok tt) × IsOn (m s).1

Keeps-both :
    (m k : Radios (Unit {0})) (s : RadiosService)
    → Keeps m s
    → ((t : RadiosService) → IsOn t → Keeps k t)
    → Keeps (m >> k) s
Keeps-both m k s h go = rw (>>-eq_ok m k s h.0) (go (m s).1 h.1)

-- Radios whose synthesizer is not running are switched on.
pub enable-IsOn :
    (s : RadiosService) → is_ready s.si41xx.state ≡ false → HasDividers s.si41xx → Keeps enable s
unfolding enable uhf_tot_clear
enable-IsOn s h d = ground (arith, start_lem s.si41xx h d)

restarted :
    (s : RadiosService)
    → HasDividers s.si41xx
    → let t = (disable s).1 in
      ((disable s).0 ≡ ok tt) × (is_ready t.si41xx.state ≡ false) × HasDividers t.si41xx
unfolding disable
restarted s d = ground (arith, stop_lem s.si41xx)

cycled : (s : RadiosService) → IsOn s → Keeps (check_lock true) s
unfolding check_lock
cycled s h =
    let t = (stop s.si41xx).1 in
    let (stopped, state, n, r) = stop_lem s.si41xx in
    let started =
      start_lem t (ground arith)
        (record { n_fits = rw n h.dividers.n_fits; r_fits = rw r h.dividers.r_fits }) in
    ground (arith, stopped, started)

locked : (s : RadiosService) → IsOn s → Keeps (check_lock false) s
unfolding check_lock
locked s h = ground arith

power_cycled : (s : RadiosService) → IsOn s → Keeps (disable >> enable) s
power_cycled s h =
    let (returned, off, d) = restarted s h.dividers in
    rw (>>-eq_ok disable enable s returned) (enable-IsOn (disable s).1 off d)

checked_timer :
    (tot_ok : Bool) (s : RadiosService) → IsOn s → Keeps (when (not tot_ok) (disable >> enable)) s
checked_timer true s h = (refl, h)
checked_timer false s h = power_cycled s h

checked_lock : (nlock : Bool) (s : RadiosService) → IsOn s → Keeps (check_lock nlock) s
checked_lock true s h = cycled s h
checked_lock false s h = locked s h

put-IsOn : (recv : List ℕ) (s : RadiosService) → IsOn s → Keeps (put recv) s
put-IsOn [] s h = (refl, h)
put-IsOn (b ∷ raw) s h = ground arith

-- A pass of `on_loop` on radios that are on returns, with the radios on, whatever the timer's and the
-- lock's pin say and whatever is received. So restarting the synthesizer never finds it running.
pub on_loop-IsOn :
    (tot_ok nlock : Bool) (recv : List ℕ) (s : RadiosService)
    → IsOn s
    → let (r, s') = on_loop tot_ok nlock recv s in (r ≡ ok tt) × IsOn s'
unfolding on_loop
on_loop-IsOn tot_ok nlock recv s h =
    let rest : Radios (Unit {0}) = check_lock nlock >> put recv in
    Keeps-both (when (not tot_ok) (disable >> enable)) rest s (checked_timer tot_ok s h) (λ t i.
      Keeps-both (check_lock nlock) (put recv) t (checked_lock nlock t i)
        (λ u j. put-IsOn recv u j))
