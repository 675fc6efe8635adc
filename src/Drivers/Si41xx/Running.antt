-- ===== src/Drivers/Si41xx/Running.antt =====
-- `start` and `stop`: whether the driver is running.
use oresat_c3_software.Prelude.{◌≤◌, ◌≡◌, arith, false, ok}
use oresat_c3_software.Drivers.Si41xx.{
  Si41xx, ready, stop_state, is_ready, start, stop, set_config_reg, write_reg,
  set_phase_pwrdown_reg, set_if_ndiv_reg, set_if_rdiv_reg,
}

-- The driver has dividers that its registers take.
pub record HasDividers (s : Si41xx) : Type 0 where
  pub n_fits : s.if_n ≤ 0xFF_FF
  pub r_fits : s.if_r ≤ 0x1_FF_FF

-- A driver that is not ready starts.
pub start_lem :
    (s : Si41xx)
    → is_ready s.state ≡ false
    → HasDividers s
    → let (r, s') = start s in
      (r ≡ ok tt) × (s'.state ≡ ready) × (s'.if_n ≡ s.if_n) × (s'.if_r ≡ s.if_r)
unfolding start set_config_reg write_reg set_phase_pwrdown_reg set_if_ndiv_reg set_if_rdiv_reg
start_lem s h d = ground arith

-- Any driver stops.
pub stop_lem :
    (s : Si41xx)
    → let (r, s') = stop s in
      (r ≡ ok tt) × (s'.state ≡ stop_state) × (s'.if_n ≡ s.if_n) × (s'.if_r ≡ s.if_r)
unfolding stop write_reg set_phase_pwrdown_reg
stop_lem s = ground arith
