-- ===== src/Services/Radios/Tests.antt =====
-- The radios at a concrete state.
use oresat_c3_software.Prelude.{◌≡◌, refl, arith, [], ◌∷◌, true, false, ok, err}
use oresat_c3_software.Drivers.Si41xx.{ready, already_started, start, new_si41xx}
use oresat_c3_software.Services.Radios.{
  RadiosService, lband_synth, bit_length, bit_length_from, enable, uhf_tot_clear, on_loop,
}
use oresat_c3_software.Services.Radios.Power.{IsOn, on_loop-IsOn}

abbrev radios : RadiosService
unfolding new_si41xx
radios = record {
  mock_hw = false;
  si41xx = record lband_synth { state = ready };
  uhf_tot_clear_pin = false;
  radio_enable_pin = true;
  uhf_enable_pin = true;
  lband_enable_pin = true;
  relock_count = 4;
  synth_relock_count = 3;
  synth_lock = true;
  daemons = true;
  recv_queue = [];
  beacons = [];
  edl_responses = [];
}

radios-IsOn : IsOn radios
unfolding radios new_si41xx
radios-IsOn = record {
  radio = refl;
  uhf = refl;
  lband = refl;
  timer = refl;
  running = refl;
  dividers = record { n_fits = omega arith; r_fits = omega arith };
  daemons = λ h. refl;
}

on_loop-IsOn_example : let (r, s') = on_loop false true (1 ∷ 2 ∷ []) radios in (r ≡ ok tt) × IsOn s'
on_loop-IsOn_example = on_loop-IsOn false true (1 ∷ 2 ∷ []) radios radios-IsOn

-- The OD gets the number of bits of the count, not the count.
four_relocks : bit_length 4 ≡ 3
unfolding bit_length_from
four_relocks = refl

-- Enabling radios that are on raises.
enabled_twice : (enable radios).0 ≡ err already_started
unfolding radios new_si41xx enable uhf_tot_clear start
enabled_twice = refl
