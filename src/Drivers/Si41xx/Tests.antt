-- ===== src/Drivers/Si41xx/Tests.antt =====
-- The theorems on the synthesizer at concrete inputs.
use oresat_c3_software.Prelude.{
  ℕ, ◌*◌, ◌/◌, ◌^◌, ◌<◌, ◌≤◌, ◌≡◌, ◌⊎◌, refl, arith, [], ◌∷◌, ◌++◌, true, false, ◌&&◌, ltb, leb, ok,
  err, if◌then◌else◌,
}
use oresat_c3_software.Drivers.Si41xx.{
  Si41xx, Si41xxError, out_of_phasedet, out_of_bounds, data_too_big, freq_zero, div1, ifdiv_value,
  config, pwrdown, if_ndiv, if_rdiv, new_si41xx, gcd_loop, halve_loop, pick_div, calc_div, set_if,
  start, set_config_reg, set_if_ndiv_reg, set_if_rdiv_reg, set_phase_pwrdown_reg, write_reg,
  data_mask, max_phasedet, min_phasedet, shift_out,
}
use oresat_c3_software.Drivers.Si41xx.Divider.{
  lband_ref, IsPhasedet, calc_div_outcome, calc_div_exact,
}
use oresat_c3_software.Drivers.Si41xx.Serial.{
  Serial, receive, receive_all, latched, latched-write_reg, word_of,
}
use oresat_c3_software.Drivers.Si41xx.Synthesis.{set_if_outcome}

abbrev lband_freq : ℕ
lband_freq = 808_000_000

-- The synthesizer of the radios.
lband : Si41xx
unfolding new_si41xx
lband = new_si41xx lband_ref div1 1616 32

abbrev idle : Serial
idle = record { sen_level = true; sclk_level = true; sdata_level = false; shifted = 0; words = [] }

calc_div_lband : calc_div lband_ref lband_freq ≡ ok (1616, 32)
unfolding calc_div gcd_loop halve_loop pick_div
calc_div_lband = refl

calc_div_zero : calc_div lband_ref 0 ≡ err freq_zero
unfolding calc_div
calc_div_zero = refl

calc_div_outcome_example :
    (d : ℕ) × IsPhasedet d lband_freq
    × (calc_div lband_ref lband_freq ≡ (
        if ltb d 10_000
        then err out_of_phasedet
        else if leb (lband_freq / d) 0xFF_FF && leb (lband_ref / d) 0x1F_FF
        then ok (lband_freq / d, lband_ref / d)
        else err out_of_bounds))
calc_div_outcome_example = calc_div_outcome lband_freq (omega arith)

calc_div_exact_example :
    (1616 * lband_ref ≡ 32 * lband_freq)
    × (1616 ≤ 0xFF_FF)
    × (32 ≤ 0x1F_FF)
    × ((d : ℕ) × (lband_freq ≡ 1616 * d)
        × (lband_ref ≡ 32 * d)
        × (min_phasedet ≤ d)
        × (d < max_phasedet))
calc_div_exact_example = calc_div_exact lband_freq 1616 32 calc_div_lband

latched-write_reg_example :
    let (r, s') = write_reg if_ndiv 1616 lband in
    (s' ≡ record lband { pins = s'.pins })
    × (((data_mask < 1616) × (r ≡ err data_too_big) × (s'.pins ≡ lband.pins))
        ⊎ ((1616 ≤ data_mask)
            × (r ≡ ok tt)
            × (latched idle s'.pins ≡ latched idle lband.pins ++ (word_of if_ndiv 1616 ∷ []))))
latched-write_reg_example = latched-write_reg if_ndiv 1616 idle lband

set_if_outcome_example :
    let (result, s') = set_if lband_freq lband in
    let answer = calc_div lband.ref_freq (lband_freq * 2 ^ ifdiv_value lband.if_div) in
    ((e : Si41xxError) × (answer ≡ err e) × (result ≡ err e) × (s' ≡ lband))
    ⊎ ((n : ℕ) × ((r : ℕ) × (answer ≡ ok (n, r))
          × (result ≡ ok tt)
          × (s'.if_n ≡ n)
          × (s'.if_r ≡ r)
          × (s'.pbib ≡ true)
          × (latched idle s'.pins
              ≡ latched idle lband.pins
                ++ (word_of pwrdown 0
                    ∷ (word_of if_ndiv n ∷ (word_of if_rdiv r ∷ (word_of pwrdown 2 ∷ [])))))))
unfolding lband
set_if_outcome_example = set_if_outcome lband_freq idle lband refl

-- `start` of the radios' synthesizer, as the chip gets it.
start_words :
    latched idle (start lband).1.pins
    ≡ word_of config 0x3004
      ∷ 1
      ∷ word_of pwrdown 0
      ∷ word_of if_ndiv 1616
      ∷ word_of if_rdiv 32
      ∷ word_of pwrdown 2
      ∷ []
unfolding lband start set_config_reg set_phase_pwrdown_reg set_if_ndiv_reg set_if_rdiv_reg write_reg
    shift_out latched receive_all receive
start_words = refl
