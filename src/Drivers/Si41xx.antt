-- ===== src/Drivers/Si41xx.antt =====
-- oresat_c3/drivers/si41xx.py: the driver of the SI41xx RF synthesizer. A method acts on the
-- driver object, which holds what it has written to its GPIO lines. Register values are Python
-- ints that the program only ever makes from naturals, so the guards against negative numbers
-- have no counterpart. `|` of values that share no bit is written as a sum.
pub mod Gcd
pub mod Divider
pub mod Serial
pub mod Running
pub mod Synthesis
mod Tests
use oresat_c3_software.Prelude.{
  ℕ, zero, suc, ◌+◌, ◌-◌, ◌*◌, ◌/◌, ◌%◌, ◌^◌, List, [], ◌∷◌, ◌++◌, Bool, true, false, ◌||◌, Option,
  none, some, if◌then◌else◌, ltb, leb, bit_or, ◌==◌, Result, ok, err, Exec, pure, raise_if, gets,
  modify, when, ◌>>=◌, ◌>>◌,
}

pub data Si41xxRegister : Type 0 where
  config phase_gain pwrdown rf1_ndiv rf2_ndiv if_ndiv rf1_rdiv rf2_rdiv if_rdiv : Si41xxRegister

abbrev pub reg_value : Si41xxRegister → ℕ
reg_value config = 0
reg_value phase_gain = 1
reg_value pwrdown = 2
reg_value rf1_ndiv = 3
reg_value rf2_ndiv = 4
reg_value if_ndiv = 5
reg_value rf1_rdiv = 6
reg_value rf2_rdiv = 7
reg_value if_rdiv = 8

pub data Si41xxState : Type 0 where
  uninit stop_state ready : Si41xxState

abbrev pub is_ready : Si41xxState → Bool
is_ready ready = true
is_ready _ = false

pub data Si41xxIfdiv : Type 0 where
  div1 div2 div4 div8 : Si41xxIfdiv

abbrev pub ifdiv_value : Si41xxIfdiv → ℕ
ifdiv_value div1 = 0
ifdiv_value div2 = 1
ifdiv_value div4 = 3
ifdiv_value div8 = 4

-- `Si41xxAuxSel.LOCKDET`
abbrev pub lockdet : ℕ
lockdet = 3

-- Every raise of `Si41xxError`, by its message. `stuck` is no exception: the first loop of
-- `calc_div` never ends.
pub data Si41xxError : Type 0 where
  data_too_big freq_zero out_of_phasedet out_of_bounds already_started bad_value stuck : Si41xxError

-- A write to one of the GPIO lines.
pub data PinEvent : Type 0 where
  sen sclk sdata : Bool → PinEvent

pub record Si41xx : Type 0 where
  pub state : Si41xxState
  pub ref_freq : ℕ
  pub if_div : Si41xxIfdiv
  pub if_n : ℕ
  pub if_r : ℕ
  pub pbib : Bool
  pub pbrb : Bool
  pub pins : List PinEvent

-- `__init__`
unfoldable pub new_si41xx : ℕ → Si41xxIfdiv → ℕ → ℕ → Si41xx
new_si41xx ref_freq if_div if_n if_r = record {
  state = uninit;
  ref_freq = ref_freq;
  if_div = if_div;
  if_n = if_n;
  if_r = if_r;
  pbib = false;
  pbrb = false;
  pins = [];
}

abbrev pub max_phasedet : ℕ
max_phasedet = 1_000_000

abbrev pub min_phasedet : ℕ
min_phasedet = 10_000

abbrev pub msg_size : ℕ
msg_size = 22

abbrev pub data_mask : ℕ
data_mask = 0x3_FF_FF

-- `word & self._MSG_MSB`
abbrev pub top_bit : ℕ → Bool
top_bit word = word / 2 ^ 21 % 2 == 1

-- The loop of `_write_reg`, with the rounds that are left.
unfoldable pub shift_out : ℕ → ℕ → List PinEvent
shift_out zero word = []
shift_out (suc n) word = sclk false ∷ (sdata (top_bit word) ∷ (sclk true ∷ shift_out n (word * 2)))

abbrev pub write_events : ℕ → List PinEvent
write_events word =
    sen false ∷ (shift_out msg_size word ++ (sclk false ∷ (sen true ∷ (sclk true ∷ []))))

abbrev pub Driver : Type 0 → Type 0
Driver A = Exec Si41xxError Si41xx A

-- `_write_reg`
unfoldable pub write_reg : Si41xxRegister → ℕ → Driver (Unit {0})
write_reg reg data' s =
    if ltb data_mask data'
    then (err data_too_big, s)
    else (ok tt, record s { pins = s.pins ++ write_events (reg_value reg + data' % 2 ^ 18 * 16) })

-- The first loop of `calc_div`; `none` is fuel that has run out.
unfoldable pub gcd_loop : ℕ → ℕ → ℕ → Option ℕ
gcd_loop zero phasedet gcd = none
gcd_loop (suc fuel) phasedet gcd = elim (phasedet == gcd) [
  | true ↦ some phasedet
  | false ↦ elim (ltb gcd phasedet) [
    | true ↦ gcd_loop fuel (phasedet - gcd) gcd
    | false ↦ gcd_loop fuel phasedet (gcd - phasedet)
  ]
]

-- The second loop, which halves; `phasedet` rounds are more than it takes.
unfoldable pub halve_loop : ℕ → ℕ → ℕ
halve_loop zero phasedet = phasedet
halve_loop (suc fuel) phasedet = elim (leb max_phasedet phasedet) [
  | true ↦ halve_loop fuel (phasedet / 2)
  | false ↦ phasedet
]

-- What is left of `calc_div` behind its loops.
unfoldable pub pick_div : ℕ → ℕ → ℕ → Result Si41xxError (ℕ × ℕ)
pick_div ref_freq freq phasedet =
    if ltb phasedet min_phasedet
    then err out_of_phasedet
    else if ltb 0xFF_FF (freq / phasedet) || ltb 0x1F_FF (ref_freq / phasedet)
    then err out_of_bounds
    else ok (freq / phasedet, ref_freq / phasedet)

-- `calc_div`
unfoldable pub calc_div : ℕ → ℕ → Result Si41xxError (ℕ × ℕ)
calc_div ref_freq freq =
    if freq == 0 then err freq_zero else (elim (gcd_loop (ref_freq + freq) ref_freq freq) [
      | none ↦ err stuck
      | some g ↦ pick_div ref_freq freq (halve_loop g g)
    ])

abbrev pub bit : Bool → ℕ
bit true = 1
bit false = 0

-- `_set_config_reg`, by the number of `aux_sel`
unfoldable pub set_config_reg : Bool → Bool → Bool → Bool → Si41xxIfdiv → ℕ → Driver (Unit {0})
set_config_reg rfpwr autokp autopdb lprw if_div aux_sel = write_reg config (
    bit_or
      (bit rfpwr * 2 + bit autokp * 4 + bit autopdb * 8 + bit lprw * 32 + ifdiv_value if_div * 1024)
      (aux_sel * 4096))

-- `_set_phase_gain_reg`
unfoldable pub set_phase_gain_reg : ℕ → ℕ → ℕ → Driver (Unit {0})
set_phase_gain_reg kp1 kp2 kpi = do
  raise_if (ltb 3 kp1 || (ltb 3 kp2 || ltb 3 kpi)) bad_value
  write_reg phase_gain (kp1 + kp2 * 4 + kpi * 16)

-- `_set_phase_pwrdown_reg`
unfoldable pub set_phase_pwrdown_reg : Bool → Bool → Driver (Unit {0})
set_phase_pwrdown_reg pbrb pbib = write_reg pwrdown (bit pbrb + bit pbib * 2)

-- The setters of the dividers, with the bound that each has.
abbrev pub set_divider : Si41xxRegister → ℕ → ℕ → Driver (Unit {0})
set_divider reg bound value = do raise_if (ltb bound value) bad_value; write_reg reg value

unfoldable pub set_rf1_ndiv_reg : ℕ → Driver (Unit {0})
set_rf1_ndiv_reg = set_divider rf1_ndiv 0x3_FF_FF

unfoldable pub set_rf2_ndiv_reg : ℕ → Driver (Unit {0})
set_rf2_ndiv_reg = set_divider rf2_ndiv 0x1_FF_FF

unfoldable pub set_if_ndiv_reg : ℕ → Driver (Unit {0})
set_if_ndiv_reg = set_divider if_ndiv 0xFF_FF

unfoldable pub set_rf1_rdiv_reg : ℕ → Driver (Unit {0})
set_rf1_rdiv_reg = set_divider rf1_rdiv 0x1_FF_FF

unfoldable pub set_rf2_rdiv_reg : ℕ → Driver (Unit {0})
set_rf2_rdiv_reg = set_divider rf2_rdiv 0x1_FF_FF

unfoldable pub set_if_rdiv_reg : ℕ → Driver (Unit {0})
set_if_rdiv_reg = set_divider if_rdiv 0x1_FF_FF

abbrev pub set_pbib : Bool → Driver (Unit {0})
set_pbib b = modify (λ s. record s { pbib = b })

-- `self._set_phase_pwrdown_reg(self._pbrb, self._pbib)`
abbrev pub write_pwrdown : Driver (Unit {0})
write_pwrdown s = set_phase_pwrdown_reg s.pbrb s.pbib s

-- `start`
unfoldable pub start : Driver (Unit {0})
start = do
  s ← gets (λ s. s)
  raise_if (is_ready s.state) already_started
  modify (λ s. record s { pbib = false; pbrb = false })
  set_config_reg false true false false s.if_div lockdet
  write_reg phase_gain 0
  write_pwrdown
  set_pbib true
  set_if_ndiv_reg s.if_n
  set_if_rdiv_reg s.if_r
  write_pwrdown
  modify (λ s. record s { state = ready })

-- `stop`
unfoldable pub stop : Driver (Unit {0})
stop = do
  modify (λ s. record s { pbib = false; pbrb = false })
  state ← gets (λ s. s.state)
  when (is_ready state) (do write_pwrdown; write_reg config 0)
  modify (λ s. record s { state = stop_state })

-- The statements of `set_if` behind `calc_div`.
abbrev pub program_if : ℕ → ℕ → Driver (Unit {0})
program_if n r = do
  modify (λ s. record s { if_n = n; if_r = r; pbib = false })
  write_pwrdown
  set_if_ndiv_reg n
  set_if_rdiv_reg r
  set_pbib true
  write_pwrdown

-- `set_if`; `freq << self._if_div` shifts by the number of the member.
unfoldable pub set_if : ℕ → Driver (Unit {0})
set_if freq s = elim (calc_div s.ref_freq (freq * 2 ^ ifdiv_value s.if_div)) [
  | err e ↦ (err e, s)
  | ok (n, r) ↦ program_if n r s
]

-- `set_if_div`
unfoldable pub set_if_div : Si41xxIfdiv → Driver (Unit {0})
set_if_div div = do
  modify (λ s. record s { if_div = div })
  set_config_reg false false false false div 0
