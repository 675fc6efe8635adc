-- ===== src/Services/Radios.antt =====
-- oresat_c3/services/radios.py: the power and the synthesizer of the radios. A GPIO output of olaf is
-- the level that was last written to it; the inputs are arguments, one for each reading, and so is
-- what comes from the socket.
pub mod Power
mod Tests
use oresat_c3_software.Prelude.{
  ℕ, zero, suc, ◌+◌, ◌/◌, List, [], ◌∷◌, ◌++◌, Bool, true, false, not, if◌then◌else◌, ◌==◌, Result,
  ok, err, Exec, modify, when, ◌>>=◌, ◌>>◌,
}
use oresat_c3_software.Drivers.Si41xx
use oresat_c3_software.Drivers.Si41xx.{Si41xx, Si41xxError, div1, new_si41xx, start, stop}

-- The service: the outputs, the synthesizer, its count and the OD entries for it, whether the
-- daemons run, the queue of received messages, and what was sent.
pub record RadiosService : Type 0 where
  pub mock_hw : Bool
  pub si41xx : Si41xx
  pub uhf_tot_clear_pin : Bool
  pub radio_enable_pin : Bool
  pub uhf_enable_pin : Bool
  pub lband_enable_pin : Bool
  pub relock_count : ℕ
  pub synth_relock_count : ℕ
  pub synth_lock : Bool
  pub daemons : Bool
  pub recv_queue : List (List ℕ)
  pub beacons : List (List ℕ)
  pub edl_responses : List (List ℕ)

-- The synthesizer of `__init__`.
abbrev pub lband_synth : Si41xx
lband_synth = new_si41xx 16_000_000 div1 1616 32

abbrev pub Radios : Type 0 → Type 0
Radios A = Exec Si41xxError RadiosService A

-- `int.bit_length`, with more rounds than there are bits.
unfoldable pub bit_length_from : ℕ → ℕ → ℕ
bit_length_from zero n = 0
bit_length_from (suc rounds) n = elim (n == 0) [
  | true ↦ 0
  | false ↦ suc (bit_length_from rounds (n / 2))
]

abbrev pub bit_length : ℕ → ℕ
bit_length n = bit_length_from n n

-- A call of the synthesizer.
abbrev pub synth : Exec Si41xxError Si41xx (Unit {0}) → Radios (Unit {0})
synth m s = let (r, t) = m s.si41xx in (r, record s { si41xx = t })

-- `self._relock_count += 1`, and its bit length to the OD.
abbrev pub count_relock : Radios (Unit {0})
count_relock = modify (λ s. record s {
  relock_count = s.relock_count + 1;
  synth_relock_count = bit_length (s.relock_count + 1);
})

abbrev pub run_daemons : Bool → Radios (Unit {0})
run_daemons running = modify (λ s. record s { daemons = if s.mock_hw then s.daemons else running })

-- `uhf_tot_clear`
unfoldable pub uhf_tot_clear : Radios (Unit {0})
uhf_tot_clear = do
  modify (λ s. record s { uhf_tot_clear_pin = true })
  modify (λ s. record s { uhf_tot_clear_pin = false })

-- `enable`
unfoldable pub enable : Radios (Unit {0})
enable = do
  modify (λ s. record s { radio_enable_pin = true })
  modify (λ s. record s { uhf_enable_pin = true })
  modify (λ s. record s { lband_enable_pin = true })
  uhf_tot_clear
  synth start
  count_relock
  run_daemons true

-- `disable`
unfoldable pub disable : Radios (Unit {0})
disable = do
  run_daemons false
  synth stop
  modify (λ s. record s { lband_enable_pin = false })
  modify (λ s. record s { uhf_enable_pin = false })
  modify (λ s. record s { radio_enable_pin = false })

-- The second test of `on_loop`, by the level of the lock pin, which is active low.
unfoldable pub check_lock : Bool → Radios (Unit {0})
check_lock nlock = do
  modify (λ s. record s { synth_lock = not nlock })
  when nlock (do count_relock; synth stop; synth start)

-- `recv_queue.put` of what is not empty.
abbrev pub put : List ℕ → Radios (Unit {0})
put [] = modify (λ s. s)
put (b ∷ raw) = modify (λ s. record s { recv_queue = s.recv_queue ++ ((b ∷ raw) ∷ []) })

-- `on_loop`; a message of no bytes is a timeout.
unfoldable pub on_loop : Bool → Bool → List ℕ → Radios (Unit {0})
on_loop tot_ok nlock recv = do when (not tot_ok) (do disable; enable); check_lock nlock; put recv

-- `on_start` adds the daemons to the node and enables the radios, and `on_stop` disables them.
abbrev pub on_start : Radios (Unit {0})
on_start = enable

abbrev pub on_stop : Radios (Unit {0})
on_stop = disable

-- `send_beacon` and `send_edl_response`; `sent` says whether `sendto` returned.
unfoldable pub send_beacon : Bool → List ℕ → Radios (Unit {0})
send_beacon sent message =
    when sent (modify (λ s. record s { beacons = s.beacons ++ (message ∷ []) }))

unfoldable pub send_edl_response : Bool → List ℕ → Radios (Unit {0})
send_edl_response sent message =
    when sent (modify (λ s. record s { edl_responses = s.edl_responses ++ (message ∷ []) }))
