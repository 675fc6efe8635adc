-- ===== src/Subsystems/Antennas.antt =====
-- oresat_c3/subsystems/antennas.py: the deployment of the antennas, as the run of writes to the
-- GPIO lines and of waits that it comes to. The ADC value of a test is an argument.
use oresat_c3_software.Prelude.{ℕ, List, [], ◌∷◌, ◌++◌, Bool, leb}

-- The GPIO lines that `Antennas` holds, by the attribute that holds them.
pub data Line : Type 0 where
  monopole_1 monopole_2 helical_1 helical_2 test_monopole test_helical : Line

pub data GpioEvent : Type 0 where
  -- `line.mode = GPIO_OUT` and `line.mode = GPIO_IN`
  as_output as_input : Line → GpioEvent
  high low : Line → GpioEvent
  sleep : ℕ → GpioEvent

unfoldable pub deploy_helical : ℕ → List GpioEvent
deploy_helical timeout =
    as_output helical_1
    ∷ as_output helical_2
    ∷ high helical_1
    ∷ high helical_2
    ∷ sleep timeout
    ∷ low helical_1
    ∷ low helical_2
    ∷ as_input helical_1
    ∷ as_input helical_2
    ∷ []

unfoldable pub deploy_monopole : ℕ → List GpioEvent
deploy_monopole timeout =
    as_output monopole_1
    ∷ as_output monopole_2
    ∷ high monopole_1
    ∷ high monopole_2
    ∷ sleep timeout
    ∷ low monopole_1
    ∷ low monopole_2
    ∷ as_input monopole_1
    ∷ as_input monopole_2
    ∷ []

unfoldable pub deploy : ℕ → ℕ → List GpioEvent
unfolding deploy_helical deploy_monopole
deploy timeout delay_between =
    deploy_monopole timeout ++ (sleep delay_between ∷ deploy_helical timeout)

-- The answer of the test, and what it does to its line.
unfoldable pub is_helical_good : ℕ → ℕ → Bool × List GpioEvent
is_helical_good good_threshold value =
    (leb good_threshold value, high test_helical ∷ low test_helical ∷ [])

unfoldable pub is_monopole_good : ℕ → ℕ → Bool × List GpioEvent
is_monopole_good good_threshold value =
    (leb good_threshold value, high test_monopole ∷ low test_monopole ∷ [])
