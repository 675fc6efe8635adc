-- ===== src/Scripts/CmdShell/Tests.antt =====
-- Lines of the shell, and a session.
use oresat_c3_software.Prelude.{
  ℕ, ◌+◌, ◌*◌, ◌-◌, ◌&&◌, leb, Option, List, [], ◌∷◌, true, ◌≡◌, refl, arith, none, some,
  if◌then◌else◌,
}
use oresat_c3_software.Protocols.Struct.{int, truth}
use oresat_c3_software.Protocols.EdlCommand.{tx_ctrl, rtc_set_time}
use oresat_c3_software.Protocols.Struct
use oresat_c3_software.Services.Edl.{EdlService}
use oresat_c3_software.Scripts.CmdShell.{
  Line, Python, Cards, shows_help, do_command, ping_command, do_tx_control, split,
}
use oresat_c3_software.Scripts.CmdShell.Lines.{IsRead, IsInRange, do_command-IsRead}
use oresat_c3_software.Scripts.CmdShell.Sessions.{Exchange}

-- `int` of decimal digits.
abbrev digits : ℕ → Line → Option ℕ
digits n [] = some n
digits n (c ∷ line) = if leb b'0' c && leb c b'9' then digits (n * 10 + (c - b'0')) line else none

abbrev python : Python
python = record { decimal = digits 0; hexadecimal = λ word. none; now = 1_700_000_000 }

abbrev cards : Cards
cards = (b'g' ∷ b'p' ∷ b's' ∷ [], 25) ∷ []

-- `24`
abbrev line : Line
line = b'2' ∷ b'4' ∷ []

line-IsInRange : IsInRange python cards ping_command line
unfolding split
line-IsInRange = record { now_small = omega arith; number_small = λ n h. ground arith }

do_command-IsRead_example : IsRead (do_command python cards ping_command line)
do_command-IsRead_example = do_command-IsRead python cards ping_command line line-IsInRange

two_words : do_tx_control (b'1' ∷ b' ' ∷ []) ≡ shows_help
unfolding do_tx_control split
two_words = refl

-- The command to set the clock is not answered, so the next packet has its number again.
abbrev session : List Exchange
session =
    record {
      code = rtc_set_time;
      args = some (int 5 ∷ []);
      reachable = true;
      arrives = true;
      at = 1;
      answer = none;
    }
    ∷ record {
      code = tx_ctrl;
      args = some (truth true ∷ []);
      reachable = true;
      arrives = true;
      at = 2;
      answer = none;
    }
    ∷ []

abbrev flying : EdlService
flying = record { flight_mode = true; sequence_count = 3; rejected_count = 0; last_edl = 0 }
