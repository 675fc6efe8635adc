-- ===== src/Scripts/CmdShell.antt =====
-- scripts/edl_cmd_shell.py: the commands of `EdlCommandShell`, from a line to the packet. A string
-- is the list of its characters. `int` and `time` of Python are parameters, for numbers that are
-- not negative.
pub mod Numbers
pub mod Sessions
pub mod Sdo
pub mod SdoLines
pub mod Lines
mod Tests
use oresat_c3_software.Prelude.{
  ℕ, ◌+◌, ◌-◌, ◌≤◌, ltb, leb, ◌==◌, List, [], ◌∷◌, Bool, true, false, not, ◌&&◌, ◌||◌, Option, none,
  some, if◌then◌else◌, map, eq_bytes, Result, ok, err, from_bytes,
}
use oresat_c3_software.Protocols.Struct.{Value, int, truth}
use oresat_c3_software.Protocols.EdlCommand.{
  Payload, EdlCommandCode, Body, no_body, res_body, tx_ctrl, beacon_ping, ping, rx_test,
  c3_soft_reset, c3_hard_reset, c3_factory_reset, opd_sysenable, opd_enable, rtc_set_time,
}
use oresat_c3_software.Protocols.EdlPacket
use oresat_c3_software.Protocols.EdlPacket.{
  Packages, EdlPacket, EdlPayload, request, response, pdu, PacketError, src_dest_oresat,
}

abbrev pub Line : Type 0
Line = List ℕ

-- `arg.split(" ")`
abbrev pub push : ℕ → List Line → List Line
push c [] = (c ∷ []) ∷ []
push c (word ∷ words) = (c ∷ word) ∷ words

unfoldable pub split : Line → List Line
split [] = [] ∷ []
split (c ∷ line) = if c == 32 then [] ∷ split line else push c (split line)

-- `lower`, of ASCII letters.
abbrev pub lower : Line → Line
lower line = map (λ c. if leb 65 c && leb c 90 then c + 32 else c) line

-- `"true"`, `"false"`, `"time"`, `"now"`, and `startswith("0x")`
abbrev pub true_word : Line
true_word = b't' ∷ b'r' ∷ b'u' ∷ b'e' ∷ []

abbrev pub false_word : Line
false_word = b'f' ∷ b'a' ∷ b'l' ∷ b's' ∷ b'e' ∷ []

abbrev pub time_word : Line
time_word = b't' ∷ b'i' ∷ b'm' ∷ b'e' ∷ []

abbrev pub now_word : Line
now_word = b'n' ∷ b'o' ∷ b'w' ∷ []

abbrev pub is_hex : Line → Bool
is_hex (a ∷ x ∷ line) = (a == b'0') && (x == b'x')
is_hex _ = false

-- `["true", "1"]` and `["false", "0"]`
unfoldable pub switch : Line → Option Bool
switch word =
    if eq_bytes word true_word || eq_bytes word (b'1' ∷ [])
    then some true
    else if eq_bytes word false_word || eq_bytes word (b'0' ∷ [])
    then some false
    else none

-- What a command comes to: its help, a message, an exception of `int` or another one, or a packet.
pub data Outcome : Type 0 where
  shows_help refused value_error raises : Outcome
  sends : (code : EdlCommandCode) (args : Option (List Value)) → Outcome

-- `int(text)` and `int(text, 16)`, `none` where they raise, and `int(time())`.
pub record Python : Type 0 where
  pub decimal : Line → Option ℕ
  pub hexadecimal : Line → Option ℕ
  pub now : ℕ

-- `self.configs.cards.items()`, by the OPD addresses.
abbrev pub Cards : Type 0
Cards = List (Line × ℕ)

abbrev pub sends_number : EdlCommandCode → Option ℕ → Outcome
sends_number code none = value_error
sends_number code (some n) = sends code (some (int n ∷ []))

abbrev pub sends_switch : EdlCommandCode → Option Bool → Outcome
sends_switch code none = shows_help
sends_switch code (some b) = sends code (some (truth b ∷ []))

-- `do_tx_control`; a line of more than one word shows the help, and so does an empty line.
abbrev pub tx_control_words : List Line → Outcome
tx_control_words (word ∷ []) = sends_switch tx_ctrl (switch (lower word))
tx_control_words _ = shows_help

unfoldable pub do_tx_control : Line → Outcome
do_tx_control [] = shows_help
do_tx_control (c ∷ arg) = tx_control_words (split (c ∷ arg))

-- `do_beacon_ping`, `do_rx_test` and the three resets.
abbrev pub do_beacon_ping : Line → Outcome
do_beacon_ping _ = sends beacon_ping none

abbrev pub do_rx_test : Line → Outcome
do_rx_test _ = sends rx_test none

abbrev pub do_c3_soft_reset : Line → Outcome
do_c3_soft_reset _ = sends c3_soft_reset none

abbrev pub do_c3_hard_reset : Line → Outcome
do_c3_hard_reset _ = sends c3_hard_reset none

abbrev pub do_c3_factory_reset : Line → Outcome
do_c3_factory_reset _ = sends c3_factory_reset none

-- `do_opd_sysenable`
unfoldable pub do_opd_sysenable : Line → Outcome
do_opd_sysenable arg = sends_switch opd_sysenable (switch (lower arg))

-- The address of a card by its name; 0 where there is none.
unfoldable pub address_of : Line → Cards → ℕ
address_of name [] = 0
address_of name (card ∷ cards) = if eq_bytes card.0 name then card.1 else address_of name cards

abbrev pub opd_enable_of : Option ℕ → Option Bool → Outcome
opd_enable_of none enable = value_error
opd_enable_of (some address) none = shows_help
opd_enable_of (some address) (some enable) =
    sends opd_enable (some (int address ∷ truth enable ∷ []))

-- The commands by their names, as the class `Cmd` finds their methods.
pub data Command : Type 0 where
  tx_control beacon_ping_command ping_command rx_test_command c3_soft_reset_command
        c3_hard_reset_command c3_factory_reset_command opd_sysenable_command opd_enable_command
        rtc_set_time_command :
      Command

module _ (python : Python) where
  -- `do_ping`
  abbrev pub ping_words : List Line → Outcome
  ping_words (word ∷ []) =
      if eq_bytes word [] || eq_bytes word time_word
      then sends_number ping (some python.now)
      else if is_hex word
      then sends_number ping (python.hexadecimal word)
      else sends_number ping (python.decimal word)
  ping_words _ = shows_help

  unfoldable pub do_ping : Line → Outcome
  do_ping arg = ping_words (split arg)

  -- `do_rtc_set_time`
  abbrev pub rtc_words : List Line → Outcome
  rtc_words (word ∷ []) =
      if eq_bytes word [] || eq_bytes word now_word
      then sends_number rtc_set_time (some python.now)
      else sends_number rtc_set_time (python.decimal word)
  rtc_words _ = shows_help

  unfoldable pub do_rtc_set_time : Line → Outcome
  do_rtc_set_time arg = rtc_words (split arg)

  -- `do_opd_enable`
  abbrev pub opd_enable_words : Cards → List Line → Outcome
  opd_enable_words cards (name ∷ enable ∷ []) =
      if is_hex name
      then opd_enable_of (python.hexadecimal name) (switch (lower enable))
      else if address_of name cards == 0
      then shows_help
      else opd_enable_of (some (address_of name cards)) (switch (lower enable))
  opd_enable_words cards _ = shows_help

  unfoldable pub do_opd_enable : Cards → Line → Outcome
  do_opd_enable cards arg = opd_enable_words cards (split arg)

  abbrev pub do_command : Cards → Command → Line → Outcome
  do_command cards tx_control line = do_tx_control line
  do_command cards beacon_ping_command line = do_beacon_ping line
  do_command cards ping_command line = do_ping line
  do_command cards rx_test_command line = do_rx_test line
  do_command cards c3_soft_reset_command line = do_c3_soft_reset line
  do_command cards c3_hard_reset_command line = do_c3_hard_reset line
  do_command cards c3_factory_reset_command line = do_c3_factory_reset line
  do_command cards opd_sysenable_command line = do_opd_sysenable line
  do_command cards opd_enable_command line = do_opd_enable cards line
  do_command cards rtc_set_time_command line = do_rtc_set_time line

-- What `_send_packet` returns: the empty tuple after an exception, `None`, or the values. A packet
-- that is no response has no `values`, which raises past the handler of the exceptions.
pub data Sent : Type 0 where
  failed no_values attribute_error : Sent
  values : List Value → Sent

-- `edl_command.res_fmt is not None or edl_command.res_unpack_func is not None`
abbrev pub has_response : EdlCommandCode → Bool
has_response code = elim (res_body code) [ no_body ↦ false | _ ↦ true ]

abbrev pub some_values : Option (List Value) → Sent
some_values (some (v ∷ vs)) = values (v ∷ vs)
some_values _ = no_values

abbrev pub values_of : {Pdu : Type 0} → EdlPacket Pdu → Sent
values_of p = elim p.payload [ response payload ↦ some_values payload.args | _ ↦ attribute_error ]

module _ {Pdu : Type 0} (pkg : Packages Pdu) (key : List ℕ) where
  abbrev pub answered : ℕ → Option (List ℕ) → Sent × ℕ
  answered seq_num none = (failed, seq_num)
  answered seq_num (some raw) = elim (EdlPacket.unpack pkg raw key false) [
    | err e ↦ (failed, seq_num)
    | ok p ↦ (values_of p, seq_num + 1)
  ]

  abbrev pub sent_to :
      EdlCommandCode → Result PacketError (List ℕ) → Bool → Option (List ℕ) → ℕ → Sent × ℕ
  sent_to code (err e) reachable received' seq_num = (failed, seq_num)
  sent_to code (ok raw) reachable received' seq_num = elim reachable [
    | false ↦ (failed, seq_num)
    | true ↦ elim (has_response code) [
      | true ↦ answered seq_num received'
      | false ↦ (no_values, seq_num + 1)
    ]
  ]

  abbrev pub packet_of : EdlCommandCode → Option (List Value) → ℕ → EdlPacket Pdu
  packet_of code args seq_num = record {
    payload = request (record { code = code; args = args });
    seq_num = seq_num;
    src_dest = src_dest_oresat;
  }

  -- `_send_packet`, with whether the packet could be sent and what was received in time.
  unfoldable pub send_packet :
      EdlCommandCode → Option (List Value) → Bool → Option (List ℕ) → ℕ → Sent × ℕ
  send_packet code args reachable received' seq_num =
      sent_to code (EdlPacket.pack pkg key (packet_of code args seq_num)) reachable received'
        seq_num
