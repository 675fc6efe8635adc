-- ===== src/Scripts/CmdShell/Lines.antt =====
-- What the shell makes of a line is a request that the card reads back.
use oresat_c3_software.Prelude.{
  ℕ, ◌<◌, ◌==◌, List, [], ◌∷◌, ◌≡◌, refl, subst, arith, Bool, ◌||◌, Bool-cases, inl, inr, Option,
  none, some, eq_bytes, ok, if◌then◌else◌,
}
use oresat_c3_software.Protocols.Struct.{Value, int, truth}
use oresat_c3_software.Protocols.EdlCommand.{
  EdlCommandCode, req_body, pack_body, pack_request, unpack_request, tx_ctrl, ping, opd_sysenable,
  opd_enable, rtc_set_time, beacon_ping, rx_test, c3_soft_reset, c3_hard_reset, c3_factory_reset,
}
use oresat_c3_software.Protocols.EdlCommand.RoundTrip.{FitsBody, unpack_request-pack_request}
use oresat_c3_software.Scripts.CmdShell.{
  Line, Python, Cards, Outcome, shows_help, sends, sends_number, sends_switch, switch, do_command,
  Command, tx_control, beacon_ping_command, ping_command, rx_test_command, c3_soft_reset_command,
  c3_hard_reset_command, c3_factory_reset_command, opd_sysenable_command, opd_enable_command,
  rtc_set_time_command, split, do_tx_control, do_ping, do_rtc_set_time, do_opd_sysenable,
  do_opd_enable, opd_enable_of, address_of, tx_control_words, ping_words, rtc_words,
  opd_enable_words, lower, is_hex, time_word, now_word,
}

abbrev or_empty : Option (List Value) → List Value
or_empty none = []
or_empty (some vs) = vs

-- The request of an outcome is read back as it was written; the others send nothing.
abbrev pub IsRead : Outcome → Type 0
IsRead (sends code args) =
    (raw : List ℕ) × (pack_request (record { code = code; args = args }) ≡ ok raw)
    × (unpack_request raw ≡ ok (record { code = code; args = some (or_empty args) }))
IsRead _ = Unit

switch-IsRead :
    (code : EdlCommandCode)
    → ((b : Bool) → FitsBody (req_body code) (truth b ∷ []))
    → (b : Option Bool) → IsRead (sends_switch code b)
switch-IsRead code h none = tt
switch-IsRead code h (some b) = unpack_request-pack_request code (truth b ∷ []) (h b)

number-IsRead :
    (code : EdlCommandCode) (limit : ℕ)
    → ((n : ℕ) → n < limit → FitsBody (req_body code) (int n ∷ []))
    → (n : Option ℕ) → ((k : ℕ) → n ≡ some k → k < limit)
    → IsRead (sends_number code n)
number-IsRead code limit h none small = tt
number-IsRead code limit h (some n) small =
    unpack_request-pack_request code (int n ∷ []) (h n (small n refl))

tx_control-IsRead : (words : List Line) → IsRead (tx_control_words words)
unfolding req_body
tx_control-IsRead [] = tt
tx_control-IsRead (word ∷ []) = switch-IsRead tx_ctrl (λ b. (tt, tt)) (switch (lower word))
tx_control-IsRead (word ∷ word' ∷ words) = tt

-- The address of `opd_enable` has 8 bits, the other numbers have 32.
abbrev pub limit : Command → ℕ
limit opd_enable_command = 256
limit _ = 4294967296

-- The number that a command reads of the words of its line, by `int` or in the cards.
abbrev pub number_read : Python → Cards → Command → List Line → Option ℕ
number_read python cards ping_command (word ∷ []) =
    if is_hex word then python.hexadecimal word else python.decimal word
number_read python cards rtc_set_time_command (word ∷ []) = python.decimal word
number_read python cards opd_enable_command (name ∷ enable ∷ []) =
    if is_hex name then python.hexadecimal name else some (address_of name cards)
number_read _ _ _ _ = none

-- The time and the number on the line, where there is one, fit the format of the command.
pub record IsInRange (python : Python) (cards : Cards) (command : Command) (line : Line)
    : Type 0 where
  pub now_small : python.now < 4294967296
  pub number_small :
      (n : ℕ) → number_read python cards command (split line) ≡ some n → n < limit command

module _ (python : Python) (cards : Cards) where
  now-IsRead :
      (code : EdlCommandCode)
      → python.now < 4294967296
      → ((n : ℕ) → n < 4294967296 → FitsBody (req_body code) (int n ∷ []))
      → IsRead (sends_number code (some python.now))
  now-IsRead code now h = number-IsRead code 4294967296 h (some python.now) (λ k e. ground arith)

  -- The number that a command reads of these words is in its range.
  abbrev Small : Command → List Line → Type 0
  Small command words =
      (n : ℕ) → number_read python cards command words ≡ some n → n < limit command

  ping-IsRead :
      (words : List Line)
      → python.now < 4294967296
      → Small ping_command words
      → IsRead (ping_words python words)
  unfolding req_body
  ping-IsRead [] now small = tt
  ping-IsRead (word ∷ []) now small =
      elim (Bool-cases (eq_bytes word [] || eq_bytes word time_word)) [
        | inl is_now ↦
            subst IsRead
              (let h : sends_number ping (some python.now) ≡ ping_words python (word ∷ []) =
                  ground arith in
                h)
              (now-IsRead ping now (λ n h. (h, tt)))
        | inr other ↦ elim (Bool-cases (is_hex word)) [
          | inl hex ↦
              subst IsRead
                (let h : sends_number ping (python.hexadecimal word)
                      ≡ ping_words python (word ∷ []) =
                    ground arith in
                  h)
                (number-IsRead ping 4294967296 (λ n h. (h, tt)) (python.hexadecimal word)
                  (λ n e. small n (ground arith)))
          | inr not_hex ↦
              subst IsRead
                (let h : sends_number ping (python.decimal word) ≡ ping_words python (word ∷ []) =
                    ground arith in
                  h)
                (number-IsRead ping 4294967296 (λ n h. (h, tt)) (python.decimal word)
                  (λ n e. small n (ground arith)))
        ]
      ]
  ping-IsRead (word ∷ word' ∷ words) now small = tt

  rtc-IsRead :
      (words : List Line)
      → python.now < 4294967296
      → Small rtc_set_time_command words
      → IsRead (rtc_words python words)
  unfolding req_body
  rtc-IsRead [] now small = tt
  rtc-IsRead (word ∷ []) now small =
      elim (Bool-cases (eq_bytes word [] || eq_bytes word now_word)) [
        | inl is_now ↦
            subst IsRead
              (let h : sends_number rtc_set_time (some python.now) ≡ rtc_words python (word ∷ []) =
                  ground arith in
                h)
              (now-IsRead rtc_set_time now (λ n h. (h, tt)))
        | inr other ↦
            subst IsRead
              (let h : sends_number rtc_set_time (python.decimal word)
                    ≡ rtc_words python (word ∷ []) =
                  ground arith in
                h)
              (number-IsRead rtc_set_time 4294967296 (λ n h. (h, tt)) (python.decimal word)
                (λ n e. small n (ground arith)))
      ]
  rtc-IsRead (word ∷ word' ∷ words) now small = tt

  address-IsRead :
      (address : Option ℕ) (enable : Option Bool)
      → ((k : ℕ) → address ≡ some k → k < 256)
      → IsRead (opd_enable_of address enable)
  unfolding req_body
  address-IsRead none enable below = tt
  address-IsRead (some address) none below = tt
  address-IsRead (some address) (some enable) below =
      unpack_request-pack_request opd_enable (int address ∷ truth enable ∷ [])
        (below address refl, (tt, tt))

  opd_enable-IsRead :
      (words : List Line)
      → Small opd_enable_command words
      → IsRead (opd_enable_words python cards words)
  opd_enable-IsRead [] small = tt
  opd_enable-IsRead (name ∷ []) small = tt
  opd_enable-IsRead (name ∷ enable ∷ []) small = elim (Bool-cases (is_hex name)) [
    | inl hex ↦
        subst IsRead
          (let h : opd_enable_of (python.hexadecimal name) (switch (lower enable))
                ≡ opd_enable_words python cards (name ∷ enable ∷ []) =
              ground arith in
            h)
          (address-IsRead (python.hexadecimal name) (switch (lower enable))
            (λ n e. small n (ground arith)))
    | inr not_hex ↦ elim (Bool-cases (address_of name cards == 0)) [
      | inl unknown ↦
          subst IsRead
            (let h : shows_help ≡ opd_enable_words python cards (name ∷ enable ∷ []) =
                ground arith in
              h)
            tt
      | inr known ↦
          subst IsRead
            (let h : opd_enable_of (some (address_of name cards)) (switch (lower enable))
                  ≡ opd_enable_words python cards (name ∷ enable ∷ []) =
                ground arith in
              h)
            (address-IsRead (some (address_of name cards)) (switch (lower enable))
              (λ k e. small k (ground arith)))
    ]
  ]
  opd_enable-IsRead (name ∷ enable ∷ word ∷ words) small = tt

  -- A line of a command, where the time and the number that the command reads of the line, if it
  -- reads one, are in the range of the command, sends nothing, or sends a
  -- request that is packed without an error and that the card unpacks to the same arguments, with
  -- no arguments as the empty tuple.
  pub do_command-IsRead :
      (command : Command) (line : Line)
      → IsInRange python cards command line
      → IsRead (do_command python cards command line)
  unfolding do_tx_control do_ping do_rtc_set_time do_opd_sysenable do_opd_enable req_body
      pack_request pack_body
  do_command-IsRead tx_control [] small = tt
  do_command-IsRead tx_control (c ∷ line) small = tx_control-IsRead (split (c ∷ line))
  do_command-IsRead beacon_ping_command line small = unpack_request-pack_request beacon_ping [] tt
  do_command-IsRead ping_command line small =
      ping-IsRead (split line) small.now_small small.number_small
  do_command-IsRead rx_test_command line small = unpack_request-pack_request rx_test [] tt
  do_command-IsRead c3_soft_reset_command line small =
      unpack_request-pack_request c3_soft_reset [] tt
  do_command-IsRead c3_hard_reset_command line small =
      unpack_request-pack_request c3_hard_reset [] tt
  do_command-IsRead c3_factory_reset_command line small =
      unpack_request-pack_request c3_factory_reset [] tt
  do_command-IsRead opd_sysenable_command line small =
      switch-IsRead opd_sysenable (λ b. (tt, tt)) (switch (lower line))
  do_command-IsRead opd_enable_command line small =
      opd_enable-IsRead (split line) small.number_small
  do_command-IsRead rtc_set_time_command line small =
      rtc-IsRead (split line) small.now_small small.number_small
