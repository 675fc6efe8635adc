-- ===== src/Protocols/Ax25.antt =====
-- oresat_c3/protocols/ax25.py: AX.25 frames. A string is its list of code points. SSIDs, control
-- and PID come from unsigned fields, so the guards against negative numbers have no counterpart.
-- The shifts of whole byte strings are those of the bitstring package, a parameter.
pub mod Callsign
pub mod RoundTrip
mod Tests
use oresat_c3_software.Prelude.{
  ℕ, ◌+◌, ◌-◌, ◌*◌, ◌/◌, ◌%◌, bit_or, List, [], ◌∷◌, ◌++◌, Bool, true, false, ◌&&◌, ◌||◌, Option,
  none, some, if◌then◌else◌, ltb, leb, ◌==◌, length, take, drop, replicate, get_elem?, Result, ok,
  err,
}

abbrev pub callsign_len : ℕ
callsign_len = 6

abbrev pub payload_max_len : ℕ
payload_max_len = 256

-- Every raise of `Ax25Error`, by its message, and the errors of Python: a string that has no
-- UTF-8, an index out of range, and a byte that is not ASCII.
pub data Ax25Error : Type 0 where
  dest_callsign_long dest_ssid_range src_callsign_long src_ssid_range payload_long control_range
        pid_range encode_error index_error decode_error :
      Ax25Error

pub record Ax25 : Type 0 where
  pub dest_callsign : List ℕ
  pub dest_ssid : ℕ
  pub src_callsign : List ℕ
  pub src_ssid : ℕ
  pub control : ℕ
  pub pid : ℕ
  pub command : Bool
  pub response : Bool
  pub payload : List ℕ

-- `(BitArray(raw) << 1).bytes` and `(BitArray(raw) >> 1).bytes`
pub record Bitstring : Type 0 where
  pub shift_left : List ℕ → List ℕ
  pub shift_right : List ℕ → List ℕ

-- `str.encode` of one character; `none` is a surrogate.
unfoldable pub encode_char : ℕ → Option (List ℕ)
encode_char c =
    if ltb c 0x80
    then some (c ∷ [])
    else if ltb c 0x800
    then some ((0xC0 + c / 64) ∷ ((0x80 + c % 64) ∷ []))
    else if leb 0xD800 c && ltb c 0xE000
    then none
    else if ltb c 0x10000
    then some ((0xE0 + c / 4096) ∷ ((0x80 + c / 64 % 64) ∷ ((0x80 + c % 64) ∷ [])))
    else some (
        (0xF0 + c / 262144)
        ∷ ((0x80 + c / 4096 % 64) ∷ ((0x80 + c / 64 % 64) ∷ ((0x80 + c % 64) ∷ []))))

abbrev pub join : Option (List ℕ) → Option (List ℕ) → Option (List ℕ)
join (some xs) (some ys) = some (xs ++ ys)
join _ _ = none

unfoldable pub encode : List ℕ → Option (List ℕ)
encode [] = some []
encode (c ∷ cs) = join (encode_char c) (encode cs)

-- `callsign += " " * (AX25_CALLSIGN_LEN - len(callsign))`
unfoldable pub pad : List ℕ → List ℕ
pad callsign = callsign ++ replicate (callsign_len - length callsign) b' '

abbrev pub flag : Bool → ℕ
flag true = 1
flag false = 0

-- The octets behind the callsigns, from `dest_ssid <<= 1` on.
unfoldable pub dest_octet : ℕ → Bool → ℕ
dest_octet ssid command = bit_or (bit_or (ssid * 2) 0x60) (flag command * 128)

unfoldable pub src_octet : ℕ → Bool → ℕ
src_octet ssid response = bit_or (bit_or (bit_or (ssid * 2) 0x60) (flag response * 128)) 1

module _ (bits : Bitstring) where
  -- The frame from the encoded callsigns.
  abbrev pub frame : Ax25 → Option (List ℕ) → Option (List ℕ) → Result Ax25Error (List ℕ)
  frame p (some dest) (some src) = ok (
      bits.shift_left dest
      ++ (dest_octet p.dest_ssid p.command
          ∷ (bits.shift_left src
              ++ (src_octet p.src_ssid p.response ∷ (p.control ∷ (p.pid ∷ p.payload))))))
  frame p _ _ = err encode_error

  -- `ax25_pack`
  unfoldable pub ax25_pack : Ax25 → Result Ax25Error (List ℕ)
  ax25_pack p =
      if ltb callsign_len (length p.dest_callsign)
      then err dest_callsign_long
      else if ltb 15 p.dest_ssid
      then err dest_ssid_range
      else if ltb callsign_len (length p.src_callsign)
      then err src_callsign_long
      else if ltb 15 p.src_ssid
      then err src_ssid_range
      else if ltb payload_max_len (length p.payload)
      then err payload_long
      else if ltb 0xFF p.control
      then err control_range
      else if ltb 0xFF p.pid
      then err pid_range
      else frame p (encode (pad p.dest_callsign)) (encode (pad p.src_callsign))

-- The ASCII characters that `str.rstrip` takes off.
abbrev pub is_space : ℕ → Bool
is_space c = (leb 9 c && leb c 13) || (leb 28 c && leb c 32)

abbrev pub keep_char : ℕ → List ℕ → List ℕ
keep_char c [] = if is_space c then [] else c ∷ []
keep_char c (d ∷ rest) = c ∷ (d ∷ rest)

-- `rstrip()`
unfoldable pub rstrip : List ℕ → List ℕ
rstrip [] = []
rstrip (c ∷ cs) = keep_char c (rstrip cs)

-- `decode("ascii")`
unfoldable pub decode : List ℕ → Option (List ℕ)
decode [] = some []
decode (b ∷ raw) = join (if ltb b 128 then some (b ∷ []) else none) (decode raw)

module _ (bits : Bitstring) where
  -- The result of `ax25_unpack` from the decoded callsigns and the octets.
  abbrev pub fields :
      Option (List ℕ) → ℕ → Option (List ℕ) → ℕ → ℕ → ℕ → List ℕ → Result Ax25Error Ax25
  fields (some dest) dest_ssid (some src) src_ssid control pid payload = ok (record {
    dest_callsign = rstrip dest;
    dest_ssid = dest_ssid % 32 / 2;
    src_callsign = rstrip src;
    src_ssid = src_ssid % 32 / 2;
    control = control;
    pid = pid;
    command = dest_ssid / 128 % 2 == 1;
    response = src_ssid / 128 % 2 == 1;
    payload = payload;
  })
  fields _ dest_ssid _ src_ssid control pid payload = err decode_error

  abbrev pub with_octets :
      List ℕ → Option ℕ → Option ℕ → Option ℕ → Option ℕ → Result Ax25Error Ax25
  with_octets raw (some dest_ssid) (some src_ssid) (some control) (some pid) =
      fields (decode (bits.shift_right (take callsign_len raw))) dest_ssid
        (decode (bits.shift_right (take callsign_len (drop 7 raw)))) src_ssid control pid
        (drop 16 raw)
  with_octets raw _ _ _ _ = err index_error

  -- `ax25_unpack`
  unfoldable pub ax25_unpack : List ℕ → Result Ax25Error Ax25
  ax25_unpack raw =
      with_octets raw (get_elem? raw 6) (get_elem? raw 13) (get_elem? raw 14) (get_elem? raw 15)
