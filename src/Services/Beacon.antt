-- ===== src/Services/Beacon.antt =====
-- oresat_c3/services/beacon.py, and what scripts/beacon.py, the receiver on the ground, makes of a
-- beacon. `zlib.crc32` is a parameter, and what the reads of the OD entries give, encoded, is an
-- argument. Times are what `time()` gives.
pub mod Frames
mod Tests
use oresat_c3_software.Prelude.{
  ℕ, ◌+◌, ◌^◌, List, [], ◌∷◌, ◌++◌, Bool, true, false, not, ◌&&◌, Option, none, some, if◌then◌else◌,
  ltb, leb, ◌==◌, length, take, drop, but_last, last, four_bytes, from_bytes, eq_bytes, Result, ok,
  err, Exec, pure, raise, raise_if, modify, when, gets, choose, ◌>>=◌, ◌>>◌,
}
use oresat_c3_software.Protocols.Ax25.{Ax25, Ax25Error, Bitstring, ax25_pack}
use oresat_c3_software.Services.State.{beacon}

-- The OD entries that `on_loop` reads, the constants of `on_start`, the time of the last beacon,
-- and the messages that went to the socket of the radio.
pub record BeaconService : Type 0 where
  pub delay : ℕ
  pub tx_enabled : Bool
  pub c3_state : ℕ
  pub dest_callsign : List ℕ
  pub dest_ssid : ℕ
  pub src_callsign : List ℕ
  pub src_ssid : ℕ
  pub control : ℕ
  pub pid : ℕ
  pub command : Bool
  pub response : Bool
  pub ts : ℕ
  pub sent : List (List ℕ)

-- An entry of the OD that cannot be read or encoded, a CRC of more than four bytes, or an error of
-- `ax25_pack`.
pub data BeaconError : Type 0 where
  read_error overflow_error : BeaconError
  ax25_error : Ax25Error → BeaconError

abbrev pub append_value : Option (List ℕ) → Option (List ℕ) → Option (List ℕ)
append_value (some value) (some payload) = some (value ++ payload)
append_value _ _ = none

-- The loop over `_beacon_def`.
unfoldable pub read_all : List (Option (List ℕ)) → Option (List ℕ)
read_all [] = some []
read_all (value ∷ values) = append_value value (read_all values)

-- The arguments of `ax25_pack`.
abbrev pub packet_of : BeaconService → List ℕ → Ax25
packet_of s payload = record {
  dest_callsign = s.dest_callsign;
  dest_ssid = s.dest_ssid;
  src_callsign = s.src_callsign;
  src_ssid = s.src_ssid;
  control = s.control;
  pid = s.pid;
  command = s.command;
  response = s.response;
  payload = payload;
}

module _ (bits : Bitstring) (crc32 : List ℕ → ℕ) where
  abbrev pub transmit : ℕ → Result Ax25Error (List ℕ) → Exec BeaconError BeaconService (Unit {0})
  transmit now (err e) s = (err (ax25_error e), s)
  transmit now (ok packet) s = (ok tt, record s { ts = now; sent = s.sent ++ (packet ∷ []) })

  -- `send`, from the payload on.
  abbrev pub send_payload : ℕ → Option (List ℕ) → Exec BeaconError BeaconService (Unit {0})
  send_payload now none s = (err read_error, s)
  send_payload now (some payload) s =
      if ltb (crc32 payload) (2 ^ 32)
      then transmit now (ax25_pack bits (packet_of s (payload ++ four_bytes (crc32 payload)))) s
      else (err overflow_error, s)

  -- `send`
  unfoldable pub send : ℕ → List (Option (List ℕ)) → Exec BeaconError BeaconService (Unit {0})
  send now values s = send_payload now (read_all values) s

  -- `on_loop`; the result is the sleep in seconds.
  unfoldable pub on_loop : ℕ → List (Option (List ℕ)) → Exec BeaconError BeaconService ℕ
  on_loop now values s = elim (s.delay == 0) [
    | true ↦ (ok 1, s)
    | false ↦
        (when (s.tx_enabled && (s.c3_state == beacon)) (send now values) >> gets (λ t. t.delay)) s
  ]

  -- `_on_write_send_now`
  unfoldable pub on_write_send_now :
      Bool → ℕ → List (Option (List ℕ)) → Exec BeaconError BeaconService (Unit {0})
  on_write_send_now value now values = when value (send now values)

-- `_on_read_last_ts`, over olaf's conversion of a time.
unfoldable pub on_read_last_ts : (ℕ → ℕ) → BeaconService → ℕ
on_read_last_ts scet_int_from_time s = scet_int_from_time s.ts

-- What the receiver prints.
pub data Report : Type 0 where
  invalid_crc invalid_header : Report
  telemetry : (lband_rx edl_seq edl_rej vbatt_1 vbatt_2 : ℕ) → Report

-- `ax.payload[a:b]` for a field of `n = b - a` bytes
abbrev pub field : ℕ → ℕ → List ℕ → ℕ
field a n payload = from_bytes (take n (drop a payload))

-- The receiver's report on the payload of a frame.
unfoldable pub report : (List ℕ → ℕ) → List ℕ → Report
report crc32 payload =
    if not (from_bytes (last 4 payload) == crc32 (but_last 4 payload))
    then invalid_crc
    else if not (eq_bytes (take 3 payload) (b'{' ∷ (b'{' ∷ (b'z' ∷ []))))
    then invalid_header
    else telemetry (field 22 4 payload) (field 37 4 payload) (field 41 4 payload)
        (field 49 2 payload) (field 81 2 payload)
