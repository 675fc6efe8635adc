-- ===== src/Services/Beacon/Tests.antt =====
-- The beacon at a concrete station.
use oresat_c3_software.Prelude.{
  ℕ, ◌≡◌, ◌≢◌, ◌⊎◌, refl, arith, List, [], ◌∷◌, true, false, Option, some, none, length, but_last,
  from_bytes, eq_bytes, ok, err,
}
use oresat_c3_software.Protocols.Ax25.{Bitstring, rstrip, ax25_unpack}
use oresat_c3_software.Protocols.Ax25.Callsign.{IsBitstring, shl, shr}
use oresat_c3_software.Services.Beacon.{
  BeaconService, BeaconError, read_error, read_all, send, on_loop, on_write_send_now, report,
  invalid_crc, invalid_header, packet_of,
}
use oresat_c3_software.Services.Beacon.Frames.{IsStation, with_crc, send-report, on_loop_outcome}

abbrev bits : Bitstring
bits = record { shift_left = shl; shift_right = shr 0 }

bits-IsBitstring : IsBitstring bits
bits-IsBitstring = record { left = λ raw. refl; right = λ raw. refl }

abbrev crc32 : List ℕ → ℕ
crc32 raw = length raw

abbrev station : BeaconService
station = record {
  delay = 30;
  tx_enabled = true;
  c3_state = b'E';
  dest_callsign = b'C' ∷ (b'Q' ∷ []);
  dest_ssid = 0;
  src_callsign = b'K' ∷ (b'J' ∷ (b'7' ∷ []));
  src_ssid = 11;
  control = 3;
  pid = 240;
  command = false;
  response = false;
  ts = 0;
  sent = [];
}

station-IsStation : IsStation station
unfolding rstrip
station-IsStation = record {
  dest = record { ascii = (omega arith, (omega arith, tt)); short = omega arith; stripped = refl };
  src = record {
    ascii = (omega arith, (omega arith, (omega arith, tt)));
    short = omega arith;
    stripped = refl;
  };
  dest_ssid_small = omega arith;
  src_ssid_small = omega arith;
  control_byte = omega arith;
  pid_byte = omega arith;
}

abbrev entries : List (Option (List ℕ))
entries = some (b'{' ∷ (b'{' ∷ [])) ∷ (some (1 ∷ []) ∷ [])

entries_read : read_all entries ≡ some (b'{' ∷ (b'{' ∷ (1 ∷ [])))
unfolding read_all
entries_read = refl

send-report_example :
    (raw : List ℕ) × (send bits crc32 77 entries station
      ≡ (ok tt, record station { ts = 77; sent = raw ∷ [] }))
    × (ax25_unpack bits raw
        ≡ ok (packet_of station (with_crc bits crc32 (b'{' ∷ (b'{' ∷ (1 ∷ []))))))
    × (but_last 4 (with_crc bits crc32 (b'{' ∷ (b'{' ∷ (1 ∷ [])))) ≡ b'{' ∷ (b'{' ∷ (1 ∷ [])))
    × (report crc32 (with_crc bits crc32 (b'{' ∷ (b'{' ∷ (1 ∷ [])))) ≢ invalid_crc)
send-report_example =
    send-report bits crc32 77 entries (b'{' ∷ (b'{' ∷ (1 ∷ []))) station bits-IsBitstring
      station-IsStation entries_read (omega arith) (omega arith)

on_loop_outcome_example :
    let (r, s') = on_loop bits crc32 77 entries station in
    ((s' ≡ station) × ((n : ℕ) × (r ≡ ok n)))
    ⊎ (((station.delay ≢ 0) × (station.tx_enabled ≡ true) × (station.c3_state ≡ b'E'))
        × (s' ≡ (send bits crc32 77 entries station).1)
        × (((send bits crc32 77 entries station).0 ≡ ok tt) × (r ≡ ok s'.delay)
            ⊎ ((e : BeaconError) × ((send bits crc32 77 entries station).0 ≡ err e) × (r ≡ err e))))
on_loop_outcome_example = on_loop_outcome bits crc32 77 entries station

wrong_header : report crc32 (with_crc bits crc32 (b'{' ∷ (1 ∷ (2 ∷ [])))) ≡ invalid_header
unfolding report from_bytes eq_bytes
wrong_header = refl

unread : (on_write_send_now bits crc32 true 77 (none ∷ []) station).0 ≡ err read_error
unfolding on_write_send_now send read_all
unread = refl
