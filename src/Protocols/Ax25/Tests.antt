-- ===== src/Protocols/Ax25/Tests.antt =====
-- The AX.25 frames at a concrete packet.
use oresat_c3_software.Prelude.{ℕ, ◌+◌, ◌≡◌, refl, List, [], ◌∷◌, true, false, arith, length, ok}
use oresat_c3_software.Protocols.Ax25.{Ax25, Bitstring, ax25_pack, ax25_unpack, rstrip}
use oresat_c3_software.Protocols.Ax25.Callsign.{IsBitstring, IsCallsign, shl, shr}
use oresat_c3_software.Protocols.Ax25.RoundTrip.{IsFrame, ax25_unpack-ax25_pack}

abbrev bits : Bitstring
bits = record { shift_left = shl; shift_right = shr 0 }

-- From KJ7SAT to SPACE, as the beacon goes out.
abbrev packet : Ax25
packet = record {
  dest_callsign = b'S' ∷ (b'P' ∷ (b'A' ∷ (b'C' ∷ (b'E' ∷ []))));
  dest_ssid = 0;
  src_callsign = b'K' ∷ (b'J' ∷ (b'7' ∷ (b'S' ∷ (b'A' ∷ (b'T' ∷ [])))));
  src_ssid = 11;
  control = 3;
  pid = 240;
  command = false;
  response = true;
  payload = 1 ∷ (2 ∷ []);
}

dest-IsCallsign : IsCallsign packet.dest_callsign
unfolding rstrip
dest-IsCallsign = record {
  ascii = (omega arith, (omega arith, (omega arith, (omega arith, (omega arith, tt)))));
  short = omega arith;
  stripped = refl;
}

src-IsCallsign : IsCallsign packet.src_callsign
unfolding rstrip
src-IsCallsign = record {
  ascii =
      (omega arith, (omega arith, (omega arith, (omega arith, (omega arith, (omega arith, tt))))));
  short = omega arith;
  stripped = refl;
}

packet-IsFrame : IsFrame packet
packet-IsFrame = record {
  dest = dest-IsCallsign;
  src = src-IsCallsign;
  dest_ssid_small = omega arith;
  src_ssid_small = omega arith;
  control_byte = omega arith;
  pid_byte = omega arith;
  payload_short = omega arith;
}

bits-IsBitstring : IsBitstring bits
bits-IsBitstring = record { left = λ raw. refl; right = λ raw. refl }

ax25_unpack-ax25_pack_example :
    (raw : List ℕ) × (ax25_pack bits packet ≡ ok raw)
    × (length raw ≡ 16 + length packet.payload)
    × (ax25_unpack bits raw ≡ ok packet)
ax25_unpack-ax25_pack_example = ax25_unpack-ax25_pack bits packet bits-IsBitstring packet-IsFrame
