-- ===== src/Services/Beacon/Frames.antt =====
-- The beacons that go out, and how they are received.
use oresat_c3_software.Prelude.{
  ℕ, ◌<◌, ◌≤◌, ◌≡◌, ◌≢◌, ◌⊎◌, inl, inr, refl, sym, ap, ◌∙◌, arith, List, [], ◌∷◌, ◌++◌, true,
  Option, some, length, length-append, but_last, last, four_bytes, from_bytes, but_last-append,
  last-append, from_bytes-four_bytes, Result-cases, ok, err,
}
use oresat_c3_software.Protocols.Ax25.{Bitstring, ax25_pack, ax25_unpack}
use oresat_c3_software.Protocols.Ax25.Callsign.{IsBitstring, IsCallsign}
use oresat_c3_software.Protocols.Ax25.RoundTrip.{IsFrame, ax25_unpack-ax25_pack}
use oresat_c3_software.Services.State.{beacon}
use oresat_c3_software.Services.Beacon.{
  BeaconService, BeaconError, read_all, packet_of, send, on_loop, invalid_crc, report,
}

-- Constants of the OD that make a frame.
pub record IsStation (s : BeaconService) : Type 0 where
  pub dest : IsCallsign s.dest_callsign
  pub src : IsCallsign s.src_callsign
  pub dest_ssid_small : s.dest_ssid < 16
  pub src_ssid_small : s.src_ssid < 16
  pub control_byte : s.control < 256
  pub pid_byte : s.pid < 256

station-IsFrame :
    (s : BeaconService) (payload : List ℕ)
    → IsStation s
    → length payload ≤ 256
    → IsFrame (packet_of s payload)
station-IsFrame s payload h short = record {
  dest = h.dest;
  src = h.src;
  dest_ssid_small = h.dest_ssid_small;
  src_ssid_small = h.src_ssid_small;
  control_byte = h.control_byte;
  pid_byte = h.pid_byte;
  payload_short = short;
}

module _ (bits : Bitstring) (crc32 : List ℕ → ℕ) where
  -- The payload that is sent for the bytes of the entries.
  abbrev pub with_crc : List ℕ → List ℕ
  with_crc body = body ++ four_bytes (crc32 body)

  -- The receiver on such a payload: the CRC is right.
  report-with_crc :
      (body : List ℕ) → crc32 body < 4294967296 → report crc32 (with_crc body) ≢ invalid_crc
  unfolding report
  report-with_crc body w =
      let l = last-append 4 body (four_bytes (crc32 body)) refl in
      let b = but_last-append 4 body (four_bytes (crc32 body)) refl in
      let n = from_bytes-four_bytes (crc32 body) w in
      let e : from_bytes (last 4 (with_crc body)) ≡ crc32 (but_last 4 (with_crc body)) =
        ap from_bytes l ∙ n ∙ ap crc32 (sym b) in
      λ bad. ground arith

  send_steps :
      (now : ℕ) (values : List (Option (List ℕ))) (body raw : List ℕ) (s : BeaconService)
      → read_all values ≡ some body
      → crc32 body < 4294967296
      → ax25_pack bits (packet_of s (with_crc body)) ≡ ok raw
      → send bits crc32 now values s ≡ (ok tt, record s { ts = now; sent = s.sent ++ (raw ∷ []) })
  unfolding send
  send_steps now values body raw s r w p = ground arith

  -- A station whose entries are read, and have at most 252 bytes together, sends one frame more. It
  -- is unpacked to the station's callsigns and fields and to a payload in which the receiver
  -- finds the right CRC; without the last four bytes the payload is the entries' bytes.
  pub send-report :
      (now : ℕ) (values : List (Option (List ℕ))) (body : List ℕ) (s : BeaconService)
      → IsBitstring bits
      → IsStation s
      → read_all values ≡ some body
      → length body ≤ 252
      → crc32 body < 4294967296
      → (raw : List ℕ) × (send bits crc32 now values s
          ≡ (ok tt, record s { ts = now; sent = s.sent ++ (raw ∷ []) }))
        × (ax25_unpack bits raw ≡ ok (packet_of s (with_crc body)))
        × (but_last 4 (with_crc body) ≡ body)
        × (report crc32 (with_crc body) ≢ invalid_crc)
  send-report now values body s l h r short w =
      let p = packet_of s (with_crc body) in
      let (raw, packs, size, back) = ax25_unpack-ax25_pack bits p l (
        station-IsFrame s (with_crc body) h
          (omega (arith, length-append body (four_bytes (crc32 body))))) in
      (
        raw,
        send_steps now values body raw s r w packs,
        back,
        but_last-append 4 body (four_bytes (crc32 body)) refl,
        report-with_crc body w,
      )

  -- A pass of `on_loop` either changes nothing and raises nothing, or the delay is not 0, sending is
  -- enabled and the state is BEACON; then the service is left as `send` leaves it, and an
  -- exception of `send` gets out.
  pub on_loop_outcome :
      (now : ℕ) (values : List (Option (List ℕ))) (s : BeaconService)
      → let (r, s') = on_loop bits crc32 now values s in
        ((s' ≡ s) × ((n : ℕ) × (r ≡ ok n)))
        ⊎ (((s.delay ≢ 0) × (s.tx_enabled ≡ true) × (s.c3_state ≡ beacon))
            × (s' ≡ (send bits crc32 now values s).1)
            × (((send bits crc32 now values s).0 ≡ ok tt) × (r ≡ ok s'.delay)
                ⊎ ((e : BeaconError) × ((send bits crc32 now values s).0 ≡ err e) × (r ≡ err e))))
  unfolding on_loop
  on_loop_outcome now values s = elim (Result-cases (send bits crc32 now values s).0) [
    | inl (a, e) ↦ ground arith
    | inr (e, h) ↦ ground arith
  ]
