-- ===== src/Protocols/Ax25/RoundTrip.antt =====
-- AX.25 frames are unpacked to what was packed.
use oresat_c3_software.Prelude.{
  ℕ, ◌+◌, ◌/◌, ◌%◌, ◌<◌, ◌≤◌, ◌≡◌, refl, ap, ◌∙◌, arith, List, [], ◌∷◌, ◌++◌, Bool, true, false,
  some, ◌==◌, length, length-append, ok, check_from, check_from_sound, ◌&&◌,
}
use oresat_c3_software.Protocols.Ax25.{
  Ax25, Bitstring, pad, dest_octet, src_octet, ax25_pack, decode, fields, ax25_unpack,
}
use oresat_c3_software.Protocols.Ax25.Callsign.{
  IsBitstring, IsCallsign, Padded, pad-Padded, doubled, length-doubled, shl_ascii, shr-doubled,
  encode_ascii, decode_ascii,
}

pub record IsFrame (p : Ax25) : Type 0 where
  pub dest : IsCallsign p.dest_callsign
  pub src : IsCallsign p.src_callsign
  pub dest_ssid_small : p.dest_ssid < 16
  pub src_ssid_small : p.src_ssid < 16
  pub control_byte : p.control < 256
  pub pid_byte : p.pid < 256
  pub payload_short : length p.payload ≤ 256

-- The fields of an octet that was made of an SSID and a flag.
abbrev same_flag : Bool → ℕ → Bool
same_flag true octet = octet / 128 % 2 == 1
same_flag false octet = octet / 128 % 2 == 0

dest_ok : Bool → ℕ → Bool
dest_ok b ssid = (dest_octet ssid b % 32 / 2 == ssid) && same_flag b (dest_octet ssid b)

src_ok : Bool → ℕ → Bool
src_ok b ssid = (src_octet ssid b % 32 / 2 == ssid) && same_flag b (src_octet ssid b)

dest_table : (b : Bool) → check_from 0 16 (dest_ok b) ≡ true
unfolding check_from dest_ok dest_octet
dest_table true = refl
dest_table false = refl

src_table : (b : Bool) → check_from 0 16 (src_ok b) ≡ true
unfolding check_from src_ok src_octet
src_table true = refl
src_table false = refl

dest_octet_lem :
    (ssid : ℕ) (b : Bool)
    → ssid < 16
    → (dest_octet ssid b % 32 / 2 ≡ ssid) × ((dest_octet ssid b / 128 % 2 == 1) ≡ b)
unfolding dest_ok
dest_octet_lem ssid b h =
    ground (arith, check_from_sound (dest_ok b) 16 0 ssid (omega arith) h (dest_table b))

src_octet_lem :
    (ssid : ℕ) (b : Bool)
    → ssid < 16
    → (src_octet ssid b % 32 / 2 ≡ ssid) × ((src_octet ssid b / 128 % 2 == 1) ≡ b)
unfolding src_ok
src_octet_lem ssid b h =
    ground (arith, check_from_sound (src_ok b) 16 0 ssid (omega arith) h (src_table b))

-- A list of six.
record Six (xs : List ℕ) : Type 0 where
  a : ℕ
  b : ℕ
  c : ℕ
  d : ℕ
  e : ℕ
  f : ℕ
  all : xs ≡ a ∷ (b ∷ (c ∷ (d ∷ (e ∷ (f ∷ [])))))

six : (xs : List ℕ) → length xs ≡ 6 → Six xs
six [] h = absurd (omega arith)
six (a ∷ []) h = absurd (omega arith)
six (a ∷ b ∷ []) h = absurd (omega arith)
six (a ∷ b ∷ c ∷ []) h = absurd (omega arith)
six (a ∷ b ∷ c ∷ d ∷ []) h = absurd (omega arith)
six (a ∷ b ∷ c ∷ d ∷ e ∷ []) h = absurd (omega arith)
six (a ∷ b ∷ c ∷ d ∷ e ∷ f ∷ []) h = record { a = a; b = b; c = c; d = d; e = e; f = f; all = refl }
six (a ∷ b ∷ c ∷ d ∷ e ∷ f ∷ g ∷ xs) h = absurd (omega arith)

module _ (bits : Bitstring) where
  -- The parts of a frame, as `ax25_unpack` takes them.
  unpack_parts :
      (dest src payload : List ℕ) (x y control pid : ℕ)
      → length dest ≡ 6
      → length src ≡ 6
      → ax25_unpack bits (dest ++ (x ∷ (src ++ (y ∷ (control ∷ (pid ∷ payload))))))
        ≡ fields bits
            (decode (bits.shift_right dest))
            x
            (decode (bits.shift_right src))
            y
            control
            pid
            payload
  unfolding ax25_unpack
  unpack_parts dest src payload x y control pid h k =
      let d = six dest h in let s = six src k in rw (d.all, s.all) refl

  shifted_back :
      (cs raw : List ℕ)
      → IsBitstring bits
      → Padded cs raw
      → (length (bits.shift_left raw) ≡ 6)
        × (decode (bits.shift_right (bits.shift_left raw)) ≡ some raw)
  shifted_back cs raw l p =
      let e : bits.shift_left raw ≡ doubled raw = l.left raw ∙ shl_ascii raw p.ascii in
      (
        ap (λ (t : List ℕ). length t) e ∙ length-doubled raw ∙ p.six,
        ap (λ (t : List ℕ). decode (bits.shift_right t)) e
            ∙ ap decode (l.right (doubled raw) ∙ shr-doubled raw)
            ∙ decode_ascii raw p.ascii,
      )

  -- The frame of a valid packet.
  packed : Ax25 → List ℕ
  packed p =
      bits.shift_left (pad p.dest_callsign)
      ++ (dest_octet p.dest_ssid p.command
          ∷ (bits.shift_left (pad p.src_callsign)
              ++ (src_octet p.src_ssid p.response ∷ (p.control ∷ (p.pid ∷ p.payload)))))

  ax25_pack_lem : (p : Ax25) → IsFrame p → ax25_pack bits p ≡ ok (packed p)
  unfolding ax25_pack packed
  ax25_pack_lem p h = ground (
    arith,
    h.dest.short,
    h.src.short,
    encode_ascii (pad p.dest_callsign) (pad-Padded p.dest_callsign h.dest).ascii,
    encode_ascii (pad p.src_callsign) (pad-Padded p.src_callsign h.src).ascii,
  )

  unpack-packed :
      (p : Ax25)
      → IsBitstring bits
      → IsFrame p
      → (length (packed p) ≡ 16 + length p.payload) × (ax25_unpack bits (packed p) ≡ ok p)
  unfolding packed
  unpack-packed p l h =
      let dest = pad-Padded p.dest_callsign h.dest in
      let src = pad-Padded p.src_callsign h.src in
      let d = shifted_back p.dest_callsign (pad p.dest_callsign) l dest in
      let s = shifted_back p.src_callsign (pad p.src_callsign) l src in
      let x = dest_octet_lem p.dest_ssid p.command h.dest_ssid_small in
      let rest : List ℕ =
        bits.shift_left (pad p.src_callsign)
        ++ (src_octet p.src_ssid p.response ∷ (p.control ∷ (p.pid ∷ p.payload))) in
      let y = src_octet_lem p.src_ssid p.response h.src_ssid_small in
      (
        omega (
          arith,
          d.0,
          s.0,
          length-append (bits.shift_left (pad p.dest_callsign))
              (dest_octet p.dest_ssid p.command ∷ rest),
          length-append (bits.shift_left (pad p.src_callsign))
              (src_octet p.src_ssid p.response ∷ (p.control ∷ (p.pid ∷ p.payload))),
        ),
        rw
            (
              unpack_parts _ _ p.payload _ _ p.control p.pid d.0 s.0,
              d.1,
              s.1,
              dest.back,
              src.back,
              x.0,
              x.1,
              y.0,
              y.1,
            )
            refl,
      )

  -- A packet whose callsigns are ASCII, have at most six characters and no space at the end, with
  -- SSIDs below 16, an octet for control and PID and at most 256 bytes of payload, is packed. The
  -- frame has 16 bytes more than the payload, and is unpacked to the same packet.
  pub ax25_unpack-ax25_pack :
      (p : Ax25)
      → IsBitstring bits
      → IsFrame p
      → (raw : List ℕ) × (ax25_pack bits p ≡ ok raw)
        × (length raw ≡ 16 + length p.payload)
        × (ax25_unpack bits raw ≡ ok p)
  ax25_unpack-ax25_pack p l h =
      (packed p, ax25_pack_lem p h, (unpack-packed p l h).0, (unpack-packed p l h).1)
