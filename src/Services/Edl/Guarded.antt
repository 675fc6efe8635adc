-- ===== src/Services/Edl/Guarded.antt =====
-- What the messages that come from the radio can do in flight mode.
use oresat_c3_software.Prelude.{
  ℕ, ◌≤◌, ◌≡◌, ◌⊎◌, inl, inr, refl, ap, ◌∙◌, arith, List, Bool, true, false, Bool-cases, ltb,
  Option, none, some, Result, Result-cases, ok, err,
}
use oresat_c3_software.Drivers.I2c.{I2c}
use oresat_c3_software.Protocols.EdlPacket
use oresat_c3_software.Protocols.EdlPacket.{Packages, EdlPacket, TransferFrame, PacketError}
use oresat_c3_software.Protocols.EdlPacket.Authentic.{Accepted, unpack-Accepted}
use oresat_c3_software.Services.Edl.{Received, nothing, invalid, packet, upack_last_recv}
use oresat_c3_software.Services.Edl.Outside.{Outside}
use oresat_c3_software.Services.Edl.World.{Names}
use oresat_c3_software.Services.Edl.Loop.{
  FileReceiver, EdlLoop, is_caught, received, received_packet, run_received, on_loop,
}

-- Neither what the commands act on nor what was sent has changed.
pub record Untouched {W Bus : Type 0} (s s' : EdlLoop W Bus) : Type 0 where
  pub same_world : s'.world ≡ s.world
  pub same_sent : s'.sent ≡ s.sent

module _ {Pdu : Type 0} (pkg : Packages Pdu) (key : List ℕ) where
  -- What `_upack_last_recv` has of a message when it hands on a packet.
  pub record Fresh (message : Option (List ℕ)) (count seq_num : ℕ) (p : EdlPacket Pdu)
      : Type 0 where
    pub raw : List ℕ
    pub frame : TransferFrame
    pub came : message ≡ some raw
    pub accepted : Accepted pkg raw key p frame
    pub not_older : count ≤ seq_num
    pub number : seq_num ≡ p.seq_num

  received_message :
      (message : Option (List ℕ))
      → ((e : PacketError) × (received pkg key true message ≡ err e))
        ⊎ (received pkg key true message ≡ ok nothing)
        ⊎ (received pkg key true message ≡ ok invalid)
        ⊎ ((raw : List ℕ) × ((p : EdlPacket Pdu) × (message ≡ some raw)
              × (received pkg key true message ≡ ok (packet p.seq_num p))
              × (EdlPacket.unpack pkg raw key false ≡ ok p)))
  unfolding received
  received_message none = inr (inl refl)
  received_message (some raw) = elim (Result-cases (EdlPacket.unpack pkg raw key false)) [
    | inl (p, e) ↦ inr (inr (inr (raw, (p, refl, ap received_packet e, e))))
    | inr (x, e) ↦ elim (Bool-cases (is_caught x)) [
      | inl caught ↦ inr (inr (inl (ground arith)))
      | inr out ↦ inl (x, ground arith)
    ]
  ]

module _ {Pdu W Bus Obj V : Type 0} (pkg : Packages Pdu) (key : List ℕ) (files : FileReceiver W Pdu)
    (io : I2c Bus) (out : Outside W Obj V) (names : Names) where
  -- A pass by what the message is.
  pub on_loop-received :
      (now later : ℕ) (message : Option (List ℕ)) (s : EdlLoop W Bus)
      (r : Result PacketError (Received (EdlPacket Pdu)))
      → s.service.flight_mode ≡ true
      → received pkg key true message ≡ r
      → on_loop pkg key files io out names now later message s
        ≡ run_received pkg key files io out names now later r s
  unfolding on_loop
  on_loop-received now later message s r flight h =
      ap
        (λ (t : Result PacketError (Received (EdlPacket Pdu))).
          run_received pkg key files io out names now later t s)
        (ap (λ (f : Bool). received pkg key f message) flight ∙ h)

  -- A pass that gets nothing leaves all alone.
  idle-Untouched :
      (now later : ℕ) (s : EdlLoop W Bus) (r : Received (EdlPacket Pdu))
      → files.busy s.world.outside ≡ false
      → (upack_last_recv now r s.service).0 ≡ none
      → Untouched s (run_received pkg key files io out names now later (ok r) s).1
  idle-Untouched now later s r idle h = ground arith

  -- In flight mode, while no file is received, a pass of `on_loop` that changes anything that the
  -- commands act on, or sends anything, has got a message that ends in its CRC and whose payload
  -- has the HMAC by the key, with a sequence number that is not below the count.
  pub on_loop_guarded :
      (now later : ℕ) (message : Option (List ℕ)) (s : EdlLoop W Bus)
      → s.service.flight_mode ≡ true
      → files.busy s.world.outside ≡ false
      → Untouched s (on_loop pkg key files io out names now later message s).1
        ⊎ ((p : EdlPacket Pdu) × Fresh pkg key message s.service.sequence_count p.seq_num p)
  unfolding upack_last_recv
  on_loop_guarded now later message s flight idle = elim (received_message pkg key message) [
    | inl (e, h) ↦ inl (
        rw (on_loop-received now later message s (err e) flight h)
          (record { same_world = refl; same_sent = refl }))
    | inr (inl h) ↦ inl (
        rw (on_loop-received now later message s (ok nothing) flight h)
          (idle-Untouched now later s nothing idle refl))
    | inr (inr (inl h)) ↦ inl (
        rw (on_loop-received now later message s (ok invalid) flight h)
          (idle-Untouched now later s invalid idle refl))
    | inr (inr (inr (raw, (p, came, h, u)))) ↦
        elim (Bool-cases (ltb p.seq_num s.service.sequence_count)) [
          | inl stale ↦ inl (
              rw (on_loop-received now later message s (ok (packet p.seq_num p)) flight h)
                (idle-Untouched now later s (packet p.seq_num p) idle (ground arith)))
          | inr fresh ↦
              let (frame, accepted) = unpack-Accepted pkg raw key p u in
              inr (
                p,
                record {
                  raw = raw;
                  frame = frame;
                  came = came;
                  accepted = accepted;
                  not_older = ground arith;
                  number = refl;
                },
              )
        ]
  ]
