-- ===== src/Scripts/CmdShell/Sessions.antt =====
-- Sessions of the shell: the card takes its packets.
use oresat_c3_software.Prelude.{
  ℕ, ◌≤◌, List, [], ◌∷◌, ◌≡◌, Bool, true, false, ◌⊎◌, ◌&&◌, length, Option, none, some, Result, ok,
  err,
}
use oresat_c3_software.Protocols.Struct.{Value}
use oresat_c3_software.Protocols.EdlCommand.{EdlCommandCode, req_body, no_body}
use oresat_c3_software.Protocols.EdlPacket
use oresat_c3_software.Protocols.EdlPacket.{
  Packages, EdlPacket, EdlPayload, request, response, pdu, PacketError,
}
use oresat_c3_software.Services.Edl.{Received}
use oresat_c3_software.Services.Edl.Loop.{received}
use oresat_c3_software.Protocols.EdlCommand.RoundTrip.{FitsBody}
use oresat_c3_software.Scripts.CmdShell.{packet_of, send_packet}

-- One packet of the shell: whether it could be sent, whether it got to the card, and when, and
-- what was received in time.
pub record Exchange : Type 0 where
  pub code : EdlCommandCode
  pub args : Option (List Value)
  pub reachable : Bool
  pub arrives : Bool
  pub at : ℕ
  pub answer : Option (List ℕ)

module _ {Pdu : Type 0} (pkg : Packages Pdu) (key : List ℕ) where
  -- What `_upack_last_recv` of the card makes of a message, in flight mode; an exception that it
  -- does not catch leaves nothing.
  abbrev unpacked :
      ℕ
      → Result PacketError (Received (EdlPacket Pdu))
      → List (ℕ × Received (EdlPacket Pdu))
      → List (ℕ × Received (EdlPacket Pdu))
  unpacked at (ok r) rest = (at, r) ∷ rest
  unpacked at (err e) rest = rest

  abbrev delivered :
      Bool
      → ℕ
      → Result PacketError (List ℕ)
      → List (ℕ × Received (EdlPacket Pdu))
      → List (ℕ × Received (EdlPacket Pdu))
  delivered true at (ok raw) rest = unpacked at (received pkg key true (some raw)) rest
  delivered _ at _ rest = rest

  -- What the card has of a session: the messages that were packed and sent, and got to it, unpacked.
  abbrev pub arrivals : List Exchange → ℕ → List (ℕ × Received (EdlPacket Pdu))
  arrivals [] seq_num = []
  arrivals (x ∷ xs) seq_num =
      delivered (x.reachable && x.arrives) x.at
        (EdlPacket.pack pkg key (packet_of pkg key x.code x.args seq_num))
        (arrivals xs (send_packet pkg key x.code x.args x.reachable x.answer seq_num).1)

  abbrev numbered : Bool → ℕ → List ℕ → List ℕ
  numbered true n rest = n ∷ rest
  numbered false n rest = rest

  abbrev pub arrived_numbers : List Exchange → ℕ → List ℕ
  arrived_numbers [] seq_num = []
  arrived_numbers (x ∷ xs) seq_num =
      numbered (x.reachable && x.arrives) seq_num
        (arrived_numbers xs (send_packet pkg key x.code x.args x.reachable x.answer seq_num).1)

  -- The arguments fit the command: none where the command has none, else values of its format. The
  -- payload is not longer than a frame takes.
  pub record Fits (x : Exchange) : Type 0 where
    pub args_fit :
        ((x.args ≡ none) × (req_body x.code ≡ no_body))
        ⊎ ((vs : List Value) × (x.args ≡ some vs) × FitsBody (req_body x.code) vs)
    pub short :
        (raw : List ℕ)
        → EdlPacket.pack_payload pkg (request (record { code = x.code; args = x.args })) ≡ ok raw
        → length raw ≤ 65490

  abbrev pub AllFit : List Exchange → Type 0
  AllFit [] = Unit
  AllFit (x ∷ xs) = Fits x × AllFit xs

  -- The packet comes back from its bytes with its number.
  abbrev Returns : ℕ → Result PacketError (List ℕ) → Type 0
  Returns seq_num message =
      (raw : List ℕ) × ((p : EdlPacket Pdu) × (message ≡ ok raw)
        × (EdlPacket.unpack pkg raw key false ≡ ok p)
        × (p.seq_num ≡ seq_num))
