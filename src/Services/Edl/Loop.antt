-- ===== src/Services/Edl/Loop.antt =====
-- oresat_c3/services/edl.py: `on_loop`, from the message in the queue to the responses. The file
-- receiver, which is built on cfdppy, is a parameter.
use oresat_c3_software.Prelude.{
  ℕ, List, [], ◌∷◌, ◌++◌, map, Bool, true, false, not, Option, none, some, if◌then◌else◌, Result,
  ok, err, Exec,
}
use oresat_c3_software.Drivers.I2c.{I2c}
use oresat_c3_software.Protocols.Struct.{Value}
use oresat_c3_software.Protocols.EdlCommand.{EdlCommandCode}
use oresat_c3_software.Protocols.EdlPacket
use oresat_c3_software.Protocols.EdlPacket.{
  Packages, EdlPacket, EdlPayload, request, response, pdu, PacketError, uncaught, overflow_error,
  frame_error, pdu_error, src_dest_unic_logs,
}
use oresat_c3_software.Services.Edl.{
  EdlService, Received, nothing, invalid, packet, upack_last_recv,
}
use oresat_c3_software.Services.Edl.Outside.{Outside, CallError}
use oresat_c3_software.Services.Edl.World.{RunError, World, Names}
use oresat_c3_software.Services.Edl.Commands.{run_cmd}

-- The class `EdlFileReciever`: its state lies in what is outside.
pub record FileReceiver (W Pdu : Type 0) : Type 0 where
  pub busy : W → Bool
  pub loop : Option Pdu → Exec CallError W (Option (List Pdu))

-- The service, what its commands act on, and the responses that went to the radio.
pub record EdlLoop (W Bus : Type 0) : Type 0 where
  pub service : EdlService
  pub world : World W Bus
  pub sent : List (List ℕ)

-- What gets out of `on_loop`: an exception of packing or unpacking that is no `EdlPacketError` (an
-- exception of the frame counts as one that is no ValueError either), or one of the receiver.
pub data LoopError : Type 0 where
  packet_error : PacketError → LoopError
  receiver_error : CallError → LoopError

-- `except EdlPacketError`
abbrev pub is_caught : PacketError → Bool
is_caught (uncaught e) = false
is_caught overflow_error = false
is_caught frame_error = false
is_caught pdu_error = false
is_caught _ = true

abbrev pub received_packet :
    {Pdu : Type 0}
    → Result PacketError (EdlPacket Pdu)
    → Result PacketError (Received (EdlPacket Pdu))
received_packet (ok p) = ok (packet p.seq_num p)
received_packet (err e) = if is_caught e then ok invalid else err e

module _ {Pdu : Type 0} (pkg : Packages Pdu) (key : List ℕ) where
  -- The message of the queue, unpacked.
  unfoldable pub received : Bool → Option (List ℕ) → Result PacketError (Received (EdlPacket Pdu))
  received flight_mode none = ok nothing
  received flight_mode (some raw) = received_packet (EdlPacket.unpack pkg raw key (not flight_mode))

  abbrev Sending : Type 0
  Sending = List (List ℕ) → Result LoopError (Unit {0}) × List (List ℕ)

  -- One response, and the rest of the loop.
  abbrev pub and_send : Result PacketError (List ℕ) → Sending → Sending
  and_send (ok raw) rest sent = rest (sent ++ (raw ∷ []))
  and_send (err e) rest sent = if is_caught e then rest sent else (err (packet_error e), sent)

  -- The loop over the payloads of the responses, by the sequence count.
  unfoldable pub send_all : ℕ → List (EdlPayload Pdu) → Sending
  send_all count [] sent = (ok tt, sent)
  send_all count (payload ∷ payloads) sent =
      let rest = send_all count payloads in
      and_send
        (EdlPacket.pack pkg key
          (record { payload = payload; seq_num = count; src_dest = src_dest_unic_logs }))
        rest sent

module _ {Pdu W Bus Obj V : Type 0} (pkg : Packages Pdu) (key : List ℕ) (files : FileReceiver W Pdu)
    (io : I2c Bus) (out : Outside W Obj V) (names : Names) where
  abbrev pub Pass : Type 0
  Pass = Result LoopError (Unit {0}) × EdlLoop W Bus

  -- The end of the pass, from `res_payload` on, with the key that is then in the OD.
  abbrev pub respond : List ℕ → Option (List (EdlPayload Pdu)) → EdlLoop W Bus → Pass
  respond active none s = (ok tt, s)
  respond active (some payloads) s =
      let (r, sent) = send_all pkg active s.service.sequence_count payloads s.sent in
      (r, record s { sent = sent })

  -- A response without values is not sent, nor is one of a command that raised.
  abbrev pub respond_values :
      List ℕ → EdlCommandCode → Result RunError (Option (List Value)) → EdlLoop W Bus → Pass
  respond_values active code (err e) s = (ok tt, s)
  respond_values active code (ok none) s = (ok tt, s)
  respond_values active code (ok (some [])) s = (ok tt, s)
  respond_values active code (ok (some (v ∷ vs))) s =
      respond active (some (response (record { code = code; args = some (v ∷ vs) }) ∷ [])) s

  abbrev pub respond_files : Result CallError (Option (List Pdu)) → EdlLoop W Bus → Pass
  respond_files (err e) s = (err (receiver_error e), s)
  respond_files (ok none) s = (ok tt, s)
  respond_files (ok (some pdus)) s = respond key (some (map pdu pdus)) s

  -- `self._file_receiver.loop(pdu)` and the responses.
  unfoldable pub run_files : Option Pdu → EdlLoop W Bus → Pass
  run_files p s =
      let (r, w) = files.loop p s.world.outside in
      respond_files r (record s { world = record s.world { outside = w } })

  -- What a command leaves: the world, and the entries of the own OD that it may have written.
  abbrev pub behind_command : World W Bus → EdlLoop W Bus → EdlLoop W Bus
  behind_command w s = record s {
    world = w;
    service = out.service_after s.world.outside w.outside s.service;
  }

  abbrev pub key_behind : World W Bus → EdlLoop W Bus → List ℕ
  key_behind w s = out.key_after s.world.outside w.outside key

  -- A payload, by the channel of its packet. `_run_cmd` raises for a response, which has no `args`.
  unfoldable pub run_payload : ℕ → EdlPayload Pdu → EdlLoop W Bus → Pass
  run_payload now (request p) s =
      let (r, w) = run_cmd io out names now p s.world in
      respond_values (key_behind w s) p.code r (behind_command w s)
  run_payload now (response p) s = (ok tt, s)
  run_payload now (pdu p) s = run_files (some p) s

  abbrev pub run_packet : ℕ → Option (ℕ × EdlPacket Pdu) → EdlLoop W Bus → Pass
  run_packet now none s = if files.busy s.world.outside then run_files none s else (ok tt, s)
  run_packet now (some (seq_num, p)) s = run_payload now p.payload s

  abbrev pub run_received :
      ℕ → ℕ → Result PacketError (Received (EdlPacket Pdu)) → EdlLoop W Bus → Pass
  run_received now later (err e) s = (err (packet_error e), s)
  run_received now later (ok r) s =
      let (got, service) = upack_last_recv now r s.service in
      run_packet later got (record s { service = service })

  -- `on_loop`, with the message of the queue and the times that `_upack_last_recv` and `_run_cmd` read.
  unfoldable pub on_loop : ℕ → ℕ → Option (List ℕ) → EdlLoop W Bus → Pass
  on_loop now later message s =
      run_received now later (received pkg key s.service.flight_mode message) s
