-- ===== src/Scripts/CmdShell/Numbers.antt =====
-- The sequence number of the shell.
use oresat_c3_software.Prelude.{
  ℕ, ◌+◌, List, [], ◌∷◌, ◌≡◌, refl, arith, Bool, true, false, Bool-cases, Result-cases, inl, inr,
  Option, none, some, if◌then◌else◌, Result, ok, err,
}
use oresat_c3_software.Protocols.Struct.{Value}
use oresat_c3_software.Protocols.EdlCommand.{EdlCommandCode}
use oresat_c3_software.Protocols.EdlPacket
use oresat_c3_software.Protocols.EdlPacket.{
  Packages, EdlPacket, EdlPayload, request, response, pdu, PacketError, packed_or_failed,
}
use oresat_c3_software.Services.Edl.Loop.{received}
use oresat_c3_software.Scripts.CmdShell.{
  Sent, failed, attribute_error, some_values, values_of, has_response, answered, sent_to, packet_of,
  send_packet,
}

abbrev pub is_failed : Sent → Bool
is_failed failed = true
is_failed _ = false

some_values_lem : (vs : Option (List Value)) → is_failed (some_values vs) ≡ false
some_values_lem none = refl
some_values_lem (some []) = refl
some_values_lem (some (v ∷ vs)) = refl

values_of_lem : {Pdu : Type 0} (p : EdlPacket Pdu) → is_failed (values_of p) ≡ false
values_of_lem p =
    elim p.payload
      as (λ x.
        is_failed (elim x as (λ _. Sent) [
          | response payload ↦ some_values payload.args
          | _ ↦ attribute_error
        ])
        ≡ false) [
          | request payload ↦ refl
          | response payload ↦ some_values_lem payload.args
          | pdu x ↦ refl
        ]

-- The number after a packet: one more, but the same after an exception that was caught.
abbrev pub IsCounted : ℕ → Sent × ℕ → Type 0
IsCounted seq_num out = out.1 ≡ (if is_failed out.0 then seq_num else seq_num + 1)

module _ {Pdu : Type 0} (pkg : Packages Pdu) (key : List ℕ) where
  answered-IsCounted :
      (seq_num : ℕ) (received : Option (List ℕ))
      → IsCounted seq_num (answered pkg key seq_num received)
  answered-IsCounted seq_num none = refl
  answered-IsCounted seq_num (some raw) = elim (Result-cases (EdlPacket.unpack pkg raw key false)) [
    | inl (p, fine) ↦ ground (arith, values_of_lem p)
    | inr (e, bad) ↦ ground arith
  ]

  sent_to-IsCounted :
      (code : EdlCommandCode) (message : Result PacketError (List ℕ)) (reachable : Bool)
      (received : Option (List ℕ)) (seq_num : ℕ)
      → IsCounted seq_num (sent_to pkg key code message reachable received seq_num)
  sent_to-IsCounted code (err e) reachable received seq_num = refl
  sent_to-IsCounted code (ok raw) false received seq_num = refl
  sent_to-IsCounted code (ok raw) true received seq_num = elim (Bool-cases (has_response code)) [
    | inl awaited ↦ ground (arith, answered-IsCounted seq_num received)
    | inr not_awaited ↦ ground arith
  ]

  pub send_packet-IsCounted :
      (code : EdlCommandCode) (args : Option (List Value)) (reachable : Bool)
      (received : Option (List ℕ)) (seq_num : ℕ)
      → IsCounted seq_num (send_packet pkg key code args reachable received seq_num)
  unfolding send_packet
  send_packet-IsCounted code args reachable received seq_num =
      sent_to-IsCounted code (EdlPacket.pack pkg key (packet_of pkg key code args seq_num))
        reachable received seq_num
