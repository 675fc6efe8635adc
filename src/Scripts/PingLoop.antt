-- ===== src/Scripts/PingLoop.antt =====
-- scripts/edl_ping_loop.py: `Link`, which sends pings and tracks their responses, and `Timeout`.
-- Times are ticks of the monotonic clock. The sockets are parameters: what is received is an
-- argument, and whether the send was refused.
pub mod Accounting
pub mod Order
pub mod Rounds
mod Tests
use oresat_c3_software.Prelude.{
  ℕ, zero, suc, ◌+◌, ◌-◌, ◌*◌, ◌/◌, ◌%◌, ◌^◌, ltb, ◌==◌, List, [], ◌∷◌, ◌++◌, Bool, true, false,
  not, Option, none, some, if◌then◌else◌, Result, ok, err, Exec,
}
use oresat_c3_software.Protocols.Struct.{Value, int, truth, bytes}
use oresat_c3_software.Protocols.EdlCommand.{Payload, ping}
use oresat_c3_software.Protocols.EdlPacket
use oresat_c3_software.Protocols.EdlPacket.{
  Packages, EdlPacket, EdlPayload, request, response, pdu, PacketError, src_dest_oresat,
}

-- `Timeout`
pub record Timeout : Type 0 where
  pub start : ℕ
  pub delay : ℕ

-- `Timeout.next`, by the readings of the clock.
unfoldable pub next : Timeout → ℕ → List ℕ → List ℕ
next timeout loop [] = []
next timeout loop (now ∷ readings) =
    let rest = next timeout loop readings in
    if ltb now (timeout.delay * loop + timeout.start)
    then (timeout.delay * loop + timeout.start - now) ∷ rest
    else []

-- `Link`, with the pings that are not answered in the order of their keys.
pub record Link : Type 0 where
  pub sent : ℕ
  pub echo : ℕ
  pub sequence_number : ℕ
  pub last : ℕ
  pub sent_times : List (ℕ × ℕ)

-- `Link.__init__`, without the sockets.
abbrev pub link_at : ℕ → Link
link_at sequence_number = record {
  sent = 0;
  echo = 0;
  sequence_number = sequence_number;
  last = 0;
  sent_times = [];
}

-- The exceptions of `send` and of `recv`; `no_values` where `.payload.values[0]` raises.
pub data LinkError : Type 0 where
  value_error connection_refused no_values : LinkError
  packet_error : PacketError → LinkError

-- `value in sent_times` and `sent_times[value] = now` of an `OrderedDict`.
unfoldable pub is_sent : ℕ → List (ℕ × ℕ) → Bool
is_sent value [] = false
is_sent value (entry ∷ rest) = elim (entry.0 == value) [ true ↦ true | false ↦ is_sent value rest ]

unfoldable pub set_time : ℕ → ℕ → List (ℕ × ℕ) → List (ℕ × ℕ)
set_time value now [] = (value, now) ∷ []
set_time value now (entry ∷ rest) = elim (entry.0 == value) [
  | true ↦ (entry.0, now) ∷ rest
  | false ↦ entry ∷ set_time value now rest
]

-- `popitem(last=False)` until the payload comes: the pings lost, when it was sent, and what is left.
unfoldable pub pop_until : ℕ → List (ℕ × ℕ) → ℕ → ℕ → ℕ × ℕ × List (ℕ × ℕ)
pop_until payload [] lost t_sent = (lost, t_sent, [])
pop_until payload (entry ∷ rest) lost t_sent = elim (entry.0 == payload) [
  | true ↦ (lost, entry.1, rest)
  | false ↦ pop_until payload rest (lost + 1) entry.1
]

-- `Link.Result`; the bytes of a response are left out of `Invalid` and `Recv`.
pub data LinkResult : Type 0 where
  invalid : (payload : Value) → LinkResult
  lost : (count : ℕ) → LinkResult
  received : (delay : ℕ) → LinkResult

abbrev pub and_lost : ℕ → List LinkResult → List LinkResult
and_lost zero results = results
and_lost (suc n) results = lost (suc n) ∷ results

abbrev pub popped : ℕ → ℕ × ℕ × List (ℕ × ℕ) → Link → List LinkResult × Link
popped t_recv (count, t_sent, left) link = (
  and_lost count (received (t_recv - t_sent) ∷ []),
  record link { echo = link.echo + 1; sent_times = left },
)

-- The key that a value is equal to: Python's `True` is 1.
abbrev pub key_of : Value → Option ℕ
key_of (int n) = some n
key_of (truth b) = some (if b then 1 else 0)
key_of (bytes raw) = none

abbrev pub handle_key : ℕ → Value → ℕ → Link → List LinkResult × Link
handle_key key payload t_recv link = elim (is_sent key link.sent_times) [
  | false ↦ (invalid payload ∷ [], link)
  | true ↦ popped t_recv (pop_until key link.sent_times 0 0) link
]

-- What `recv` yields for one payload, received at a time.
unfoldable pub handle : Value → ℕ → Link → List LinkResult × Link
handle payload t_recv link = elim (key_of payload) [
  | none ↦ (invalid payload ∷ [], link)
  | some key ↦ handle_key key payload t_recv link
]

-- `rate`
abbrev pub rate : Link → ℕ
rate link = 100 * link.echo / link.sent

-- What happens in one round of `ping_loop`: whether the uplink refuses, when it is sent, and what
-- is received until the time is out, with the times.
pub record Round : Type 0 where
  pub refused : Bool
  pub now : ℕ
  pub responses : List (List ℕ × ℕ)

module _ {Pdu : Type 0} (pkg : Packages Pdu) (key : List ℕ) where
  -- The packet of a ping.
  abbrev pub ping_packet : ℕ → ℕ → EdlPacket Pdu
  ping_packet value sequence_number = record {
    payload = request (record { code = ping; args = some (int value ∷ []) });
    seq_num = sequence_number;
    src_dest = src_dest_oresat;
  }

  abbrev pub uplinked : Result PacketError (List ℕ) → Bool → ℕ → ℕ → Exec LinkError Link (List ℕ)
  uplinked (err e) refused value now link = (err (packet_error e), link)
  uplinked (ok message) refused value now link = elim refused [
    | true ↦ (err connection_refused, link)
    | false ↦ (
      ok message,
      record link { sent_times = set_time value now link.sent_times; sent = link.sent + 1 },
    )
  ]

  -- `send`
  unfoldable pub send : ℕ → Bool → ℕ → Exec LinkError Link (List ℕ)
  send value refused now link = elim (ltb link.last value) [
    | false ↦ (err value_error, link)
    | true ↦
        let sequence_number = (link.sequence_number + 1) % 4294967296 in
        uplinked (EdlPacket.pack pkg key (ping_packet value sequence_number)) refused value now
          (record link { last = value; sequence_number = sequence_number })
  ]

  -- `.payload.values[0]`
  abbrev pub first_value : Option (List Value) → Result LinkError Value
  first_value (some (payload ∷ values)) = ok payload
  first_value _ = err no_values

  abbrev pub payload_value : Result PacketError (EdlPacket Pdu) → Result LinkError Value
  payload_value (err e) = err (packet_error e)
  payload_value (ok p) = elim p.payload [
    | response payload ↦ first_value payload.args
    | _ ↦ err no_values
  ]

  -- A response of `recv`.
  unfoldable pub recv : List ℕ → ℕ → Exec LinkError Link (List LinkResult)
  recv raw t_recv link = elim (payload_value (EdlPacket.unpack pkg raw key false)) [
    | err e ↦ (err e, link)
    | ok payload ↦ let out = handle payload t_recv link in (ok out.0, out.1)
  ]

  -- `for result in link.recv(...)`
  unfoldable pub recv_all : List (List ℕ × ℕ) → Exec LinkError Link (Unit {0})
  recv_all [] link = (ok tt, link)
  recv_all ((raw, t_recv) ∷ responses) link =
      let rest = recv_all responses (recv raw t_recv link).1 in
      elim (recv raw t_recv link).0 [ ok _ ↦ rest | err e ↦ (err e, (recv raw t_recv link).1) ]

  -- After the send: a refused one skips the round, and another exception gets out.
  abbrev pub sent_or :
      Result LinkError (List ℕ)
      → Link
      → Result LinkError (Unit {0}) × Link
      → Result LinkError (Unit {0}) × Link
      → Result LinkError (Unit {0}) × Link
  sent_or (ok message) t skipped received' = received'
  sent_or (err connection_refused) t skipped received' = skipped
  sent_or (err e) t skipped received' = (err e, t)

  abbrev pub received_or :
      Result LinkError (Unit {0}) × Link
      → Result LinkError (Unit {0}) × Link
      → Result LinkError (Unit {0}) × Link
  received_or (ok _, u) rest = rest
  received_or (err e, u) rest = (err e, u)

  -- `ping_loop`, for so many rounds.
  unfoldable pub ping_loop : List Round → ℕ → Link → Result LinkError (Unit {0}) × Link
  ping_loop [] loop link = (ok tt, link)
  ping_loop (round ∷ rounds) loop link =
      let out = send (loop + 1) round.refused round.now link in
      let u = recv_all round.responses out.1 in
      let skipped = ping_loop rounds (loop + 1) out.1 in
      let rest = ping_loop rounds (loop + 1) u.1 in sent_or out.0 out.1 skipped (received_or u rest)
