-- ===== src/Services/Edl.antt =====
-- oresat_c3/services/edl.py: receiving EDL packets. The bytes that come from the radio are what
-- `EdlPacket.unpack` makes of them: a packet, or an error. Times are microseconds of `time()`.
pub mod Sequence
pub mod Outside
pub mod World
pub mod Commands
pub mod Loop
pub mod Guarded
pub mod Answers
pub mod Files
mod Tests
use oresat_c3_software.Prelude.{
  ℕ, ◌+◌, ◌/◌, ◌%◌, ◌^◌, Bool, true, false, ◌&&◌, Option, none, some, if◌then◌else◌, ltb,
}

-- The OD entries that the service keeps its counters in.
pub record EdlService : Type 0 where
  pub flight_mode : Bool
  pub sequence_count : ℕ
  pub rejected_count : ℕ
  pub last_edl : ℕ

-- What the queue holds: nothing, a message that is no valid packet, or a packet, by its sequence
-- number and all else that it has.
pub data Received (P : Type 0) : Type 0 where
  nothing invalid : Received P
  packet : (seq_num : ℕ) (content : P) → Received P

-- `_upack_last_recv`
unfoldable pub upack_last_recv :
    {P : Type 0} → ℕ → Received P → EdlService → Option (ℕ × P) × EdlService
upack_last_recv now nothing s = (none, s)
upack_last_recv now invalid s =
    (none, record s { rejected_count = (s.rejected_count + 1) % 2 ^ 32 })
upack_last_recv now (packet seq_num content) s =
    if s.flight_mode && ltb seq_num s.sequence_count then (none, s) else (
      some (seq_num, content),
      record s {
        last_edl = now / 1_000_000;
        sequence_count = if s.flight_mode then seq_num % 2 ^ 32 else s.sequence_count;
      },
    )
