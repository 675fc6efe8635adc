-- ===== src/Services/Edl/Answers.antt =====
-- A request of the ground is run once, and its answer comes back.
use oresat_c3_software.Prelude.{ℕ, ◌/◌, List}
use oresat_c3_software.Drivers.I2c.{I2c}
use oresat_c3_software.Protocols.EdlCommand.{Payload}
use oresat_c3_software.Protocols.EdlPacket
use oresat_c3_software.Protocols.EdlPacket.{
  Packages, EdlPacket, EdlPayload, request, response, source, dest,
}
use oresat_c3_software.Services.Edl.Outside.{Outside}
use oresat_c3_software.Services.Edl.World.{World, Names}
use oresat_c3_software.Services.Edl.Loop.{FileReceiver, EdlLoop, behind_command, key_behind}

-- A request from the ground and its answer.
abbrev pub from_ground : {Pdu : Type 0} → ℕ → Payload → EdlPacket Pdu
from_ground n p = record { payload = request p; seq_num = n; src_dest = dest }

abbrev pub to_ground : {Pdu : Type 0} → ℕ → Payload → EdlPacket Pdu
to_ground n p = record { payload = response p; seq_num = n; src_dest = source }

module _ {Pdu W Bus Obj V : Type 0} (pkg : Packages Pdu) (key : List ℕ) (files : FileReceiver W Pdu)
    (io : I2c Bus) (out : Outside W Obj V) (names : Names) where
  abbrev after_command : World W Bus → EdlLoop W Bus → EdlLoop W Bus
  after_command w s = behind_command pkg key files io out names w s

  abbrev key_after_command : World W Bus → EdlLoop W Bus → List ℕ
  key_after_command w s = key_behind pkg key files io out names w s

  -- The service when the packet with the number `n` has been taken.
  abbrev pub taken : ℕ → ℕ → EdlLoop W Bus → EdlLoop W Bus
  taken now n s = record s {
    service = record s.service { last_edl = now / 1_000_000; sequence_count = n };
  }
