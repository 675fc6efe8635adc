-- ===== src/Services/Edl/Tests.antt =====
-- The theorems on EDL packets at concrete inputs.
use oresat_c3_software.Prelude.{
  ◌⊎◌, false, none, some, Exec, ok, err, ℕ, ◌≡◌, refl, arith, List, [], ◌∷◌, true,
}
use oresat_c3_software.Drivers.I2c.{I2c}
use oresat_c3_software.Protocols.Struct
use oresat_c3_software.Protocols.Struct.{Value, int, truth, bytes}
use oresat_c3_software.Protocols.EdlCommand.{
  Payload, ping, tx_ctrl, co_node_enable, co_sdo_write, value,
}
use oresat_c3_software.Protocols.EdlPacket
use oresat_c3_software.Protocols.EdlPacket.{EdlPacket}
use oresat_c3_software.Protocols.EdlPacket.Plain.{packages}
use oresat_c3_software.Subsystems.Opd.{new_opd}
use oresat_c3_software.Services.Edl.Outside.{Outside, CallError, aborted}
use oresat_c3_software.Services.Edl.World.{World, Names, sdo_write}
use oresat_c3_software.Services.Edl.Commands.{run_cmd, run_tx_ctrl, run_sdo_write}
use oresat_c3_software.Services.Edl.Loop.{FileReceiver, EdlLoop, on_loop}
use oresat_c3_software.Services.Edl.Guarded.{Untouched, Fresh, on_loop_guarded}
use oresat_c3_software.Services.Edl.{EdlService, Received, nothing, invalid, packet}
use oresat_c3_software.Services.Edl.Sequence.{accepted, IsSortedFrom, accepted-IsSortedFrom}

abbrev flying : EdlService
flying = record { flight_mode = true; sequence_count = 7; rejected_count = 0; last_edl = 0 }

-- A stale packet between two that are accepted.
abbrev traffic : List (ℕ × Received ℕ)
traffic = (1, packet 9 0) ∷ (2, invalid) ∷ (3, packet 8 0) ∷ (4, nothing) ∷ (5, packet 10 0) ∷ []

accepted-IsSortedFrom_example : IsSortedFrom 7 (accepted traffic flying)
accepted-IsSortedFrom_example =
    accepted-IsSortedFrom traffic flying refl
      (omega arith, (tt, (omega arith, (tt, (omega arith, tt)))))

abbrev nothing_done : {S : Type 0} → Exec CallError S (Unit {0})
nothing_done s = (ok tt, s)

-- Nothing is outside but cards that do nothing.
abbrev quiet : Outside (Unit {0}) (Unit {0}) (Unit {0})
quiet = record {
  stop = λ stop. nothing_done;
  node_status = λ name w. some (int 3 ∷ int 0 ∷ int 7 ∷ []);
  send_sync = nothing_done;
  send_tpdo = λ n. nothing_done;
  od = λ index. none;
  od_db = λ name. none;
  on_sdo_write = λ index subindex obj raw. nothing_done;
  on_sdo_read = λ index subindex obj w. (ok tt, w);
  sdo_write = λ name index subindex raw w. (err (aborted 0x0609_0011), w);
  sdo_read = λ name index subindex w. (ok tt, w);
  encode_raw = λ obj value. some [];
  set_rtc_time = λ ts. nothing_done;
  set_system_time_to_rtc_time = nothing_done;
  beacon_send = nothing_done;
  service_after = λ before after s. s;
  key_after = λ before after key. key;
}

abbrev no_bus : I2c (Unit {0})
no_bus = record {
  write = λ bus addr raw b. (false, b);
  write_read = λ bus addr raw size b. (none, b);
}

abbrev no_files : FileReceiver (Unit {0}) (List ℕ)
no_files = record { busy = λ w. false; loop = λ p w. (ok none, w) }

abbrev names : Names
names = record { node_id_to_name = λ n. some "gps"; opd_addr_to_name = λ n. none }

abbrev world : World (Unit {0}) (Unit {0})
world = record {
  tx_enabled = false;
  last_tx_enable = 0;
  opd = record { self = new_opd; bus = tt };
  outside = tt;
}

abbrev service : EdlLoop (Unit {0}) (Unit {0})
service = record { service = flying; world = world; sent = [] }

abbrev key : List ℕ
key = 1 ∷ (2 ∷ [])

abbrev ping_request : Payload
ping_request = record { code = ping; args = some (int 7 ∷ []) }

on_loop_guarded_example :
    Untouched service
      (on_loop packages key no_files no_bus quiet names 1 2 (some (1 ∷ [])) service).1
    ⊎ ((p : EdlPacket (List ℕ)) × Fresh packages key (some (1 ∷ [])) 7 p.seq_num p)
on_loop_guarded_example =
    on_loop_guarded packages key no_files no_bus quiet names 1 2 (some (1 ∷ [])) service refl refl

-- Of the commands whose responses have a format, four answer nothing.
no_answer :
    (run_cmd no_bus quiet names 3
      (record { code = co_node_enable; args = some (int 4 ∷ truth true ∷ []) })
      world).0
    ≡ ok none
unfolding run_cmd
no_answer = refl

sdo_aborted :
    (run_cmd no_bus quiet names 3
      (record {
        code = co_sdo_write;
        args = some (int 4 ∷ int 0x6000 ∷ int 1 ∷ int 1 ∷ bytes (5 ∷ []) ∷ []);
      })
      world).0
    ≡ ok (some (int 0x0609_0011 ∷ []))
unfolding run_cmd run_sdo_write sdo_write
sdo_aborted = refl

tx_on :
    run_cmd no_bus quiet names 5_000_000
      (record { code = tx_ctrl; args = some (truth true ∷ []) })
      world
    ≡ (ok (some (truth true ∷ [])), record world { tx_enabled = true; last_tx_enable = 5 })
unfolding run_cmd run_tx_ctrl
tx_on = refl
