-- ===== src/Services/Edl/Files/Tests.antt =====
-- The receiver with handlers that do little.
use oresat_c3_software.Prelude.{ℕ, ◌+◌, ◌==◌, String, [], ◌∷◌, ◌≡◌, true, false, ◌⊎◌, some}
use oresat_c3_software.Protocols.CacheStore.{CacheStore}
use oresat_c3_software.Services.Edl.Files.{
  Messages, Handlers, Receiver, returns, raises, indicates, transaction, transaction_finished,
  other, source_file_does_not_exist, proxy_put_response,
}
use oresat_c3_software.Services.Edl.Files.Loop.{insert_packet, loop}
use oresat_c3_software.Services.Edl.Files.Growing.{Grows}
use oresat_c3_software.Services.Edl.Files.Queue.{idle, TakesFirst, loop_queue}

abbrev messages : Messages
messages = record {
  TransactionId = ℕ;
  same = λ t u. t == u;
  source_id = λ t. t;
  Finished = ℕ;
  ListingParams = String;
  dir_file_name = λ name. name;
  is_truthy = λ p. true;
}

-- The handlers are a cache and a count of packets; the source finds no file.
abbrev handlers : Handlers messages (CacheStore × ℕ) ℕ
handlers = record {
  names = record { is_valid = λ name. true; before = λ x y. false };
  listing = λ recursive disk. [];
  vfs = λ h. h.0;
  set_vfs = λ s h. (s, h.1);
  is_for_dest = λ pdu. true;
  dest_busy = λ h. false;
  source_busy = λ h. false;
  dest_insert_packet =
      λ pdu h. indicates (transaction_finished 7 pdu) h (λ h'. returns (h'.0, h'.1 + 1));
  source_insert_packet = λ pdu h. returns h;
  dest_reset = λ h. (h.0, 0);
  source_reset = λ h. (h.0, 0);
  put_request_of = λ request h. raises source_file_does_not_exist h;
  dest_state_machine = λ h. indicates (transaction 8 (some 3)) h (λ h'. returns h');
  source_state_machine = λ h. raises other h;
  get_next_packets = λ h. (h.1 ∷ [], h);
}

-- A proxied request waits for its file, and another one for its end.
abbrev waiting : Receiver messages (CacheStore × ℕ)
waiting = record {
  handlers = (record { data' = []; disk = [] }, 0);
  scheduled_requests =
      some (
        proxy_put_response messages (record {
          dest_entity_id = 1;
          source_file_as_path = "a";
          dest_file_as_path = "b";
          transaction_id = 5;
        }))
      ∷ [];
  active_requests = (7, 4) ∷ [];
}

loop_queue_example :
    Grows messages waiting (loop messages handlers (some 2) waiting).1
    ⊎ ((idle messages handlers (insert_packet messages handlers (some 2) waiting) ≡ true)
        × TakesFirst messages handlers waiting (loop messages handlers (some 2) waiting).1)
loop_queue_example = loop_queue messages handlers (some 2) waiting
