-- ===== src/Services/Edl/Files/Loop.antt =====
-- The indications of the receiver that answer, its `state` and its `loop`.
use oresat_c3_software.Prelude.{
  ℕ, List, [], ◌∷◌, Bool, true, false, ◌||◌, Option, none, some, Result, ok, err, Exec, ◌>>◌, pure,
}
use oresat_c3_software.Protocols.CacheStore.{list_directory}
use oresat_c3_software.Services.Edl.Files.{
  Messages, Reserved, Handlers, Receiver, Call, Machine, returns, raises, indicates, Indication,
  transaction, transaction_finished, metadata_recv, logged, PutRequest, Raised,
  source_file_does_not_exist, no_remote_entity_cfg_found, key_error, attribute_error,
  transaction_indication, transaction_finished_indication, schedule, proxy_put_response,
  directory_listing_response, missing_file_response, Operation, proxied, directory_operation,
  no_operation, operation, put_request, listing_request, unimplemented,
}

module _ (m : Messages) {H Pdu : Type 0} (h : Handlers m H Pdu) where
  -- The cache after `list_directory`, whose result is not looked at.
  abbrev pub listed : m.ListingParams → Receiver m H → Receiver m H
  listed params r = record r {
    handlers =
        h.set_vfs
          (list_directory h.names h.listing (m.dir_file_name params) false (h.vfs r.handlers)).1
          r.handlers;
  }

  -- `proxy_responses[op](source_id, transaction_id, r)` and the request put in the queue.
  unfoldable pub answer : Operation m → ℕ → m.TransactionId → Reserved m → Call m H
  answer no_operation source t_id message r = (err key_error, r)
  answer (proxied put_request) source t_id message r =
      schedule m (some (proxy_put_response m message.put_params)) r
  answer (proxied _) source t_id message r = schedule m (unimplemented m) r
  answer (directory_operation listing_request) source t_id message r =
      schedule m (some (directory_listing_response m source t_id message.listing_params))
        (listed message.listing_params r)
  answer (directory_operation _) source t_id message r = schedule m (unimplemented m) r

  -- `metadata_recv_indication`; a message that is not reserved is `none`.
  unfoldable pub metadata_recv_indication :
      ℕ → m.TransactionId → List (Option (Reserved m)) → Call m H
  metadata_recv_indication source t_id [] = pure tt
  metadata_recv_indication source t_id (none ∷ msgs) = metadata_recv_indication source t_id msgs
  metadata_recv_indication source t_id (some message ∷ msgs) =
      answer (operation m message) source t_id message >> metadata_recv_indication source t_id msgs

  -- The methods that the handlers call.
  abbrev pub indicate : Indication m → Call m H
  indicate (transaction t_id orig) = transaction_indication m t_id orig
  indicate (transaction_finished t_id params) = transaction_finished_indication m t_id params
  indicate (metadata_recv source t_id msgs) = metadata_recv_indication source t_id msgs
  indicate logged = pure tt

  abbrev pub with_handlers : H → Receiver m H → Receiver m H
  with_handlers x r = record r { handlers = x }

  -- A call of a handler, with the calls that it makes.
  unfoldable pub run : Machine m H → Call m H
  run (returns x) r = (ok tt, with_handlers x r)
  run (raises e x) r = (err e, with_handlers x r)
  run (indicates i x k) r =
      let called = indicate i (with_handlers x r) in
      let rest = run (k called.1.handlers) called.1 in
      elim called.0 [ ok _ ↦ rest | err e ↦ (err e, called.1) ]

  -- `state`, whether it is `BUSY`.
  unfoldable pub is_busy : Receiver m H → Bool
  is_busy r =
      h.dest_busy r.handlers
      || (h.source_busy r.handlers
          || (elim r.scheduled_requests [ [] ↦ false | request ∷ requests ↦ true ]))

  -- `try: ... except Exception: ...reset()`
  abbrev pub or_reset : (H → H) → Result Raised (Unit {0}) × Receiver m H → Receiver m H
  or_reset reset (ok _, r) = r
  or_reset reset (err e, r) = with_handlers (reset r.handlers) r

  -- The packet put in its handler.
  unfoldable pub insert_packet : Option Pdu → Receiver m H → Receiver m H
  insert_packet none r = r
  insert_packet (some pdu) r = elim (h.is_for_dest pdu) [
    | true ↦ or_reset h.dest_reset (run (h.dest_insert_packet pdu r.handlers) r)
    | false ↦ or_reset h.source_reset (run (h.source_insert_packet pdu r.handlers) r)
  ]

  -- `missing_file_response(request)` put in the queue; `None` has no `msgs_to_user`.
  unfoldable pub missing : Option (PutRequest m) → Call m H
  missing none r = (err attribute_error, r)
  missing (some request) r = elim (missing_file_response m request) [
    | ok response ↦ schedule m (some response) r
    | err e ↦ (err e, r)
  ]

  -- The call of `put_request`, and the two exceptions that are caught.
  abbrev pub requested :
      Option (PutRequest m)
      → Result Raised (Unit {0}) × Receiver m H
      → Result Raised (Unit {0}) × Receiver m H
  requested request (ok _, r) = (ok tt, r)
  requested request (err source_file_does_not_exist, r) = missing request r
  requested request (err no_remote_entity_cfg_found, r) = missing request r
  requested request (err e, r) = (err e, r)

  -- The first request of the queue.
  abbrev pub take_first : List (Option (PutRequest m)) → Call m H
  take_first [] r = (ok tt, r)
  take_first (request ∷ requests) r =
      let t : Receiver m H = record r { scheduled_requests = requests } in
      requested request (run (h.put_request_of request t.handlers) t)

  -- One request of the queue, where both handlers are idle.
  unfoldable pub take_request : Call m H
  take_request r = elim (h.dest_busy r.handlers || h.source_busy r.handlers) [
    | true ↦ (ok tt, r)
    | false ↦ take_first r.scheduled_requests r
  ]

  -- Both state machines; an exception of either resets both.
  unfoldable pub state_machines : Receiver m H → Receiver m H
  state_machines r =
      or_reset (λ x. h.source_reset (h.dest_reset x))
        (((λ (t : Receiver m H). run (h.dest_state_machine t.handlers) t)
            >> (λ (t : Receiver m H). run (h.source_state_machine t.handlers) t))
          r)

  -- The packets to be sent; no packet is `None`.
  unfoldable pub drain : Receiver m H → List Pdu × Receiver m H
  drain r = let out = h.get_next_packets r.handlers in (out.0, with_handlers out.1 r)

  abbrev pub drained : List Pdu × Receiver m H → Result Raised (List Pdu) × Receiver m H
  drained out = (ok out.0, out.1)

  -- `loop`
  unfoldable pub loop : Option Pdu → Exec Raised (Receiver m H) (List Pdu)
  loop pdu r =
      let t = take_request (insert_packet pdu r) in
      elim t.0 [ ok _ ↦ drained (drain (state_machines t.1)) | err e ↦ (err e, t.1) ]
