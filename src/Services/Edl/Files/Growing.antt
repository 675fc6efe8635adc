-- ===== src/Services/Edl/Files/Growing.antt =====
-- The calls of the receiver only add requests behind its queue.
use mathlib.Core.List.{append_assoc, append-nil}
use oresat_c3_software.Prelude.{
  ℕ, List, [], ◌∷◌, ◌++◌, ◌≡◌, refl, sym, ap, ◌∙◌, arith, true, false, Option-cases, inl, inr,
  Option, none, some, Result, ok, err, ◌>>◌,
}
use oresat_c3_software.Services.Edl.Files.{
  Messages, Reserved, Handlers, Receiver, Call, Machine, returns, raises, indicates, Indication,
  transaction, transaction_finished, metadata_recv, logged, PutRequest, Raised,
  transaction_indication, transaction_finished_indication, get, put_request, msg_to_user,
  fs_request, fault_handler_override, transmission_mode, flow_label, segmentation_ctrl,
  put_response, fs_response, put_cancel, closure_request, listing_request, listing_response,
  custom_listing_parameters, proxy_put_response, directory_listing_response, proxy_request_complete,
  Operation, proxied, directory_operation, no_operation, operation,
}
use oresat_c3_software.Services.Edl.Files.Loop.{
  answer, metadata_recv_indication, indicate, run, or_reset, insert_packet, state_machines,
  with_handlers,
}

module _ (m : Messages) {H : Type 0} where
  -- The queue with requests more behind it.
  abbrev pub Grows : Receiver m H → Receiver m H → Type 0
  Grows r t =
      (new : List (Option (PutRequest m))) × (t.scheduled_requests ≡ r.scheduled_requests ++ new)

  pub same_queue : (r t : Receiver m H) → t.scheduled_requests ≡ r.scheduled_requests → Grows r t
  same_queue r t h = ([], h ∙ sym (append-nil r.scheduled_requests))

  pub Grows-on : (r t u : Receiver m H) → Grows r t → Grows t u → Grows r u
  Grows-on r t u (new, h) (more, k) =
      (new ++ more, k ∙ (ap (λ q. q ++ more) h ∙ append_assoc r.scheduled_requests new more))

  -- A call that only adds requests.
  abbrev pub IsGrowing : Call m H → Type 0
  IsGrowing call = (r : Receiver m H) → Grows r (call r).1

  abbrev followed :
      Call m H → Result Raised (Unit {0}) × Receiver m H → Result Raised (Unit {0}) × Receiver m H
  followed d p = elim p.0 [ ok _ ↦ d p.1 | err e ↦ (err e, p.1) ]

  pub followed-Grows :
      (d : Call m H) (r : Receiver m H) (p : Result Raised (Unit {0}) × Receiver m H)
      → IsGrowing d
      → Grows r p.1
      → Grows r (followed d p).1
  followed-Grows d r (ok a, t) k g = Grows-on r t (d t).1 g (k t)
  followed-Grows d r (err e, t) k g = g

  pub both-IsGrowing : (c d : Call m H) → IsGrowing c → IsGrowing d → IsGrowing (c >> d)
  both-IsGrowing c d g k r = followed-Grows d r (c r) k (g r)

  transaction_finished-IsGrowing :
      (t_id : m.TransactionId) (params : m.Finished)
      → IsGrowing (transaction_finished_indication m t_id params)
  unfolding transaction_finished_indication
  transaction_finished-IsGrowing t_id params r =
      elim (Option-cases (get m t_id r.active_requests)) [
        | inl gone ↦ same_queue r (transaction_finished_indication m t_id params r).1 (ground arith)
        | inr (orig, there) ↦ (some (proxy_request_complete m orig params) ∷ [], ground arith)
      ]

  transaction-IsGrowing :
      (t_id : m.TransactionId) (orig : Option m.TransactionId)
      → IsGrowing (transaction_indication m t_id orig)
  unfolding transaction_indication
  transaction-IsGrowing t_id none r = same_queue r r refl
  transaction-IsGrowing t_id (some orig) r =
      same_queue r (transaction_indication m t_id (some orig) r).1 refl

module _ (m : Messages) {H Pdu : Type 0} (h : Handlers m H Pdu) where
  pub answer-IsGrowing :
      (op : Operation m) (source : ℕ) (t_id : m.TransactionId) (message : Reserved m)
      → IsGrowing m (answer m h op source t_id message)
  unfolding answer
  answer-IsGrowing no_operation source t_id message r = same_queue m r r refl
  answer-IsGrowing (proxied put_request) source t_id message r =
      (some (proxy_put_response m message.put_params) ∷ [], refl)
  answer-IsGrowing (proxied msg_to_user) source t_id message r = (none ∷ [], refl)
  answer-IsGrowing (proxied fs_request) source t_id message r = (none ∷ [], refl)
  answer-IsGrowing (proxied fault_handler_override) source t_id message r = (none ∷ [], refl)
  answer-IsGrowing (proxied transmission_mode) source t_id message r = (none ∷ [], refl)
  answer-IsGrowing (proxied flow_label) source t_id message r = (none ∷ [], refl)
  answer-IsGrowing (proxied segmentation_ctrl) source t_id message r = (none ∷ [], refl)
  answer-IsGrowing (proxied put_response) source t_id message r = (none ∷ [], refl)
  answer-IsGrowing (proxied fs_response) source t_id message r = (none ∷ [], refl)
  answer-IsGrowing (proxied put_cancel) source t_id message r = (none ∷ [], refl)
  answer-IsGrowing (proxied closure_request) source t_id message r = (none ∷ [], refl)
  answer-IsGrowing (directory_operation listing_request) source t_id message r =
      (some (directory_listing_response m source t_id message.listing_params) ∷ [], refl)
  answer-IsGrowing (directory_operation listing_response) source t_id message r = (none ∷ [], refl)
  answer-IsGrowing (directory_operation custom_listing_parameters) source t_id message r =
      (none ∷ [], refl)

  metadata_recv-IsGrowing :
      (source : ℕ) (t_id : m.TransactionId) (msgs : List (Option (Reserved m)))
      → IsGrowing m (metadata_recv_indication m h source t_id msgs)
  unfolding metadata_recv_indication
  metadata_recv-IsGrowing source t_id [] r = same_queue m r r refl
  metadata_recv-IsGrowing source t_id (none ∷ msgs) r = metadata_recv-IsGrowing source t_id msgs r
  metadata_recv-IsGrowing source t_id (some message ∷ msgs) r =
      both-IsGrowing m (answer m h (operation m message) source t_id message)
        (metadata_recv_indication m h source t_id msgs)
        (answer-IsGrowing (operation m message) source t_id message)
        (metadata_recv-IsGrowing source t_id msgs) r

  indicate-IsGrowing : (i : Indication m) → IsGrowing m (indicate m h i)
  indicate-IsGrowing (transaction t_id orig) r = transaction-IsGrowing m t_id orig r
  indicate-IsGrowing (transaction_finished t_id params) r =
      transaction_finished-IsGrowing m t_id params r
  indicate-IsGrowing (metadata_recv source t_id msgs) r = metadata_recv-IsGrowing source t_id msgs r
  indicate-IsGrowing logged r = same_queue m r r refl

  pub run-IsGrowing : (machine : Machine m H) → IsGrowing m (run m h machine)
  unfolding run
  run-IsGrowing (returns x) r = same_queue m r (with_handlers m h x r) refl
  run-IsGrowing (raises e x) r = same_queue m r (with_handlers m h x r) refl
  run-IsGrowing (indicates i x k) r =
      followed-Grows m (λ t. run m h (k t.handlers) t) r (indicate m h i (with_handlers m h x r))
        (λ t. run-IsGrowing (k t.handlers) t) (indicate-IsGrowing i (with_handlers m h x r))

  or_reset-Grows :
      (reset : H → H) (r : Receiver m H) (p : Result Raised (Unit {0}) × Receiver m H)
      → Grows m r p.1
      → Grows m r (or_reset m h reset p)
  or_reset-Grows reset r (ok a, t) g = g
  or_reset-Grows reset r (err e, t) g = g

  pub insert_packet-Grows :
      (pdu : Option Pdu) (r : Receiver m H) → Grows m r (insert_packet m h pdu r)
  unfolding insert_packet
  insert_packet-Grows none r = same_queue m r r refl
  insert_packet-Grows (some pdu) r =
      elim (h.is_for_dest pdu)
        as (λ b. Grows m r (elim b [
          | true ↦ or_reset m h h.dest_reset (run m h (h.dest_insert_packet pdu r.handlers) r)
          | false ↦ or_reset m h h.source_reset (run m h (h.source_insert_packet pdu r.handlers) r)
        ])) [
          | true ↦
              or_reset-Grows h.dest_reset r (run m h (h.dest_insert_packet pdu r.handlers) r)
                (run-IsGrowing (h.dest_insert_packet pdu r.handlers) r)
          | false ↦
              or_reset-Grows h.source_reset r (run m h (h.source_insert_packet pdu r.handlers) r)
                (run-IsGrowing (h.source_insert_packet pdu r.handlers) r)
        ]

  pub state_machines-Grows : (r : Receiver m H) → Grows m r (state_machines m h r)
  unfolding state_machines
  state_machines-Grows r =
      or_reset-Grows (λ x. h.source_reset (h.dest_reset x)) r ((dest >> source) r)
        (both-IsGrowing m dest source (λ t. run-IsGrowing (h.dest_state_machine t.handlers) t)
          (λ t. run-IsGrowing (h.source_state_machine t.handlers) t) r)
    where
      dest : Call m H
      dest t = run m h (h.dest_state_machine t.handlers) t

      source : Call m H
      source t = run m h (h.source_state_machine t.handlers) t
