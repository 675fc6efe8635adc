-- ===== src/Services/Edl/Files/Proxied.antt =====
-- What becomes of proxied requests: their responses, and the requests that break the loop.
use oresat_c3_software.Prelude.{
  ℕ, List, [], ◌∷◌, ◌++◌, ◌≡◌, refl, ap, arith, Bool, true, not, ◌||◌, Bool-cases, Result-cases,
  inl, inr, Option, none, some, Result, ok, err,
}
use oresat_c3_software.Services.Edl.Files.{
  Messages, Reserved, Handlers, Receiver, raises, PutRequest, Raised, other, transaction_indication,
  transaction_finished_indication, get, put, del, proxy_request_complete, operation, proxied,
  msg_to_user,
}
use oresat_c3_software.Services.Edl.Files.Loop.{
  metadata_recv_indication, insert_packet, run, take_first, requested, take_request, drain, answer,
  loop,
}

module _ (m : Messages) where
  -- `same` is the equality of the ids.
  pub record IsEquality : Type 0 where
    pub self : (t : m.TransactionId) → m.same t t ≡ true
    pub sound : (t u : m.TransactionId) → m.same t u ≡ true → t ≡ u

  get-put :
      (t orig : m.TransactionId) (active : List (m.TransactionId × m.TransactionId))
      → IsEquality
      → get m t (put m t orig active) ≡ some orig
  unfolding get put
  get-put t orig [] e = ground (arith, e.self t)
  get-put t orig (entry ∷ active) e = elim (Bool-cases (m.same entry.0 t)) [
    | inl here ↦ ground arith
    | inr there ↦ ground (arith, get-put t orig active e)
  ]

  del-put :
      (t orig : m.TransactionId) (active : List (m.TransactionId × m.TransactionId))
      → IsEquality
      → get m t active ≡ none
      → del m t (put m t orig active) ≡ active
  unfolding get put del
  del-put t orig [] e gone = ground (arith, e.self t)
  del-put t orig (entry ∷ active) e gone = elim (Bool-cases (m.same entry.0 t)) [
    | inl here ↦ ground arith
    | inr there ↦ ground (arith, del-put t orig active e)
  ]

  -- A transaction that was begun for another one, once it is finished, is answered to where that
  -- came from, and the dict is as before.
  pub proxied_lem :
      {H : Type 0} (r : Receiver m H) (t_id orig : m.TransactionId) (params : m.Finished)
      → IsEquality
      → get m t_id r.active_requests ≡ none
      → transaction_finished_indication m t_id params
          (transaction_indication m t_id (some orig) r).1
        ≡ (
          ok tt,
          record r {
            scheduled_requests =
                r.scheduled_requests ++ some (proxy_request_complete m orig params) ∷ [];
          },
        )
  unfolding transaction_finished_indication transaction_indication
  proxied_lem r t_id orig params e gone =
      ground
        (arith, get-put t_id orig r.active_requests e, del-put t_id orig r.active_requests e gone)

module _ (m : Messages) {H Pdu : Type 0} (h : Handlers m H Pdu) where
  abbrev pub is_idle : Receiver m H → Bool
  is_idle r = not (h.dest_busy r.handlers || h.source_busy r.handlers)

  -- The first request of the queue, handed to the source and raising.
  abbrev pub FirstRaises : Receiver m H → Type 0
  FirstRaises t =
      (request : Option (PutRequest m)) × (requests : List (Option (PutRequest m))) × (e : Raised)
      × (t.scheduled_requests ≡ request ∷ requests)
      × ((run m h (h.put_request_of request t.handlers)
            (record t { scheduled_requests = requests })).0
          ≡ err e)

  requested_raises :
      (request : Option (PutRequest m)) (p : Result Raised (Unit {0}) × Receiver m H) (e : Raised)
      → (requested m h request p).0 ≡ err e
      → (e' : Raised) × (p.0 ≡ err e')
  requested_raises request (ok a, r) e raised = absurd (ground arith)
  requested_raises request (err e', r) e raised = (e', refl)

  take_first_raises :
      (requests : List (Option (PutRequest m))) (t : Receiver m H) (e : Raised)
      → t.scheduled_requests ≡ requests
      → (take_first m h requests t).0 ≡ err e
      → FirstRaises t
  take_first_raises [] t e all raised = absurd (ground arith)
  take_first_raises (request ∷ requests) t e all raised =
      let (e', failed) =
        requested_raises request
          (run m h (h.put_request_of request t.handlers)
            (record t { scheduled_requests = requests }))
          e raised in
      (request, requests, e', all, failed)

  -- An exception gets out of the loop only where the source raised one for the first request.
  pub loop_raises :
      (pdu : Option Pdu) (r : Receiver m H) (e : Raised)
      → (loop m h pdu r).0 ≡ err e
      → (is_idle (insert_packet m h pdu r) ≡ true) × FirstRaises (insert_packet m h pdu r)
  unfolding loop take_request drain
  loop_raises pdu r e raised =
      elim (Bool-cases (h.dest_busy t.handlers || h.source_busy t.handlers)) [
        | inl busy ↦ absurd (ground arith)
        | inr free ↦ elim (Result-cases (take_first m h t.scheduled_requests t).0) [
          | inl (a, fine) ↦ absurd (ground arith)
          | inr (e', failed) ↦
              (ap not free, take_first_raises t.scheduled_requests t e' refl failed)
        ]
      ]
    where
      t : Receiver m H
      t = insert_packet m h pdu r

  -- A reserved message of a kind that is not implemented puts no request in the queue but `None`.
  -- Where the source does not take that, the next loop raises.
  pub poisoned_lem :
      (r : Receiver m H) (source : ℕ) (t_id : m.TransactionId) (message : Reserved m) (x : H)
      → operation m message ≡ proxied msg_to_user
      → is_idle r ≡ true
      → r.scheduled_requests ≡ []
      → h.put_request_of none r.handlers ≡ raises other x
      → (loop m h none (metadata_recv_indication m h source t_id (some message ∷ []) r).1).0
        ≡ err other
  unfolding loop take_request insert_packet metadata_recv_indication answer run
  poisoned_lem r source t_id message x kind free empty refused = ground arith
