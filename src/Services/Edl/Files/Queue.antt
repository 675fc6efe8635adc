-- ===== src/Services/Edl/Files/Queue.antt =====
-- The queue of the receiver: requests are added behind, and a loop takes at most the first.
use mathlib.Core.List.{append_assoc}
use oresat_c3_software.Prelude.{
  List, [], ◌∷◌, ◌++◌, ◌≡◌, refl, sym, ap, subst, ◌∙◌, arith, Bool, true, false, not, ◌||◌,
  Bool-cases, Result-cases, inl, inr, ◌⊎◌, Option, none, some, Result, ok, err,
}
use oresat_c3_software.Services.Edl.Files.{
  Messages, Handlers, Receiver, PutRequest, Raised, source_file_does_not_exist,
  no_remote_entity_cfg_found, index_error, attribute_error, key_error, other, missing_file_response,
}
use oresat_c3_software.Services.Edl.Files.Loop.{
  run, insert_packet, missing, requested, take_first, take_request, state_machines, drain, drained,
  loop,
}
use oresat_c3_software.Services.Edl.Files.Growing.{
  Grows, IsGrowing, same_queue, Grows-on, run-IsGrowing, insert_packet-Grows, state_machines-Grows,
}

module _ (m : Messages) {H Pdu : Type 0} (h : Handlers m H Pdu) where
  missing-IsGrowing : (request : Option (PutRequest m)) → IsGrowing m (missing m h request)
  unfolding missing
  missing-IsGrowing none r = same_queue m r r refl
  missing-IsGrowing (some request) r = elim (Result-cases (missing_file_response m request)) [
    | inl (response, made) ↦ (some response ∷ [], ground arith)
    | inr (e, not_made) ↦ same_queue m r (missing m h (some request) r).1 (ground arith)
  ]

  requested-Grows :
      (request : Option (PutRequest m)) (p : Result Raised (Unit {0}) × Receiver m H)
      → Grows m p.1 (requested m h request p).1
  requested-Grows request (ok a, r) = same_queue m r r refl
  requested-Grows request (err source_file_does_not_exist, r) = missing-IsGrowing request r
  requested-Grows request (err no_remote_entity_cfg_found, r) = missing-IsGrowing request r
  requested-Grows request (err index_error, r) = same_queue m r r refl
  requested-Grows request (err attribute_error, r) = same_queue m r r refl
  requested-Grows request (err key_error, r) = same_queue m r r refl
  requested-Grows request (err other, r) = same_queue m r r refl

  -- The first request gone, and others behind the rest.
  abbrev pub TakesFirst : Receiver m H → Receiver m H → Type 0
  TakesFirst r t =
      (request : Option (PutRequest m)) × (new : List (Option (PutRequest m)))
      × (r.scheduled_requests ++ new ≡ request ∷ t.scheduled_requests)

  abbrev pub idle : Receiver m H → Bool
  idle r = not (h.dest_busy r.handlers || h.source_busy r.handlers)

  take_first_lem :
      (requests : List (Option (PutRequest m))) (r : Receiver m H)
      → r.scheduled_requests ≡ requests
      → Grows m r (take_first m h requests r).1 ⊎ TakesFirst r (take_first m h requests r).1
  take_first_lem [] r all = inl (same_queue m r r refl)
  take_first_lem (request ∷ requests) r all =
      let t : Receiver m H = record r { scheduled_requests = requests } in
      let called = run m h (h.put_request_of request t.handlers) t in
      let (new, grown) =
        Grows-on m t called.1 (requested m h request called).1
          (run-IsGrowing m h (h.put_request_of request t.handlers) t)
          (requested-Grows request called) in
      inr (request, new, ap (λ q. q ++ new) all ∙ ap (λ q. request ∷ q) (sym grown))

  take_request_lem :
      (r : Receiver m H)
      → Grows m r (take_request m h r).1 ⊎ ((idle r ≡ true) × TakesFirst r (take_request m h r).1)
  unfolding take_request
  take_request_lem r = elim (Bool-cases (h.dest_busy r.handlers || h.source_busy r.handlers)) [
    | inl busy ↦ inl (same_queue m r (take_request m h r).1 (ground arith))
    | inr free ↦
        let step : take_request m h r ≡ take_first m h r.scheduled_requests r =
          ap
            (λ b. elim b as (λ _. Result Raised (Unit {0}) × Receiver m H) [
              | true ↦ (ok tt, r)
              | false ↦ take_first m h r.scheduled_requests r
            ])
            free in
        elim (take_first_lem r.scheduled_requests r refl) [
          | inl grown ↦ inl (
              subst (λ (p : Result Raised (Unit {0}) × Receiver m H). Grows m r p.1) (sym step)
                grown)
          | inr taken ↦ inr (
            ap not free,
            subst (λ (p : Result Raised (Unit {0}) × Receiver m H). TakesFirst r p.1) (sym step)
                taken,
          )
        ]
  ]

  abbrev ended : Result Raised (Unit {0}) × Receiver m H → Result Raised (List Pdu) × Receiver m H
  ended p = elim p.0 [
    | ok _ ↦ drained m h (drain m h (state_machines m h p.1))
    | err e ↦ (err e, p.1)
  ]

  ended-Grows : (p : Result Raised (Unit {0}) × Receiver m H) → Grows m p.1 (ended p).1
  unfolding drain
  ended-Grows (ok a, r) = state_machines-Grows m h r
  ended-Grows (err e, r) = same_queue m r r refl

  taken_on : (r t u v : Receiver m H) → Grows m r t → TakesFirst t u → Grows m u v → TakesFirst r v
  taken_on r t u v (early, h) (request, new, k) (late, l) = (
    request,
    early ++ (new ++ late),
    sym (append_assoc r.scheduled_requests early (new ++ late))
        ∙ (ap (λ q. q ++ (new ++ late)) (sym h)
            ∙ (sym (append_assoc t.scheduled_requests new late)
                ∙ (ap (λ q. q ++ late) k ∙ ap (λ q. request ∷ q) (sym l)))),
  )

  -- Whatever the handlers do, and also where a loop raises, no request gets lost or out of order:
  -- behind what was queued there are new requests, and at most the first one is gone, where both
  -- handlers were idle once the packet was in.
  pub loop_queue :
      (pdu : Option Pdu) (r : Receiver m H)
      → Grows m r (loop m h pdu r).1
        ⊎ ((idle (insert_packet m h pdu r) ≡ true) × TakesFirst r (loop m h pdu r).1)
  unfolding loop
  loop_queue pdu r = elim (take_request_lem t) [
    | inl grown ↦
        inl
          (Grows-on m r t (loop m h pdu r).1 before (Grows-on m t u (loop m h pdu r).1 grown later))
    | inr (free, taken) ↦ inr (free, taken_on r t u (loop m h pdu r).1 before taken later)
  ]
    where
      t : Receiver m H
      t = insert_packet m h pdu r

      u : Receiver m H
      u = (take_request m h t).1

      before : Grows m r t
      before = insert_packet-Grows m h pdu r

      later : Grows m u (loop m h pdu r).1
      later = ended-Grows (take_request m h t)
