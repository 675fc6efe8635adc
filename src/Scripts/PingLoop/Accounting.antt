-- ===== src/Scripts/PingLoop/Accounting.antt =====
-- Every ping is answered, counted as lost, or still waited for.
use oresat_c3_software.Prelude.{
  ℕ, zero, suc, ◌+◌, ◌-◌, ◌%◌, ◌≤◌, ◌<◌, ◌==◌, ltb, ltb→lt, List, [], ◌∷◌, ◌++◌, ◌≡◌, refl, subst,
  arith, Bool, true, false, Bool-cases, Result-cases, Option-cases, inl, inr, length, Result, ok,
  err,
}
use oresat_c3_software.Protocols.Struct.{Value}
use oresat_c3_software.Protocols.EdlPacket
use oresat_c3_software.Protocols.EdlPacket.{Packages, PacketError}
use oresat_c3_software.Scripts.PingLoop.{
  Link, LinkResult, invalid, lost, received, LinkError, value_error, is_sent, set_time, pop_until,
  key_of, handle_key, handle, send, recv, popped, and_lost, payload_value, ping_packet, uplinked,
}

-- The keys grow from above one number up to another.
abbrev pub Ascending : ℕ → List (ℕ × ℕ) → ℕ → Type 0
Ascending low [] high = low ≤ high
Ascending low (entry ∷ rest) high = (low < entry.0) × Ascending entry.0 rest high

reach : (low high : ℕ) (entries : List (ℕ × ℕ)) → Ascending low entries high → low ≤ high
reach low high [] a = a
reach low high (entry ∷ entries) a = omega (arith, a.0, reach entry.0 high entries a.1)

higher :
    (low high high' : ℕ) (entries : List (ℕ × ℕ))
    → high ≤ high'
    → Ascending low entries high
    → Ascending low entries high'
higher low high high' [] h a = omega (arith, a)
higher low high high' (entry ∷ entries) h a = (a.0, higher entry.0 high high' entries h a.1)

pub lower :
    (low low' high : ℕ) (entries : List (ℕ × ℕ))
    → low ≤ low'
    → Ascending low' entries high
    → Ascending low entries high
lower low low' high [] h a = omega (arith, a)
lower low low' high (entry ∷ entries) h a = (omega (arith, a.0), a.1)

set_time-Ascending :
    (low value now high : ℕ) (entries : List (ℕ × ℕ))
    → Ascending low entries high
    → high < value
    → Ascending low (set_time value now entries) value
      × (length (set_time value now entries) ≡ length entries + 1)
unfolding set_time
set_time-Ascending low value now high [] a h = ground arith
set_time-Ascending low value now high (entry ∷ entries) a h =
    ground (
      arith,
      set_time-Ascending entry.0 value now high entries a.1 h,
      reach entry.0 high entries a.1,
    )

-- The pings that are popped.
pop_until-length :
    (payload : ℕ) (entries : List (ℕ × ℕ)) (count t_sent : ℕ)
    → is_sent payload entries ≡ true
    → (pop_until payload entries count t_sent).0
        + 1
        + length (pop_until payload entries count t_sent).2
      ≡ count + length entries
unfolding is_sent pop_until
pop_until-length payload [] count t_sent h = absurd (ground arith)
pop_until-length payload (entry ∷ entries) count t_sent h = elim (Bool-cases (entry.0 == payload)) [
  | inl here ↦ ground arith
  | inr there ↦ ground (arith, pop_until-length payload entries (count + 1) entry.1)
]

-- What is left has greater keys than what was popped.
pub pop_until-Ascending :
    (payload low high : ℕ) (entries : List (ℕ × ℕ)) (count t_sent : ℕ)
    → Ascending low entries high
    → is_sent payload entries ≡ true
    → (low < payload) × Ascending payload (pop_until payload entries count t_sent).2 high
unfolding is_sent pop_until
pop_until-Ascending payload low high [] count t_sent a h = absurd (ground arith)
pop_until-Ascending payload low high (entry ∷ entries) count t_sent a h =
    elim (Bool-cases (entry.0 == payload)) [
      | inl here ↦ ground arith
      | inr there ↦
          ground (arith, pop_until-Ascending payload entry.0 high entries (count + 1) entry.1 a.1)
    ]

abbrev pub lost_total : List LinkResult → ℕ
lost_total [] = 0
lost_total (invalid payload ∷ results) = lost_total results
lost_total (lost count ∷ results) = count + lost_total results
lost_total (received delay ∷ results) = lost_total results

-- The link has kept account of its pings, of which so many were reported lost.
pub record Tracks (link : Link) (gone : ℕ) : Type 0 where
  pub balance : link.sent ≡ link.echo + gone + length link.sent_times
  pub sorted : Ascending 0 link.sent_times link.last

abbrev pub results_of : Result LinkError (List LinkResult) → List LinkResult
results_of (ok results) = results
results_of (err e) = []

-- What a call yields and leaves, added to the pings lost before.
abbrev pub KeepsAccount : ℕ → List LinkResult × Link → Type 0
KeepsAccount gone out = Tracks out.1 (gone + lost_total out.0)

lost_total-and_lost : (n delay : ℕ) → lost_total (and_lost n (received delay ∷ [])) ≡ n
lost_total-and_lost zero delay = refl
lost_total-and_lost (suc n) delay = omega arith

handle_key-KeepsAccount :
    (key : ℕ) (payload : Value) (t_recv : ℕ) (link : Link) (gone : ℕ)
    → Tracks link gone
    → KeepsAccount gone (handle_key key payload t_recv link)
handle_key-KeepsAccount key payload t_recv link gone k =
    elim (Bool-cases (is_sent key link.sent_times)) [
      | inr unknown ↦
          subst (KeepsAccount gone)
            (let h : (invalid payload ∷ [], link) ≡ handle_key key payload t_recv link =
                ground arith in
              h)
            (record { balance = omega (arith, k.balance); sorted = k.sorted })
      | inl known ↦
          subst (KeepsAccount gone)
            (let h : popped t_recv found link ≡ handle_key key payload t_recv link = ground arith in
              h)
            (record {
              balance = omega (
                arith,
                k.balance,
                pop_until-length key link.sent_times 0 0 known,
                lost_total-and_lost found.0 (t_recv - found.1),
              );
              sorted =
                  let (above, rest) =
                    pop_until-Ascending key 0 link.last link.sent_times 0 0 k.sorted known in
                  lower 0 key link.last found.2 (omega arith) rest;
            })
    ]
  where
    found : ℕ × ℕ × List (ℕ × ℕ)
    found = pop_until key link.sent_times 0 0

handle-KeepsAccount :
    (payload : Value) (t_recv : ℕ) (link : Link) (gone : ℕ)
    → Tracks link gone
    → KeepsAccount gone (handle payload t_recv link)
unfolding handle
handle-KeepsAccount payload t_recv link gone k = elim (Option-cases (key_of payload)) [
  | inl none_of ↦
      subst (KeepsAccount gone)
        (let h : (invalid payload ∷ [], link) ≡ handle payload t_recv link = ground arith in h)
        (record { balance = omega (arith, k.balance); sorted = k.sorted })
  | inr (key, is_key) ↦
      subst (KeepsAccount gone)
        (let h : handle_key key payload t_recv link ≡ handle payload t_recv link = ground arith in
          h)
        (handle_key-KeepsAccount key payload t_recv link gone k)
]

-- What happens to the link: a ping is sent, or a response comes.
pub data Event : Type 0 where
  sends : (value : ℕ) (refused : Bool) (now : ℕ) → Event
  gets : (raw : List ℕ) (t_recv : ℕ) → Event

module _ {Pdu : Type 0} (pkg : Packages Pdu) (key : List ℕ) where
  abbrev pub link_step : Event → Link → List LinkResult × Link
  link_step (sends value refused now) link = ([], (send pkg key value refused now link).1)
  link_step (gets raw t_recv) link =
      let out = recv pkg key raw t_recv link in (results_of out.0, out.1)

  abbrev pub link_run : List Event → Link → List LinkResult × Link
  link_run [] link = ([], link)
  link_run (event ∷ events) link =
      let once = link_step event link in
      let rest = link_run events once.1 in (once.0 ++ rest.0, rest.1)

  uplinked-Tracks :
      (message : Result PacketError (List ℕ)) (refused : Bool) (value sequence_number now : ℕ)
      (link : Link) (gone : ℕ)
      → Tracks link gone
      → link.last < value
      → Tracks
          (uplinked pkg key message refused value now
            (record link { last = value; sequence_number = sequence_number })).1
          gone
  uplinked-Tracks (err e) refused value sequence_number now link gone k h = record {
    balance = k.balance;
    sorted = higher 0 link.last value link.sent_times (omega arith) k.sorted;
  }
  uplinked-Tracks (ok message) true value sequence_number now link gone k h = record {
    balance = k.balance;
    sorted = higher 0 link.last value link.sent_times (omega arith) k.sorted;
  }
  uplinked-Tracks (ok message) false value sequence_number now link gone k h =
      let (rising, longer) = set_time-Ascending 0 value now link.last link.sent_times k.sorted h in
      record { balance = omega (arith, k.balance, longer); sorted = rising }

  pub send-Tracks :
      (value : ℕ) (refused : Bool) (now : ℕ) (link : Link) (gone : ℕ)
      → Tracks link gone
      → Tracks (send pkg key value refused now link).1 gone
  unfolding send
  send-Tracks value refused now link gone k = elim (Bool-cases (ltb link.last value)) [
    | inr late ↦
        subst (λ (out : Result LinkError (List ℕ) × Link). Tracks out.1 gone)
          (let h : (err value_error, link) ≡ send pkg key value refused now link = ground arith in
            h)
          k
    | inl rising ↦
        let number : ℕ = (link.sequence_number + 1) % 4294967296 in
        let message : Result PacketError (List ℕ) =
          EdlPacket.pack pkg key (ping_packet pkg key value number) in
        subst (λ (out : Result LinkError (List ℕ) × Link). Tracks out.1 gone)
          (let h : uplinked pkg key message refused value now
                  (record link { last = value; sequence_number = number })
                ≡ send pkg key value refused now link =
              ground arith in
            h)
          (uplinked-Tracks message refused value number now link gone k
            (ltb→lt link.last value rising))
  ]

  pub recv-KeepsAccount :
      (raw : List ℕ) (t_recv : ℕ) (link : Link) (gone : ℕ)
      → Tracks link gone
      → KeepsAccount gone (link_step (gets raw t_recv) link)
  unfolding recv
  recv-KeepsAccount raw t_recv link gone k =
      elim (Result-cases (payload_value pkg key (EdlPacket.unpack pkg raw key false))) [
        | inl (payload, read) ↦
            subst (KeepsAccount gone)
              (let h : handle payload t_recv link ≡ link_step (gets raw t_recv) link =
                  ground arith in
                h)
              (handle-KeepsAccount payload t_recv link gone k)
        | inr (e, unread) ↦
            subst (KeepsAccount gone)
              (let h : ([], link) ≡ link_step (gets raw t_recv) link = ground arith in h)
              (record { balance = omega (arith, k.balance); sorted = k.sorted })
      ]
