-- ===== src/Scripts/PingLoop/Rounds.antt =====
-- The rounds of the loop keep account of the pings, and the timeouts of a round shrink.
use oresat_c3_software.Prelude.{
  ℕ, ◌+◌, ◌-◌, ◌*◌, ◌≤◌, ◌<◌, ltb, List, [], ◌∷◌, arith, Bool-cases, inl, inr, Result, ok, err,
}
use oresat_c3_software.Protocols.EdlPacket.{Packages}
use oresat_c3_software.Scripts.PingLoop.{
  Link, LinkError, value_error, connection_refused, no_values, packet_error, send, recv, Round,
  recv_all, sent_or, received_or, ping_loop, Timeout, next,
}
use oresat_c3_software.Scripts.PingLoop.Accounting.{
  lost_total, results_of, Tracks, send-Tracks, recv-KeepsAccount,
}

module _ {Pdu : Type 0} (pkg : Packages Pdu) (key : List ℕ) where
  -- The link keeps account, whatever it has given up.
  abbrev pub IsAccounted : Link → Type 0
  IsAccounted link = (gone : ℕ) × Tracks link gone

  recv-IsAccounted :
      (raw : List ℕ) (t_recv : ℕ) (link : Link)
      → IsAccounted link
      → IsAccounted (recv pkg key raw t_recv link).1
  recv-IsAccounted raw t_recv link (gone, k) = (
    gone + lost_total (results_of (recv pkg key raw t_recv link).0),
    recv-KeepsAccount pkg key raw t_recv link gone k,
  )

  recv_all-IsAccounted :
      (responses : List (List ℕ × ℕ)) (link : Link)
      → IsAccounted link
      → IsAccounted (recv_all pkg key responses link).1
  unfolding recv_all
  recv_all-IsAccounted [] link k = k
  recv_all-IsAccounted ((raw, t_recv) ∷ responses) link k =
      elim (recv pkg key raw t_recv link).0
        as (λ (r : Result LinkError _).
          IsAccounted
            (elim r as (λ _. Result LinkError (Unit {0}) × Link) [
              | ok _ ↦ recv_all pkg key responses (recv pkg key raw t_recv link).1
              | err e ↦ (err e, (recv pkg key raw t_recv link).1)
            ]).1) [
              | ok _ ↦
                  recv_all-IsAccounted responses (recv pkg key raw t_recv link).1
                    (recv-IsAccounted raw t_recv link k)
              | err e ↦ recv-IsAccounted raw t_recv link k
            ]

  sent_or-IsAccounted :
      (message : Result LinkError (List ℕ)) (t : Link)
      (skipped rest : Result LinkError (Unit {0}) × Link)
      → IsAccounted t
      → IsAccounted skipped.1
      → IsAccounted rest.1
      → IsAccounted (sent_or pkg key message t skipped rest).1
  sent_or-IsAccounted (ok message) t skipped rest k l m = m
  sent_or-IsAccounted (err connection_refused) t skipped rest k l m = l
  sent_or-IsAccounted (err value_error) t skipped rest k l m = k
  sent_or-IsAccounted (err no_values) t skipped rest k l m = k
  sent_or-IsAccounted (err (packet_error e)) t skipped rest k l m = k

  received_or-IsAccounted :
      (u rest : Result LinkError (Unit {0}) × Link)
      → IsAccounted u.1
      → IsAccounted rest.1
      → IsAccounted (received_or pkg key u rest).1
  received_or-IsAccounted (ok _, u) rest k l = l
  received_or-IsAccounted (err e, u) rest k l = k

  -- The rounds, refused sends and exceptions included, keep account of the pings.
  pub ping_loop-IsAccounted :
      (rounds : List Round) (loop : ℕ) (link : Link)
      → IsAccounted link
      → IsAccounted (ping_loop pkg key rounds loop link).1
  unfolding ping_loop
  ping_loop-IsAccounted [] loop link k = k
  ping_loop-IsAccounted (round ∷ rounds) loop link (gone, k) =
      sent_or-IsAccounted out.0 out.1 (ping_loop pkg key rounds (loop + 1) out.1)
        (received_or pkg key u (ping_loop pkg key rounds (loop + 1) u.1)) sent_well
        (ping_loop-IsAccounted rounds (loop + 1) out.1 sent_well)
        (received_or-IsAccounted u (ping_loop pkg key rounds (loop + 1) u.1) received_well
          (ping_loop-IsAccounted rounds (loop + 1) u.1 received_well))
    where
      out : Result LinkError (List ℕ) × Link
      out = send pkg key (loop + 1) round.refused round.now link

      u : Result LinkError (Unit {0}) × Link
      u = recv_all pkg key round.responses out.1

      sent_well : IsAccounted out.1
      sent_well = (gone, send-Tracks pkg key (loop + 1) round.refused round.now link gone k)

      received_well : IsAccounted u.1
      received_well = recv_all-IsAccounted round.responses out.1 sent_well

-- The readings of a clock that does not go back.
abbrev pub IsMonotonic : ℕ → List ℕ → Type 0
IsMonotonic low [] = Unit
IsMonotonic low (now ∷ readings) = (low ≤ now) × IsMonotonic now readings

-- Timeouts that do not grow, of which none is 0.
abbrev pub IsShrinking : ℕ → List ℕ → Type 0
IsShrinking high [] = Unit
IsShrinking high (t ∷ timeouts) = (0 < t) × (t ≤ high) × IsShrinking t timeouts

-- With a monotonic clock the timeouts of a loop are positive and do not grow.
pub next-IsShrinking :
    (timeout : Timeout) (loop low : ℕ) (readings : List ℕ)
    → IsMonotonic low readings
    → IsShrinking (timeout.delay * loop + timeout.start - low) (next timeout loop readings)
unfolding next
next-IsShrinking timeout loop low [] mono = tt
next-IsShrinking timeout loop low (now ∷ readings) mono =
    elim (Bool-cases (ltb now (timeout.delay * loop + timeout.start))) [
      | inl early ↦ ground (arith, mono.0, next-IsShrinking timeout loop now readings mono.1)
      | inr late ↦ ground (arith, late)
    ]
