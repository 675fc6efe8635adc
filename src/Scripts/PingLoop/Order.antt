-- ===== src/Scripts/PingLoop/Order.antt =====
-- A run of the link keeps account of every ping, and counts none twice.
use native.Mathlib.Nat.{div-lt_iff_lt-mul}
use oresat_c3_software.Prelude.{
  ℕ, ◌+◌, ◌*◌, ◌≤◌, ◌<◌, List, [], ◌∷◌, ◌++◌, ◌≡◌, refl, subst, arith, true, false, some,
}
use oresat_c3_software.Protocols.Struct.{Value}
use oresat_c3_software.Protocols.EdlPacket.{Packages}
use oresat_c3_software.Scripts.PingLoop.{
  Link, link_at, LinkResult, invalid, lost, received, is_sent, pop_until, key_of, handle, send,
  rate,
}
use oresat_c3_software.Scripts.PingLoop.Accounting.{
  Ascending, lower, pop_until-Ascending, lost_total, Tracks, KeepsAccount, Event, sends, gets,
  link_step, link_run, send-Tracks, recv-KeepsAccount,
}

lost_total-append :
    (xs ys : List LinkResult) → lost_total (xs ++ ys) ≡ lost_total xs + lost_total ys
lost_total-append [] ys = omega arith
lost_total-append (invalid payload ∷ xs) ys = lost_total-append xs ys
lost_total-append (lost count ∷ xs) ys = omega (arith, lost_total-append xs ys)
lost_total-append (received delay ∷ xs) ys = lost_total-append xs ys

module _ {Pdu : Type 0} (pkg : Packages Pdu) (key : List ℕ) where
  link_run_from :
      (events : List Event) (link : Link) (gone : ℕ)
      → Tracks link gone
      → KeepsAccount gone (link_run pkg key events link)
  link_run_from [] link gone k = record { balance = omega (arith, k.balance); sorted = k.sorted }
  link_run_from (sends value refused now ∷ events) link gone k =
      link_run_from events (send pkg key value refused now link).1 gone
        (send-Tracks pkg key value refused now link gone k)
  link_run_from (gets raw t_recv ∷ events) link gone k =
      let once = link_step pkg key (gets raw t_recv) link in
      let rest =
        link_run_from events once.1 (gone + lost_total once.0)
          (recv-KeepsAccount pkg key raw t_recv link gone k) in
      subst (Tracks (link_run pkg key events once.1).1)
        (let h : gone + lost_total once.0 + lost_total (link_run pkg key events once.1).0
              ≡ gone + lost_total (once.0 ++ (link_run pkg key events once.1).0) =
            omega (arith, lost_total-append once.0 (link_run pkg key events once.1).0) in
          h)
        rest

  -- Over any run of a new link, the pings sent are as many as those answered, those reported lost
  -- and those that it waits for, which are in the order of their values.
  pub link_run-Tracks :
      (sequence_number : ℕ) (events : List Event)
      → Tracks
          (link_run pkg key events (link_at sequence_number)).1
          (lost_total (link_run pkg key events (link_at sequence_number)).0)
  link_run-Tracks sequence_number events =
      subst (Tracks (link_run pkg key events (link_at sequence_number)).1)
        (let h : 0 + lost_total (link_run pkg key events (link_at sequence_number)).0
              ≡ lost_total (link_run pkg key events (link_at sequence_number)).0 =
            omega arith in
          h)
        (link_run_from events (link_at sequence_number) 0
          (record { balance = omega arith; sorted = omega arith }))

  -- The rate of a link that has sent a ping is a percentage.
  pub rate_bound :
      (sequence_number : ℕ) (events : List Event)
      → 0 < (link_run pkg key events (link_at sequence_number)).1.sent
      → rate (link_run pkg key events (link_at sequence_number)).1 ≤ 100
  rate_bound sequence_number events some_sent =
      let link = (link_run pkg key events (link_at sequence_number)).1 in
      let small : 100 * link.echo < 101 * link.sent =
        omega (arith, (link_run-Tracks sequence_number events).balance, some_sent) in
      omega (arith, (div-lt_iff_lt-mul {x = 100 * link.echo} {y = 101} some_sent).1 small)

is_sent_below :
    (key high : ℕ) (entries : List (ℕ × ℕ))
    → Ascending key entries high
    → is_sent key entries ≡ false
unfolding is_sent
is_sent_below key high [] a = refl
is_sent_below key high (entry ∷ entries) a = ground (
  arith,
  a.0,
  is_sent_below key high entries (lower key entry.0 high entries (omega (arith, a.0)) a.1),
)

-- The second response to a ping is invalid, and so is a late one to a ping before it.
pub handle_twice :
    (link : Link) (gone key older t_recv t_again : ℕ) (payload again : Value)
    → Tracks link gone
    → key_of payload ≡ some key
    → is_sent key link.sent_times ≡ true
    → key_of again ≡ some older
    → older ≤ key
    → handle again t_again (handle payload t_recv link).1
      ≡ (invalid again ∷ [], (handle payload t_recv link).1)
unfolding handle
handle_twice link gone key older t_recv t_again payload again k is_key known is_older below =
    ground (
      arith,
      is_key,
      is_older,
      known,
      is_sent_below older link.last (pop_until key link.sent_times 0 0).2 (
          lower older key link.last (pop_until key link.sent_times 0 0).2 below
            (pop_until-Ascending key 0 link.last link.sent_times 0 0 k.sorted known).1),
    )
