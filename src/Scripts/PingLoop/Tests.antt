-- ===== src/Scripts/PingLoop/Tests.antt =====
-- Three pings, of which the first is lost.
use oresat_c3_software.Prelude.{List, [], ◌∷◌, ◌≡◌, refl, true, false}
use oresat_c3_software.Protocols.Struct.{int}
use oresat_c3_software.Protocols.EdlPacket.Plain.{packages}
use oresat_c3_software.Scripts.PingLoop.{
  Link, link_at, invalid, lost, received, handle, is_sent, pop_until,
}
use oresat_c3_software.Scripts.PingLoop.Accounting.{
  Tracks, Event, sends, gets, lost_total, link_run,
}
use oresat_c3_software.Scripts.PingLoop.Order.{link_run-Tracks}

abbrev pings : List Event
pings = sends 1 false 10 ∷ sends 2 false 20 ∷ sends 3 true 30 ∷ gets (1 ∷ []) 31 ∷ []

link_run-Tracks_example :
    Tracks
      (link_run packages [] pings (link_at 5)).1
      (lost_total (link_run packages [] pings (link_at 5)).0)
link_run-Tracks_example = link_run-Tracks packages [] 5 pings

abbrev two_sent : Link
two_sent = record {
  sent = 2;
  echo = 0;
  sequence_number = 7;
  last = 2;
  sent_times = (1, 10) ∷ (2, 20) ∷ [];
}

-- The response to the second ping tells that the first is lost; a response to that is invalid.
one_lost : (handle (int 2) 25 two_sent).0 ≡ lost 1 ∷ received 5 ∷ []
unfolding handle is_sent pop_until
one_lost = refl

too_late : (handle (int 1) 30 (handle (int 2) 25 two_sent).1).0 ≡ invalid (int 1) ∷ []
unfolding handle is_sent pop_until
too_late = refl
