-- ===== src/Services/NodeManager/Tests.antt =====
-- The theorems on the node manager at concrete inputs.
use oresat_c3_software.Prelude.{
  some, ok, err, lookup, ◌⊎◌, ◌≢◌, ℕ, ◌*◌, eq_iff, ◌≡◌, refl, arith, List, [], ◌∷◌, true, false,
  none, With,
}
use oresat_c3_software.Drivers.Max7310.Chip.{one_chip, start}
use oresat_c3_software.Subsystems.Opd.Node.{OpdNode, stm32}
use oresat_c3_software.Subsystems.Opd.Node
use oresat_c3_software.Subsystems.Opd.{Opd, OpdState, OpdError}
use oresat_c3_software.Services.NodeManager.{
  off, not_found, Card, no_processor, stm32_processor, Readings, second,
}
use oresat_c3_software.Services.NodeManager.Callbacks.{
  set_opd_status, AllLost, set_opd_status_zero, node_status, by_addr,
}
use oresat_c3_software.Subsystems.Opd.Status.{SamePower}
use oresat_c3_software.Services.NodeManager.Loop.{
  Cards, NodeManager, has_card, no_counts, for_cards, update_status, on_loop,
}
use oresat_c3_software.Services.NodeManager.Counts.{IsTally, on_loop-IsTally}
use oresat_c3_software.Services.NodeManager.Resets.{IsBounded, AllCards, on_loop_resets}

abbrev c3 : Card
c3 = record {
  node_id = 1;
  processor = no_processor;
  opd_address = 0;
  opd_always_on = false;
  child = none;
  opd_resets = 0;
  last_enable = 0;
  status = not_found;
}

abbrev gps : Card
gps = record {
  node_id = 0x34;
  processor = stm32_processor;
  opd_address = 0x18;
  opd_always_on = true;
  child = none;
  opd_resets = 2;
  last_enable = 0;
  status = off;
}

abbrev two_cards : Cards
two_cards = ("c3", c3) ∷ ("gps", gps) ∷ []

abbrev manager : NodeManager
manager = record { cards = two_cards; loops = 0; counts = no_counts }

abbrev quiet : Readings
quiet = record {
  last_hb = λ name. 0;
  flight_mode = true;
  network_up = true;
  mono = λ name place. 100 * second;
}

abbrev opd : With Opd (List ℕ)
opd = record {
  self = record {
    not_enable_pin = false;
    nodes =
        (
          "gps",
          record {
            kind = stm32;
            addr = 0x18;
            name = "gps";
            mock = false;
            max7310 = start.self;
            status = Node.OpdNodeState.enabled;
          },
        )
        ∷ [];
    status = OpdState.enabled;
    uart_node = none;
    resets = 0;
  };
  bus = start.bus;
}

two_cards-IsBounded : AllCards IsBounded two_cards
two_cards-IsBounded = (
  record { capped = omega arith; c3_off_opd = λ e. refl },
  (
    record { capped = omega arith; c3_off_opd = λ e. absurd (ground (arith, eq_iff "gps" "c3")) },
    tt,
  ),
)

on_loop_resets_example : AllCards IsBounded (on_loop one_chip quiet manager opd).0.1.cards
on_loop_resets_example = on_loop_resets one_chip quiet manager opd two_cards-IsBounded

two_cards_c3 : has_card two_cards "c3" ≡ true
unfolding has_card
two_cards_c3 = refl

on_loop-IsTally_example :
    let ((first, cards), s1) =
      for_cards one_chip (update_status one_chip quiet) manager.cards opd in
    let ((res, m'), s') = on_loop one_chip quiet manager opd in
    ((e : OpdError) × (first ≡ err e) × (res ≡ err e) × (m'.counts ≡ manager.counts))
    ⊎ ((first ≡ ok tt) × IsTally cards m'.counts)
on_loop-IsTally_example = on_loop-IsTally one_chip quiet manager opd

set_opd_status_zero_example :
    let ((r, cards'), s') = set_opd_status one_chip (λ name. 7) 0 two_cards opd in
    ((r ≡ ok tt)
      × (s'.self.status ≡ OpdState.disabled)
      × (s'.self.not_enable_pin ≡ true)
      × (s'.self.uart_node ≡ none)
      × AllLost two_cards cards')
    ⊎ ((e : OpdError) × (r ≡ err e)
        × (cards' ≡ two_cards)
        × SamePower opd s'
        × (opd.self.uart_node ≢ none))
set_opd_status_zero_example = set_opd_status_zero one_chip (λ name. 7) two_cards opd

status_by_addr : node_status (λ addr. some "gps") two_cards (by_addr 0x18) ≡ ok off
unfolding node_status lookup
status_by_addr = refl
