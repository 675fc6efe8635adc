-- ===== src/Subsystems/Opd/Tests.antt =====
-- The theorems on the OPD at concrete inputs: one node, on a bus with a simulated chip.
use oresat_c3_software.Prelude.{ℕ, ◌≡◌, refl, List, true, false, With}
use oresat_c3_software.Drivers.Max7310.Chip.{one_chip, start, start-IsWorking}
use oresat_c3_software.Subsystems.Opd.Node.{OpdNodeState, Node, stm32}
use oresat_c3_software.Subsystems.Opd.Methods
use oresat_c3_software.Subsystems.Opd.Methods.{probe, is_enabled}
use oresat_c3_software.Subsystems.Opd.{Opd, new_opd, enable, disable}
use oresat_c3_software.Subsystems.Opd.Reach.{
  here, next, enable_call, disable_call, IsOffOrOn, fault_unreachable,
}
use oresat_c3_software.Subsystems.Opd.Power.{ChipWorks, enable_works, disable_works}

abbrev gps : Node (List ℕ)
gps = record {
  self = record {
    kind = stm32;
    addr = 0x18;
    name = "gps";
    mock = false;
    max7310 = start.self;
    status = OpdNodeState.disabled;
  };
  bus = start.bus;
}

abbrev fresh : With Opd (List ℕ)
fresh = record { self = new_opd; bus = start.bus }

fault_unreachable_example : IsOffOrOn (disable one_chip (enable one_chip fresh).1).1.self.status
fault_unreachable_example =
    fault_unreachable one_chip start.bus
      (next (next here (enable_call fresh)) (disable_call (enable one_chip fresh).1))

enable_works_example :
    let (st, w') = Methods.enable one_chip true gps in
    (st ≡ OpdNodeState.enabled)
    × (w'.self.status ≡ OpdNodeState.enabled)
    × ChipWorks one_chip (λ regs. regs) w'
    × ((is_enabled one_chip w').0 ≡ true)
enable_works_example = enable_works one_chip (λ regs. regs) true gps start-IsWorking refl

disable_works_example :
    let (st, w') = Methods.disable one_chip gps in
    (st ≡ OpdNodeState.disabled)
    × (w'.self.status ≡ OpdNodeState.disabled)
    × ChipWorks one_chip (λ regs. regs) w'
    × ((is_enabled one_chip w').0 ≡ false)
disable_works_example = disable_works one_chip (λ regs. regs) gps start-IsWorking

abbrev running : Node (List ℕ)
running = record gps { self = record gps.self { status = OpdNodeState.enabled } }
