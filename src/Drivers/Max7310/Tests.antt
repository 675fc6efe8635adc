-- ===== src/Drivers/Max7310/Tests.antt =====
-- The driver's theorems at concrete inputs.
use oresat_c3_software.Prelude.{
  ℕ, ◌≡◌, ◌<◌, refl, arith, [], ◌∷◌, false, ◌||◌, ◌==◌, get_or, ok, err, bit_at,
}
use oresat_c3_software.Drivers.Max7310.Chip.{one_chip, start, start-IsWorking}
use oresat_c3_software.Drivers.Max7310.{
  bad_addr, output_set, output_status, new_max7310, i2c_read_reg, i2c_write_reg, valid_pin,
}
use oresat_c3_software.Drivers.Max7310.Pins.{IsWorking, registers, output_status-output_set}

output_status-output_set_example :
    let (r, s') = output_set one_chip 3 start in
    (r ≡ ok tt)
    × IsWorking one_chip (λ regs. regs) s'
    × ((output_status one_chip 5 s').0 ≡ ok (3 == 5 || bit_at 0x21 5))
    × ((i : ℕ)
        → 1 < i
        → get_or (registers one_chip (λ regs. regs) s') i 0
          ≡ get_or (registers one_chip (λ regs. regs) start) i 0)
output_status-output_set_example =
    output_status-output_set one_chip (λ regs. regs) start 3 5 start-IsWorking (omega arith)
      (omega arith)

low_addr : new_max7310 2 7 false ≡ err bad_addr
unfolding new_max7310
low_addr = refl

set_three : (output_set one_chip 3 start).1.bus ≡ 0x00 ∷ 0x29 ∷ 0xF0 ∷ 0xFF ∷ 0x01 ∷ []
unfolding output_set valid_pin i2c_read_reg i2c_write_reg
set_three = refl
