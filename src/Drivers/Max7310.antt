-- ===== src/Drivers/Max7310.antt =====
-- oresat_c3/drivers/max7310.py: the driver of the MAX7310 GPIO expander. A method acts on the
-- driver object and the bus. Register values and pin numbers are Python ints that the program
-- only ever makes from naturals, so the guards against negative numbers have no counterpart.

pub mod Pins
pub mod Chip
mod Tests
use oresat_c3_software.Prelude.{
  ℕ, bit_or, bit_mask, bit_and_not, bit_at, ltb, List, [], ◌∷◌, Bool, true, false, not, ◌||◌,
  Option, none, some, if◌then◌else◌, get_or, set, Result, ok, err, Exec, With, pure, gets, raise_if,
  ◌>>=◌, ◌>>◌,
}
use oresat_c3_software.Drivers.I2c.{I2c}

pub data Max7310Reg : Type 0 where
  input_port output_port polarity_inversion configuration timeout : Max7310Reg

abbrev pub reg_value : Max7310Reg → ℕ
reg_value input_port = 0
reg_value output_port = 1
reg_value polarity_inversion = 2
reg_value configuration = 3
reg_value timeout = 4

-- Every raise of `Max7310Error`, by its message.
pub data Max7310Error : Type 0 where
  bad_addr bad_data does_not_exist invalid_pin not_mocking : Max7310Error

pub record Max7310 : Type 0 where
  pub mock : Bool
  pub mock_regs : List ℕ
  pub bus_num : ℕ
  pub addr : ℕ

abbrev pub addr_min : ℕ
addr_min = 8

abbrev pub addr_max : ℕ
addr_max = 64

-- `__init__`
unfoldable pub new_max7310 : ℕ → ℕ → Bool → Result Max7310Error Max7310
new_max7310 bus_num addr mock =
    if ltb addr addr_min || ltb addr_max addr
    then err bad_addr
    else ok (record {
      mock = mock;
      mock_regs = 0x00 ∷ 0x00 ∷ 0xF0 ∷ 0xFF ∷ 0x01 ∷ [];
      bus_num = bus_num;
      addr = addr;
    })

-- `_valid_pin`
unfoldable pub valid_pin : {S : Type 0} → ℕ → Exec Max7310Error S (Unit {0})
valid_pin pin_num = raise_if (ltb 8 pin_num) invalid_pin

module _ {Bus : Type 0} (io : I2c Bus) where
  abbrev pub Driver : Type 0 → Type 0
  Driver A = Exec Max7310Error (With Max7310 Bus) A

  abbrev pub read_answer :
      With Max7310 Bus → Option (ℕ → ℕ) × Bus → Result Max7310Error ℕ × With Max7310 Bus
  read_answer s (none, b) = (err does_not_exist, record s { bus = b })
  read_answer s (some read, b) = (ok (read 0), record s { bus = b })

  -- `_i2c_read_reg`
  unfoldable pub i2c_read_reg : Max7310Reg → Driver ℕ
  i2c_read_reg reg s =
      if s.self.mock
      then (ok (get_or s.self.mock_regs (reg_value reg) 0), s)
      else read_answer s (io.write_read s.self.bus_num s.self.addr (reg_value reg ∷ []) 1 s.bus)

  abbrev pub write_answer :
      With Max7310 Bus → Bool × Bus → Result Max7310Error (Unit {0}) × With Max7310 Bus
  write_answer s (false, b) = (err does_not_exist, record s { bus = b })
  write_answer s (true, b) = (ok tt, record s { bus = b })

  -- `_i2c_write_reg`
  unfoldable pub i2c_write_reg : Max7310Reg → ℕ → Driver (Unit {0})
  i2c_write_reg reg value s =
      if ltb 0xFF value
      then (err bad_data, s)
      else (if s.self.mock
          then (
            ok tt,
            record s {
              self = record s.self { mock_regs = set s.self.mock_regs (reg_value reg) value };
            },
          )
          else write_answer s
              (io.write s.self.bus_num s.self.addr (reg_value reg ∷ value ∷ []) s.bus))

  unfoldable pub configure : ℕ → ℕ → ℕ → ℕ → Driver (Unit {0})
  configure output polarity config time_out = do
    i2c_write_reg output_port output
    i2c_write_reg polarity_inversion polarity
    i2c_write_reg configuration config
    i2c_write_reg timeout time_out

  unfoldable pub reset : Driver (Unit {0})
  reset = do
    i2c_write_reg configuration 0xFF
    i2c_write_reg output_port 0x00
    i2c_write_reg polarity_inversion 0xF0
    i2c_write_reg timeout 0x01

  unfoldable pub output_set : ℕ → Driver (Unit {0})
  output_set pin_num = do
    valid_pin pin_num
    result ← i2c_read_reg output_port
    i2c_write_reg output_port (bit_or result (bit_mask pin_num))

  unfoldable pub output_clear : ℕ → Driver (Unit {0})
  output_clear pin_num = do
    valid_pin pin_num
    result ← i2c_read_reg output_port
    i2c_write_reg output_port (bit_and_not result (bit_mask pin_num))

  unfoldable pub output_status : ℕ → Driver Bool
  output_status pin_num = do result ← i2c_read_reg output_port; pure (bit_at result pin_num)

  -- `_mock_input_set`
  unfoldable pub mock_input_set : ℕ → Driver (Unit {0})
  mock_input_set pin_num = do
    mocking ← gets (λ s. s.self.mock)
    raise_if (not mocking) not_mocking
    valid_pin pin_num
    result ← i2c_read_reg input_port
    i2c_write_reg input_port (bit_or result (bit_mask pin_num))

  -- `_mock_input_clear`
  unfoldable pub mock_input_clear : ℕ → Driver (Unit {0})
  mock_input_clear pin_num = do
    mocking ← gets (λ s. s.self.mock)
    raise_if (not mocking) not_mocking
    valid_pin pin_num
    result ← i2c_read_reg input_port
    i2c_write_reg input_port (bit_and_not result (bit_mask pin_num))

  unfoldable pub input_status : ℕ → Driver Bool
  input_status pin_num = do result ← i2c_read_reg input_port; pure (bit_at result pin_num)

  -- `is_valid` catches the error of the read.
  unfoldable pub is_valid : Driver Bool
  is_valid s =
      let (r, s') = i2c_read_reg input_port s in
      elim r [ ok _ ↦ (ok true, s') | err _ ↦ (ok false, s') ]

  -- The properties `input_port`, `output_port`, `polarity_inversion`, `configuration` and
  -- `timeout`.
  unfoldable pub register : Max7310Reg → Driver ℕ
  register reg = i2c_read_reg reg
