-- ===== src/Drivers/I2c.antt =====
-- The I2C bus as the drivers see it (the smbus2 package, not part of the repository): a transfer
-- is one `i2c_rdwr`, to a bus number and an address. A failed transfer is the OSError or
-- TimeoutError that the drivers catch; it may leave the bus in another state too.
use oresat_c3_software.Prelude.{ℕ, zero, suc, List, [], ◌∷◌, Bool, Option}

pub record I2c (Bus : Type 0) : Type 0 where
  -- `i2c_rdwr(i2c_msg.write(addr, bytes))`; `false` is a failure.
  pub write : ℕ → ℕ → List ℕ → Bus → Bool × Bus
  -- `i2c_rdwr(i2c_msg.write(addr, bytes), i2c_msg.read(addr, size))`; the buffer that was read
  -- is a function of the index below `size`, and `none` is a failure.
  pub write_read : ℕ → ℕ → List ℕ → ℕ → Bus → Option (ℕ → ℕ) × Bus

-- `list(read)` for a buffer of `n` bytes, from index `i`.
abbrev pub buffer_from : ℕ → ℕ → (ℕ → ℕ) → List ℕ
buffer_from i zero f = []
buffer_from i (suc n) f = f i ∷ buffer_from (suc i) n f
