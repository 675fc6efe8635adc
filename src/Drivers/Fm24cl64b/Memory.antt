-- ===== src/Drivers/Fm24cl64b/Memory.antt =====
-- The F-RAM as a memory: what `read`, `write` and `clear` do to its bytes, in the mock and on
-- hardware that keeps its bytes.
use oresat_c3_software.Prelude.{
  subst, ℕ, ◌+◌, ◌-◌, ◌<◌, ◌≤◌, ◌≡◌, sym, ap, ◌∙◌, arith, ◌⊎◌, inl, inr, List, ◌++◌, true, false,
  some, Bool-cases, if◌then◌else◌, length, take, drop, replicate, length-append, length-take,
  length-drop, take-append, length-replicate, drop-append_eq, drop-append_past, drop-drop,
  take-drop-append, take-append-drop, ok, With,
}
use oresat_c3_software.Drivers.I2c.{I2c, buffer_from}
use oresat_c3_software.Drivers.Fm24cl64b.{
  Fm24cl64b, fram_size, address, overwrite, read, write, clear,
}

-- What the data sheet says of a chip on the bus: a read at an address gives the bytes from there
-- on, and written bytes are seen by the later reads. `mem` are its bytes.
pub record IsFramChip {Bus : Type 0} (io : I2c Bus) (mem : Bus → List ℕ) (bus_num addr : ℕ)
    : Type 0 where
  pub reply : Bus → ℕ → ℕ → ℕ → ℕ
  pub reads :
      (b : Bus) (offset size : ℕ)
      → io.write_read bus_num addr (address offset) size b ≡ (some (reply b offset size), b)
  pub reply_bytes :
      (b : Bus) (offset size : ℕ)
      → offset + size ≤ fram_size
      → buffer_from 0 size (reply b offset size) ≡ take size (drop offset (mem b))
  pub after : Bus → ℕ → List ℕ → Bus
  pub writes :
      (b : Bus) (offset : ℕ) (bytes : List ℕ)
      → io.write bus_num addr (address offset ++ bytes) b ≡ (true, after b offset bytes)
  pub after_mem :
      (b : Bus) (offset : ℕ) (bytes : List ℕ)
      → offset + length bytes ≤ fram_size
      → mem (after b offset bytes) ≡ overwrite offset bytes (mem b)

module _ {Bus : Type 0} (io : I2c Bus) (mem : Bus → List ℕ) where
  -- The bytes that the driver reads and writes: the mock's file, or the chip's.
  abbrev pub memory : With Fm24cl64b Bus → List ℕ
  memory s = if s.self.mock then s.self.mock_file else mem s.bus

  pub record IsFram (s : With Fm24cl64b Bus) : Type 0 where
    pub chip : s.self.mock ≡ false → IsFramChip io mem s.self.bus_num s.self.addr
    pub full : length (memory s) ≡ fram_size

  -- A read inside the memory gives its bytes and changes nothing.
  pub read_lem :
      (offset size : ℕ) (s : With Fm24cl64b Bus)
      → IsFram s
      → 0 < size
      → offset + size ≤ fram_size
      → read io offset size s ≡ (ok (take size (drop offset (memory s))), s)
  unfolding read
  read_lem offset size s f p h = elim (Bool-cases s.self.mock) [
    | inl m ↦ ground arith
    | inr m ↦
        let c = f.chip m in
        ground (arith, c.reads s.bus offset size, c.reply_bytes s.bus offset size h)
  ]

  length-overwrite :
      (offset : ℕ) (bytes tmp : List ℕ)
      → offset + length bytes ≤ length tmp
      → length (overwrite offset bytes tmp) ≡ length tmp
  length-overwrite offset bytes tmp h = omega (
    arith,
    length-append (take offset tmp) (bytes ++ drop (offset + length bytes) tmp),
    length-append bytes (drop (offset + length bytes) tmp),
    length-take offset tmp,
    length-drop (offset + length bytes) tmp,
  )

  -- A write inside the memory replaces the bytes that it covers, and no other.
  pub write_lem :
      (offset : ℕ) (bytes : List ℕ) (s : With Fm24cl64b Bus)
      → IsFram s
      → 0 < length bytes
      → offset + length bytes ≤ fram_size
      → let (r, s') = write io offset bytes s in
        (r ≡ ok tt) × (memory s' ≡ overwrite offset bytes (memory s)) × IsFram s'
  unfolding write
  write_lem offset bytes s f p h = elim (Bool-cases s.self.mock) [
    | inl m ↦ ground (arith, length-overwrite offset bytes s.self.mock_file)
    | inr m ↦
        let c = f.chip m in
        ground (
          arith,
          c.writes s.bus offset bytes,
          c.after_mem s.bus offset bytes h,
          length-overwrite offset bytes (mem s.bus),
        )
  ]

module _ (offset : ℕ) (bytes tmp : List ℕ) (h : offset + length bytes ≤ length tmp) where
  -- The bytes from the written range on.
  drop-overwrite :
      drop offset (overwrite offset bytes tmp) ≡ bytes ++ drop (offset + length bytes) tmp
  drop-overwrite =
      drop-append_eq offset (take offset tmp) (bytes ++ drop (offset + length bytes) tmp)
        (length-take offset tmp (omega arith))

  overwrite_self : take (length bytes) (drop offset (overwrite offset bytes tmp)) ≡ bytes
  overwrite_self = rw drop-overwrite (take-append bytes (drop (offset + length bytes) tmp))

  overwrite_below :
      (i n : ℕ)
      → i + n ≤ offset
      → take n (drop i (overwrite offset bytes tmp)) ≡ take n (drop i tmp)
  overwrite_below i n p =
      take-drop-append n i (take offset tmp) (bytes ++ drop (offset + length bytes) tmp)
        (omega (arith, length-take offset tmp))
      ∙ sym (
          take-drop-append n i (take offset tmp) (drop offset tmp)
            (omega (arith, length-take offset tmp)))
      ∙ ap (λ (t : List ℕ). take n (drop i t)) (take-append-drop offset tmp)

  overwrite_above :
      (i : ℕ) → offset + length bytes ≤ i → drop i (overwrite offset bytes tmp) ≡ drop i tmp
  overwrite_above i p =
      rw
        (
          drop-append_past i (take offset tmp) (bytes ++ drop (offset + length bytes) tmp)
              (omega (arith, length-take offset tmp)),
          length-take offset tmp (omega arith),
          drop-append_past (i - offset) bytes (drop (offset + length bytes) tmp) (omega arith),
          drop-drop,
        )
        (ap (λ (k : ℕ). drop k tmp) (omega arith))

module _ {Bus : Type 0} (io : I2c Bus) (mem : Bus → List ℕ) where
  -- Bytes that are written inside the memory are read back from there. A read of any other range
  -- that the write does not touch gives the same bytes as before it.
  pub read-write :
      (offset : ℕ) (bytes : List ℕ) (i n : ℕ) (s : With Fm24cl64b Bus)
      → IsFram io mem s
      → 0 < length bytes
      → offset + length bytes ≤ fram_size
      → 0 < n
      → i + n ≤ fram_size
      → (i + n ≤ offset) ⊎ (offset + length bytes ≤ i)
      → let (r, s') = write io offset bytes s in
        (r ≡ ok tt)
        × ((read io offset (length bytes) s').0 ≡ ok bytes)
        × ((read io i n s').0 ≡ (read io i n s).0)
  read-write offset bytes i n s f p h q k apart =
      let (done, written, f') = write_lem io mem offset bytes s f p h in
      let room : offset + length bytes ≤ length (memory io mem s) = rw f.full h in
      (
        done,
        ap (λ t. t.0) (read_lem io mem offset (length bytes) _ f' p h)
            ∙ ap (λ (t : List ℕ). ok t)
                (ap (λ (t : List ℕ). take (length bytes) (drop offset t)) written
                  ∙ overwrite_self offset bytes (memory io mem s) room),
        rw (read_lem io mem i n s f q k, read_lem io mem i n _ f' q k, written)
            (ap (λ (t : List ℕ). ok t)
              (elim apart [
                | inl below ↦ overwrite_below offset bytes (memory io mem s) room i n below
                | inr above ↦
                    ap (λ (t : List ℕ). take n t)
                      (overwrite_above offset bytes (memory io mem s) room i above)
              ])),
      )

  zero_fill :
      (m i n : ℕ) (s : With Fm24cl64b Bus)
      → IsFram io mem s
      → 0 < m
      → m ≤ fram_size
      → m ≤ i
      → 0 < n
      → i + n ≤ fram_size
      → let (r, s') = write io 0 (replicate m 0) s in
        (r ≡ ok tt)
        × ((read io 0 m s').0 ≡ ok (replicate m 0))
        × ((read io i n s').0 ≡ (read io i n s).0)
  zero_fill m i n s f p h a q k =
      let len : length (replicate {A = ℕ} m 0) ≡ m = length-replicate m 0 in
      let (done, there, apart) =
        read-write 0 (replicate m 0) i n s f (rw len p) (omega (arith, len)) q k
          (inr (omega (arith, len))) in
      (
        done,
        subst (λ (t : ℕ). (read io 0 t (write io 0 (replicate m 0) s).1).0 ≡ ok (replicate m 0)) len
            there,
        apart,
      )

  -- `clear` succeeds, and zeroes the lower half of the memory only: every read from the upper
  -- half gives the same bytes as before.
  clear_half :
      (i n : ℕ) (s : With Fm24cl64b Bus)
      → IsFram io mem s
      → 0 < n
      → 4096 ≤ i
      → i + n ≤ fram_size
      → let (r, s') = clear io s in
        (r ≡ ok tt)
        × ((read io 0 4096 s').0 ≡ ok (replicate 4096 0))
        × ((read io i n s').0 ≡ (read io i n s).0)
  unfolding clear
  clear_half i n s f q half k = zero_fill 4096 i n s f (omega arith) (omega arith) half q k
