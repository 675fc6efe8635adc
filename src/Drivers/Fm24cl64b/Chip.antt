-- ===== src/Drivers/Fm24cl64b/Chip.antt =====
-- A simulated FM24CL64B, which meets what the theorems on the driver ask of the bus.
use oresat_c3_software.Prelude.{
  ℕ, zero, suc, ◌+◌, ◌-◌, ◌*◌, ◌/◌, ◌%◌, ◌<◌, ◌≤◌, ◌≡◌, refl, sym, ap, ap₂, ◌∙◌, arith, List, [],
  ◌∷◌, ◌++◌, Bool, true, false, ◌&&◌, Option, some, none, if◌then◌else◌, ltb, leb, length, take,
  drop, get_or, drop-append_eq, subst, With,
}
use native.Mathlib.Nat.{suc-add}
use oresat_c3_software.Drivers.I2c.{I2c, buffer_from}
use oresat_c3_software.Drivers.Fm24cl64b.{Fm24cl64b, fram_size, address, overwrite}
use oresat_c3_software.Drivers.Fm24cl64b.Memory.{IsFramChip, IsFram}

-- The bytes, by their addresses.
abbrev pub Cells : Type 0
Cells = ℕ → ℕ

abbrev pub fram_bytes : Cells → List ℕ
fram_bytes cells = buffer_from 0 fram_size cells

unfoldable pub written : ℕ → List ℕ → Cells → Cells
written offset bytes cells i =
    if leb offset i && ltb i (offset + length bytes) then get_or bytes (i - offset) 0 else cells i

abbrev fram_write : ℕ → ℕ → List ℕ → Cells → Bool × Cells
fram_write bus_num addr (hi ∷ lo ∷ bytes) cells = (true, written (hi * 256 + lo) bytes cells)
fram_write bus_num addr _ cells = (false, cells)

abbrev fram_read : ℕ → ℕ → List ℕ → ℕ → Cells → Option (ℕ → ℕ) × Cells
fram_read bus_num addr (hi ∷ lo ∷ []) size cells = (some (λ i. cells (hi * 256 + lo + i)), cells)
fram_read bus_num addr _ size cells = (none, cells)

abbrev pub fram_bus : I2c Cells
fram_bus = record { write = fram_write; write_read = fram_read }

buffer_ext :
    (i n : ℕ) (f g : Cells)
    → ((j : ℕ) → i ≤ j → j < i + n → f j ≡ g j)
    → buffer_from i n f ≡ buffer_from i n g
buffer_ext i zero f g h = refl
buffer_ext i (suc n) f g h = rw (h i (omega arith) (omega arith)) (
    ap (λ (t : List ℕ). g i ∷ t)
      (buffer_ext (suc i) n f g (λ j p q. h j (omega arith) (omega arith))))

buffer_shift : (k i n : ℕ) (f : Cells) → buffer_from i n (λ j. f (k + j)) ≡ buffer_from (k + i) n f
buffer_shift k i zero f = refl
buffer_shift k i (suc n) f =
    ap (λ (t : List ℕ). f (k + i) ∷ t)
      (buffer_shift k (suc i) n f ∙ ap (λ (t : ℕ). buffer_from t n f) (omega arith))

buffer_split :
    (i m n : ℕ) (f : Cells) → buffer_from i (m + n) f ≡ buffer_from i m f ++ buffer_from (i + m) n f
buffer_split i zero n f = ground arith
buffer_split i (suc m) n f = rw (suc-add m n) (
    ap (λ (t : List ℕ). f i ∷ t)
      (buffer_split (suc i) m n f
        ∙ ap (λ (t : ℕ). buffer_from (suc i) m f ++ buffer_from t n f) (omega arith)))

buffer-length : (i n : ℕ) (f : Cells) → length (buffer_from i n f) ≡ n
buffer-length i zero f = refl
buffer-length i (suc n) f = ap suc (buffer-length (suc i) n f)

buffer_bytes :
    (i : ℕ) (bytes : List ℕ) (f : Cells)
    → ((j : ℕ) → j < length bytes → f (i + j) ≡ get_or bytes j 0)
    → buffer_from i (length bytes) f ≡ bytes
buffer_bytes i [] f h = refl
buffer_bytes i (b ∷ bytes) f h =
    ap₂ (λ (x : ℕ) (t : List ℕ). x ∷ t)
      (subst (λ (t : ℕ). f t ≡ b) (omega arith) (h 0 (omega arith)))
      (buffer_bytes (suc i) bytes f
        (λ j p. subst (λ (t : ℕ). f t ≡ get_or bytes j 0) (omega arith) (h (suc j) (omega arith))))

address_value : (offset : ℕ) → offset / 256 * 256 + offset % 256 ≡ offset
address_value offset = omega arith

abbrev reply_at : Cells → ℕ → ℕ → ℕ → ℕ
reply_at cells offset size i = cells (offset + i)

fram_reads :
    (cells : Cells) (offset size : ℕ)
    → fram_read 2 0x50 (address offset) size cells ≡ (some (reply_at cells offset size), cells)
fram_reads cells offset size =
    ap (λ (k : ℕ). (some (λ (i : ℕ). cells (k + i)), cells)) (address_value offset)

fram_writes :
    (cells : Cells) (offset : ℕ) (bytes : List ℕ)
    → fram_write 2 0x50 (address offset ++ bytes) cells ≡ (true, written offset bytes cells)
fram_writes cells offset bytes =
    ap (λ (k : ℕ). (true, written k bytes cells)) (address_value offset)

-- A buffer in three parts.
buffer_parts :
    (i j k : ℕ) (f : Cells)
    → buffer_from 0 (i + (j + k)) f
      ≡ buffer_from 0 i f ++ (buffer_from i j f ++ buffer_from (i + j) k f)
buffer_parts i j k f = ground (arith, buffer_split 0 i (j + k) f, buffer_split i j k f)

-- A part of a buffer, by its address.
buffer_drop : (i k : ℕ) (f : Cells) → drop i (buffer_from 0 (i + k) f) ≡ buffer_from i k f
buffer_drop i k f =
    ap (λ (t : List ℕ). drop i t) (buffer_split 0 i k f)
    ∙ drop-append_eq i (buffer_from 0 i f) (buffer_from (0 + i) k f) (buffer-length 0 i f)
    ∙ ap (λ (t : ℕ). buffer_from t k f) (omega arith)

buffer_take : (i j k : ℕ) (f : Cells) → take j (buffer_from i (j + k) f) ≡ buffer_from i j f
buffer_take i zero k f = refl
buffer_take i (suc j) k f =
    rw (suc-add j k) (ap (λ (t : List ℕ). f i ∷ t) (buffer_take (suc i) j k f))

buffer_range :
    (offset size n : ℕ) (f : Cells)
    → offset + size ≤ n
    → take size (drop offset (buffer_from 0 n f)) ≡ buffer_from offset size f
buffer_range offset size n f h =
    let k = n - (offset + size) in
    let e : n ≡ offset + (size + k) = omega arith in
    ap (λ (t : ℕ). take size (drop offset (buffer_from 0 t f))) e
    ∙ ap (λ (t : List ℕ). take size t) (buffer_drop offset (size + k) f)
    ∙ buffer_take offset size k f

written_parts :
    (cells : Cells) (offset k : ℕ) (bytes : List ℕ)
    → buffer_from 0 (offset + (length bytes + k)) (written offset bytes cells)
      ≡ buffer_from 0 offset cells ++ (bytes ++ buffer_from (offset + length bytes) k cells)
unfolding written
written_parts cells offset k bytes =
    rw
      (
        buffer_parts offset (length bytes) k (written offset bytes cells),
        buffer_ext 0 offset (written offset bytes cells) cells (λ j p q. ground arith),
        buffer_bytes offset bytes (written offset bytes cells) (λ j p.
            let e : offset + j - offset ≡ j = omega arith in
            ground (arith, ap (λ (t : ℕ). get_or bytes t 0) e)),
        buffer_ext (offset + length bytes) k (written offset bytes cells) cells
            (λ j p q. ground arith),
      )
      refl

written_bytes :
    (cells : Cells) (offset : ℕ) (bytes : List ℕ) (n : ℕ)
    → offset + length bytes ≤ n
    → buffer_from 0 n (written offset bytes cells) ≡ overwrite offset bytes (buffer_from 0 n cells)
written_bytes cells offset bytes n h =
    let k = n - (offset + length bytes) in
    let e : offset + (length bytes + k) ≡ n = omega arith in
    let e' : offset + (length bytes + k) ≡ offset + length bytes + k = omega arith in
    subst
      (λ (t : ℕ).
        buffer_from 0 t (written offset bytes cells)
        ≡ overwrite offset bytes (buffer_from 0 t cells))
      e
      (written_parts cells offset k bytes
        ∙ sym (
            ap₂ (λ (u v : List ℕ). u ++ (bytes ++ v))
              (buffer_take 0 offset (length bytes + k) cells)
              (ap (λ (t : ℕ). drop (offset + length bytes) (buffer_from 0 t cells)) e'
                ∙ buffer_drop (offset + length bytes) k cells)))

fram_bus-IsFramChip : IsFramChip fram_bus fram_bytes 2 0x50
fram_bus-IsFramChip = record {
  reply = reply_at;
  reads = fram_reads;
  reply_bytes = λ b offset size h.
      buffer_shift offset 0 size b
      ∙ ap (λ (t : ℕ). buffer_from t size b) (omega arith)
      ∙ sym (buffer_range offset size fram_size b h);
  after = λ b offset bytes. written offset bytes b;
  writes = fram_writes;
  after_mem = λ b offset bytes h. written_bytes b offset bytes fram_size h;
}

abbrev pub blank_fram : With Fm24cl64b Cells
blank_fram = record {
  self = record { bus_num = 2; addr = 0x50; mock = false; mock_file = [] };
  bus = λ i. 0;
}

pub blank_fram-IsFram : IsFram fram_bus fram_bytes blank_fram
blank_fram-IsFram = record {
  chip = λ m. fram_bus-IsFramChip;
  full = buffer-length 0 fram_size (λ i. 0);
}
