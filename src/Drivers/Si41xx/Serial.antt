-- ===== src/Drivers/Si41xx/Serial.antt =====
-- What `_write_reg` sends, as the chip receives it.
use native.Mathlib.Nat
use oresat_c3_software.Prelude.{
  ℕ, zero, suc, ◌+◌, ◌*◌, ◌%◌, ◌^◌, ◌<◌, ◌≤◌, ◌≡◌, refl, ap, ap₂, ◌∙◌, ◌⊎◌, inl, inr, err, ltb,
  arith, List, [], ◌∷◌, ◌++◌, Bool, true, false, ok, Bool-cases,
}
use oresat_c3_software.Drivers.Si41xx.{
  Si41xx, Si41xxRegister, reg_value, data_mask, PinEvent, sen, sclk, sdata, top_bit, shift_out,
  write_events, data_too_big, write_reg, bit,
}

-- The serial interface of the chip: it takes a bit at each rising edge of the clock while it is
-- selected, and latches the last 22 bits when it is deselected. `words` are the latched ones.
pub record Serial : Type 0 where
  pub sen_level : Bool
  pub sclk_level : Bool
  pub sdata_level : Bool
  pub shifted : ℕ
  pub words : List ℕ

abbrev clock_in : Serial → Serial
clock_in c = record c { shifted = c.shifted * 2 + bit c.sdata_level }

abbrev latch : Serial → Serial
latch c = record c { words = c.words ++ ((c.shifted % 2 ^ 22) ∷ []) }

abbrev on_clock : Bool → Bool → Serial → Serial
on_clock false false c = clock_in c
on_clock _ _ c = c

abbrev on_select : Bool → Serial → Serial
on_select false c = latch c
on_select true c = c

-- A rising edge of the clock counts while SEN is low, and one of SEN if SEN was low.
unfoldable pub receive : PinEvent → Serial → Serial
receive (sdata level) c = record c { sdata_level = level }
receive (sclk false) c = record c { sclk_level = false }
receive (sclk true) c = record (on_clock c.sclk_level c.sen_level c) { sclk_level = true }
receive (sen false) c = record c { sen_level = false }
receive (sen true) c = record (on_select c.sen_level c) { sen_level = true }

unfoldable pub receive_all : List PinEvent → Serial → Serial
receive_all [] c = c
receive_all (e ∷ es) c = receive_all es (receive e c)

pub receive_all-append :
    (xs ys : List PinEvent) (c : Serial)
    → receive_all (xs ++ ys) c ≡ receive_all ys (receive_all xs c)
unfolding receive_all
receive_all-append [] ys c = refl
receive_all-append (x ∷ xs) ys c = receive_all-append xs ys (receive x c)

-- The chip behind the bits of a word that is shifted out to it.
record Shifting (n word : ℕ) (c r : Serial) : Type 0 where
  selected : r.sen_level ≡ false
  same_words : r.words ≡ c.words
  rest : ℕ
  rest_small : rest < 4194304
  moved : r.shifted * 4194304 + rest ≡ (c.shifted * 4194304 + word % 4194304) * 2 ^ n

abbrev one_bit : Bool → Serial → Serial
one_bit b c = receive (sclk true) (receive (sdata b) (receive (sclk false) c))

one_bit_lem :
    (b : Bool) (c : Serial)
    → c.sen_level ≡ false
    → ((one_bit b c).sen_level ≡ false)
      × ((one_bit b c).words ≡ c.words)
      × ((one_bit b c).shifted ≡ c.shifted * 2 + bit b)
unfolding receive
one_bit_lem b c h = ground arith

top_bit_lem :
    (shifted word : ℕ)
    → (shifted * 2 + bit (top_bit word)) * 4194304 + word * 2 % 4194304
      ≡ (shifted * 4194304 + word % 4194304) * 2
top_bit_lem shifted word = ground arith

twice_pow : (x n : ℕ) → x * 2 * 2 ^ n ≡ x * 2 ^ suc n
twice_pow x n = rw Nat.pow-suc (Nat.mul_assoc x 2 (2 ^ n) ∙ ap (λ (t : ℕ). x * t) (omega arith))

shift_out-Shifting :
    (n word : ℕ) (c : Serial)
    → c.sen_level ≡ false
    → Shifting n word c (receive_all (shift_out n word) c)
unfolding shift_out receive_all
shift_out-Shifting zero word c h = record {
  selected = h;
  same_words = refl;
  rest = word % 4194304;
  rest_small = omega arith;
  moved = omega arith;
}
shift_out-Shifting (suc n) word c h =
    let (low, same, more) = one_bit_lem (top_bit word) c h in
    let ih = shift_out-Shifting n (word * 2) (one_bit (top_bit word) c) low in
    record {
      selected = ih.selected;
      same_words = ih.same_words ∙ same;
      rest = ih.rest;
      rest_small = ih.rest_small;
      moved =
          ih.moved
          ∙ ap (λ (t : ℕ). (t * 4194304 + word * 2 % 4194304) * 2 ^ n) more
          ∙ ap (λ (t : ℕ). t * 2 ^ n) (top_bit_lem c.shifted word)
          ∙ twice_pow (c.shifted * 4194304 + word % 4194304) n;
    }

deselect_lem :
    (c : Serial)
    → c.sen_level ≡ false
    → let r = receive (sclk true) (receive (sen true) (receive (sclk false) c)) in
      (r.words ≡ c.words ++ ((c.shifted % 2 ^ 22) ∷ [])) × (r.sen_level ≡ true)
unfolding receive
deselect_lem c h = ground arith

select_lem :
    (c : Serial)
    → ((receive (sen false) c).sen_level ≡ false) × ((receive (sen false) c).words ≡ c.words)
unfolding receive
select_lem c = (refl, refl)

-- What the chip makes of a write of `word`: it latches the low 22 bits.
receive_write :
    (word : ℕ) (c : Serial)
    → let r = receive_all (write_events word) c in
      (r.words ≡ c.words ++ ((word % 2 ^ 22) ∷ [])) × (r.sen_level ≡ true)
unfolding receive_all
receive_write word c =
    let low = receive (sen false) c in
    let s = shift_out-Shifting 22 word low (select_lem c).0 in
    let r = receive_all (shift_out 22 word) low in
    let e : r.shifted % 4194304 ≡ word % 4194304 = omega (arith, s.moved, s.rest_small) in
    let done = deselect_lem r s.selected in
    rw (receive_all-append (shift_out 22 word) _ low) (
      done.0 ∙ ap₂ (λ (ws : List ℕ) (w : ℕ). ws ++ (w ∷ [])) (s.same_words ∙ (select_lem c).1) e,
      done.1,
    )

reg_value-lt : (reg : Si41xxRegister) → reg_value reg < 16
reg_value-lt reg = ground arith

-- The word of a register and its data.
abbrev pub word_of : Si41xxRegister → ℕ → ℕ
word_of reg value = reg_value reg + value * 16

-- The words that the chip has latched behind all that the driver has sent.
unfoldable pub latched : Serial → List PinEvent → List ℕ
latched c pins = (receive_all pins c).words

pub latched-write_events :
    (reg : Si41xxRegister) (value : ℕ) (c : Serial) (pins : List PinEvent)
    → value ≤ data_mask
    → latched c (pins ++ write_events (reg_value reg + value % 2 ^ 18 * 16))
      ≡ latched c pins ++ (word_of reg value ∷ [])
unfolding latched
latched-write_events reg value c pins h =
    let word = reg_value reg + value % 2 ^ 18 * 16 in
    let e : word % 2 ^ 22 ≡ word_of reg value = omega (arith, reg_value-lt reg) in
    ap (λ (t : Serial). t.words) (receive_all-append pins (write_events word) c)
    ∙ (receive_write word (receive_all pins c)).0
    ∙ ap (λ (w : ℕ). (receive_all pins c).words ++ (w ∷ [])) e

-- `_write_reg` of data that fits the field makes the chip latch one more word. It has the address
-- of the register in its low four bits and the data above them. Data that does not fit is an
-- error, and nothing is sent. All else in the driver stays as it was.
pub latched-write_reg :
    (reg : Si41xxRegister) (value : ℕ) (c : Serial) (s : Si41xx)
    → let (r, s') = write_reg reg value s in
      (s' ≡ record s { pins = s'.pins })
      × (((data_mask < value) × (r ≡ err data_too_big) × (s'.pins ≡ s.pins))
          ⊎ ((value ≤ data_mask)
              × (r ≡ ok tt)
              × (latched c s'.pins ≡ latched c s.pins ++ (word_of reg value ∷ []))))
unfolding write_reg
latched-write_reg reg value c s = elim (Bool-cases (ltb data_mask value)) [
  | inl big ↦ ground arith
  | inr small ↦ ground (arith, latched-write_events reg value c s.pins)
]
