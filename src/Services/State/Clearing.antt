-- ===== src/Services/State/Clearing.antt =====
-- Clearing the state keeps the keys.
use mathlib.Core.List.{append_assoc}
use oresat_c3_software.Prelude.{
  ℕ, ◌+◌, ◌-◌, ◌<◌, ◌≤◌, ◌≡◌, refl, sym, ap, subst, ◌∙◌, inl, inr, arith, String, List, [], ◌∷◌,
  ◌++◌, length, drop, length-append, length-replicate, Bool, true, false, Bool-cases, ok, With,
  raise, ◌>>◌, >>-eq_ok,
}
use oresat_c3_software.Drivers.I2c.{I2c}
use oresat_c3_software.Drivers.Fm24cl64b.{Fm24cl64b, fram_size, type_error, write, clear}
use oresat_c3_software.Drivers.Fm24cl64b.Memory.{memory, IsFram}
use oresat_c3_software.Services.State.RoundTrip.{Fits, write_behind}
use oresat_c3_software.Services.State.Storage.{
  FramObj, domain, octet_string, variable, Codec, is_key, clear_objs, clear_state, Stored,
}
use oresat_c3_software.Services.State.Kept.{
  zeros, zeros-add, drop-zeros, kept_octets, KeysAreOctets, kept, kept_image,
}

module _ {V Bus : Type 0} (codec : Codec V) (io : I2c Bus) (mem : Bus → List ℕ) where
  abbrev Cleared :
      List ℕ → Stored codec io (Unit {0}) → List ℕ → List ℕ → With Fm24cl64b Bus → Type 0
  Cleared img run pre rest s =
      let (r, s') = run s in
      (r ≡ ok tt) × (memory io mem s' ≡ pre ++ (img ++ rest)) × IsFram io mem s'

  abbrev Clears : List (FramObj V) → ℕ → List ℕ → List ℕ → With Fm24cl64b Bus → Type 0
  Clears objs offset pre rest s =
      Cleared (kept_image codec objs) (clear_objs codec io objs offset) pre rest s

  as-Cleared :
      (objs : List (FramObj V)) (offset : ℕ) (pre rest : List ℕ) (s : With Fm24cl64b Bus)
      {img : List ℕ} {run : Stored codec io (Unit {0})}
      → kept_image codec objs ≡ img
      → clear_objs codec io objs offset ≡ run
      → Cleared img run pre rest s
      → Clears objs offset pre rest s
  as-Cleared objs offset pre rest s {img} {run} e g h =
      subst (λ (i : List ℕ). Cleared i (clear_objs codec io objs offset) pre rest s) (sym e)
        (subst (λ (r : Stored codec io (Unit {0})). Cleared img r pre rest s) (sym g) h)

  blank_as :
      (pre rest : List ℕ) {a b : List ℕ}
      → a ≡ b
      → pre ++ (zeros (length a) ++ rest) ≡ pre ++ (zeros (length b) ++ rest)
  blank_as pre rest e = ap (λ (t : List ℕ). pre ++ (zeros (length t) ++ rest)) e

  image_octets :
      (k : Bool) (raw : List ℕ) (name : String) (default value : List ℕ) (objs : List (FramObj V))
      → is_key name ≡ k
      → kept_octets k value ≡ raw
      → kept_image codec (octet_string name default value ∷ objs) ≡ raw ++ kept_image codec objs
  unfolding kept_image kept
  image_octets k raw name default value objs h e =
      ap (λ (b : Bool). kept_octets b value ++ kept_image codec objs) h
      ∙ ap (λ (t : List ℕ). t ++ kept_image codec objs) e

  clear_key :
      (name : String) (default value : List ℕ) (objs : List (FramObj V)) (offset : ℕ)
      → length value ≡ length default
      → is_key name ≡ true
      → clear_objs codec io (octet_string name default value ∷ objs) offset
        ≡ (write io offset value >> clear_objs codec io objs (offset + length value))
  unfolding clear_objs
  clear_key name default value objs offset l h =
      ap
        (λ (b : Bool).
          let r : Stored codec io (Unit {0}) = elim b [
            | true ↦ write io offset value >> clear_objs codec io objs (offset + length default)
            | false ↦ clear_objs codec io objs (offset + length value)
          ] in
          r)
        h
      ∙ ap
          (λ (n : ℕ).
            let r : Stored codec io (Unit {0}) =
              write io offset value >> clear_objs codec io objs (offset + n) in
            r)
          (sym l)

  clear_other :
      (name : String) (default value : List ℕ) (objs : List (FramObj V)) (offset : ℕ)
      → is_key name ≡ false
      → clear_objs codec io (octet_string name default value ∷ objs) offset
        ≡ clear_objs codec io objs (offset + length value)
  unfolding clear_objs
  clear_other name default value objs offset h =
      ap
        (λ (b : Bool).
          let r : Stored codec io (Unit {0}) = elim b [
            | true ↦ write io offset value >> clear_objs codec io objs (offset + length default)
            | false ↦ clear_objs codec io objs (offset + length value)
          ] in
          r)
        h

  clear_variable :
      (name : String) (data_type : ℕ) (default value : V) (objs : List (FramObj V)) (offset : ℕ)
      → is_key name ≡ false
      → clear_objs codec io (variable name data_type default value ∷ objs) offset
        ≡ clear_objs codec io objs (offset + length (codec.encode_raw data_type value))
  unfolding clear_objs
  clear_variable name data_type default value objs offset h =
      ap
        (λ (b : Bool).
          let r : Stored codec io (Unit {0}) = elim b [
            | true ↦ raise type_error
            | false ↦ clear_objs codec io objs (offset + length (codec.encode_raw data_type value))
          ] in
          r)
        h

  parts_behind :
      (pre raw img rest : List ℕ) → (pre ++ raw) ++ (img ++ rest) ≡ pre ++ ((raw ++ img) ++ rest)
  parts_behind pre raw img rest = rw (append_assoc pre raw, append_assoc raw img) refl

  skip_step :
      (n : ℕ) (objs : List (FramObj V)) (pre rest : List ℕ) (s : With Fm24cl64b Bus)
      → memory io mem s ≡ pre ++ (zeros (length (zeros n ++ kept_image codec objs)) ++ rest)
      → (memory io mem s ≡ (pre ++ zeros n) ++ (zeros (length (kept_image codec objs)) ++ rest)
          → Clears objs (length (pre ++ zeros n)) (pre ++ zeros n) rest s)
      → let (r, s') = clear_objs codec io objs (length pre + n) s in
        (r ≡ ok tt)
        × (memory io mem s' ≡ pre ++ ((zeros n ++ kept_image codec objs) ++ rest))
        × IsFram io mem s'
  skip_step n objs pre rest s m go =
      let img = kept_image codec objs in
      let e : length (pre ++ zeros n) ≡ length pre + n =
        omega (arith, length-append pre (zeros n), length-replicate {A = ℕ} n 0) in
      let k : length (zeros n ++ img) ≡ n + length img =
        omega (arith, length-append (zeros n) img, length-replicate {A = ℕ} n 0) in
      let m' : memory io mem s ≡ (pre ++ zeros n) ++ (zeros (length img) ++ rest) =
        m
        ∙ ap (λ (t : List ℕ). pre ++ t)
            (ap (λ (j : ℕ). zeros j ++ rest) k ∙ zeros-add n (length img) rest)
        ∙ sym (append_assoc pre (zeros n) (zeros (length img) ++ rest)) in
      let (r, after, f) = subst (λ (o : ℕ). Clears objs o (pre ++ zeros n) rest s) e (go m') in
      (r, after ∙ parts_behind pre (zeros n) img rest, f)

  key_step :
      (raw : List ℕ) (objs : List (FramObj V)) (pre rest : List ℕ) (s : With Fm24cl64b Bus)
      → IsFram io mem s
      → 0 < length raw
      → memory io mem s ≡ pre ++ (zeros (length (raw ++ kept_image codec objs)) ++ rest)
      → ((s' : With Fm24cl64b Bus)
          → IsFram io mem s'
          → memory io mem s' ≡ (pre ++ raw) ++ (zeros (length (kept_image codec objs)) ++ rest)
          → Clears objs (length (pre ++ raw)) (pre ++ raw) rest s')
      → let (r, s') =
          (write io (length pre) raw >> clear_objs codec io objs (length pre + length raw)) s in
        (r ≡ ok tt)
        × (memory io mem s' ≡ pre ++ ((raw ++ kept_image codec objs) ++ rest))
        × IsFram io mem s'
  key_step raw objs pre rest s f p m go =
      let img = kept_image codec objs in
      let blank = zeros (length (raw ++ img)) ++ rest in
      let (done, written, f') = write_behind codec io mem pre raw blank s f m p (
        omega (
          arith,
          length-append (zeros (length (raw ++ img))) rest,
          length-replicate {A = ℕ} (length (raw ++ img)) 0,
          length-append raw img,
        )) in
      let (r, after, f'') = rw length-append at (
        go (write io (length pre) raw s).1 f'
          (written ∙ ap (λ (t : List ℕ). (pre ++ raw) ++ t) (drop-zeros raw img rest))) in
      rw
        (>>-eq_ok (write io (length pre) raw) (clear_objs codec io objs (length pre + length raw)) s
          done)
        (r, after ∙ parts_behind pre raw img rest, f'')

  clear_objs_lem :
      (objs : List (FramObj V)) (pre rest : List ℕ) (s : With Fm24cl64b Bus)
      → Fits codec objs
      → KeysAreOctets objs
      → IsFram io mem s
      → memory io mem s ≡ pre ++ (zeros (length (kept_image codec objs)) ++ rest)
      → Clears objs (length pre) pre rest s
  unfolding clear_objs kept_image kept KeysAreOctets
  clear_objs_lem [] pre rest s fit keys f m = (refl, m, f)
  clear_objs_lem (domain name ∷ objs) pre rest s fit keys f m =
      clear_objs_lem objs pre rest s fit.1 keys f m
  clear_objs_lem (octet_string name default value ∷ objs) pre rest s fit keys f m =
      elim (Bool-cases (is_key name)) [
        | inl key ↦
            let e = image_octets true value name default value objs key refl in
            as-Cleared (octet_string name default value ∷ objs) _ pre rest s e
              (clear_key name default value objs (length pre) fit.0.0 key)
              (key_step value objs pre rest s f (rw fit.0.0 fit.0.1) (m ∙ blank_as pre rest e)
                (λ s' f' m'. clear_objs_lem objs (pre ++ value) rest s' fit.1 keys f' m'))
        | inr other ↦
            let e = image_octets false (zeros (length value)) name default value objs other refl in
            as-Cleared (octet_string name default value ∷ objs) _ pre rest s e
              (clear_other name default value objs (length pre) other)
              (skip_step (length value) objs pre rest s (m ∙ blank_as pre rest e)
                (λ m'. clear_objs_lem objs (pre ++ zeros (length value)) rest s fit.1 keys f m'))
      ]
  clear_objs_lem (variable name data_type default value ∷ objs) pre rest s fit keys f m =
      as-Cleared (variable name data_type default value ∷ objs) _ pre rest s refl
        (clear_variable name data_type default value objs (length pre) keys.0)
        (skip_step (length (codec.encode_raw data_type value)) objs pre rest s m
          (λ m'. clear_objs_lem objs _ rest s fit.1 keys.1 f m'))

  clear_from :
      (n : ℕ) (objs : List (FramObj V)) (s : With Fm24cl64b Bus)
      → Fits codec objs
      → KeysAreOctets objs
      → IsFram io mem s
      → 0 < n
      → n ≤ fram_size
      → length (kept_image codec objs) ≤ n
      → let (r, s') = (write io 0 (zeros n) >> clear_objs codec io objs 0) s in
        (r ≡ ok tt)
        × (memory io mem s'
            ≡ kept_image codec objs
              ++ (zeros (n - length (kept_image codec objs)) ++ drop n (memory io mem s)))
        × IsFram io mem s'
  clear_from n objs s fit keys f p q h =
      let l : length (zeros n) ≡ n = length-replicate n 0 in
      let size = length (kept_image codec objs) in
      let upper = drop n (memory io mem s) in
      let (done, written, f') =
        write_behind codec io mem [] (zeros n) (memory io mem s) s f refl (omega (arith, l))
          (omega (arith, l, f.full)) in
      let split : zeros n ++ upper ≡ zeros size ++ (zeros (n - size) ++ upper) =
        ap (λ (k : ℕ). zeros k ++ upper) e ∙ zeros-add size (n - size) upper in
      let after = written ∙ ap (λ (k : ℕ). zeros n ++ drop k (memory io mem s)) l ∙ split in
      rw (>>-eq_ok (write io 0 (zeros n)) (clear_objs codec io objs 0) s done) (
        clear_objs_lem objs [] (zeros (n - size) ++ upper) (write io 0 (zeros n) s).1 fit keys f'
          after)
    where
      e : n ≡ length (kept_image codec objs) + (n - length (kept_image codec objs))
      e = omega arith

  -- `clear_state` succeeds when the objects fit into the lower half of the F-RAM and the ones that
  -- are named as keys are octet strings. Then the memory
  -- holds the crypto keys at the places where they are stored, zeros at those of all other objects
  -- and up to the middle, and its upper half as it was.
  pub memory-clear_state :
      (objs : List (FramObj V)) (s : With Fm24cl64b Bus)
      → Fits codec objs
      → KeysAreOctets objs
      → IsFram io mem s
      → length (kept_image codec objs) ≤ 4096
      → let (r, s') = clear_state codec io objs s in
        (r ≡ ok tt)
        × (memory io mem s'
            ≡ kept_image codec objs
              ++ (zeros (4096 - length (kept_image codec objs)) ++ drop 4096 (memory io mem s)))
        × IsFram io mem s'
  unfolding clear_state clear
  memory-clear_state objs s fit keys f h =
      clear_from 4096 objs s fit keys f (omega arith) (omega arith) h
