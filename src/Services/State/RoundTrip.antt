-- ===== src/Services/State/RoundTrip.antt =====
-- What is stored in the F-RAM is what is restored from it.
use mathlib.Core.List.{append_assoc}
use oresat_c3_software.Prelude.{
  ℕ, ◌+◌, ◌<◌, ◌≤◌, ◌≡◌, ◌≢◌, refl, sym, ap, ◌∙◌, arith, String, List, [], ◌∷◌, ◌++◌, map, length,
  drop, length-append, take-append, drop-append, drop-append_add, length-drop, drop-drop, ok, With,
  ◌>>◌, >>-eq_ok,
}
use oresat_c3_software.Drivers.I2c.{I2c}
use oresat_c3_software.Drivers.Fm24cl64b.{Fm24cl64b, fram_size, overwrite, read, write}
use oresat_c3_software.Drivers.Fm24cl64b.Memory.{memory, IsFram, read_lem, write_lem}
use oresat_c3_software.Services.State.{pre_deploy}
use oresat_c3_software.Services.State.Storage.{
  FramObj, domain, octet_string, variable, Codec, or_pre_deploy, store_objs, store_state,
  restore_objs, restore_state,
}

-- The object as it is when the program has just started: with its default value.
unfoldable pub blank : {V : Type 0} → FramObj V → FramObj V
blank (domain name) = domain name
blank (octet_string name default value) = octet_string name default default
blank (variable name data_type default value) = variable name data_type default default

module _ {V : Type 0} (codec : Codec V) where
  open codec use {encode_raw, decode_raw}

  -- Values take as many bytes as the default does, at least one, and are decoded as they were
  -- encoded. This holds of the fixed-size types of canopen.
  abbrev pub FitsObj : FramObj V → Type 0
  FitsObj (domain name) = Unit
  FitsObj (octet_string name default value) = (length value ≡ length default) × (0 < length default)
  FitsObj (variable name data_type default value) =
      (length (encode_raw data_type value) ≡ length (encode_raw data_type default))
      × (0 < length (encode_raw data_type default))
      × (decode_raw data_type (encode_raw data_type value) ≡ value)

  abbrev pub Fits : List (FramObj V) → Type 0
  Fits [] = Unit
  Fits (obj ∷ objs) = FitsObj obj × Fits objs

  -- The bytes of one object, and of them all.
  unfoldable pub bytes_of : FramObj V → List ℕ
  bytes_of (domain name) = []
  bytes_of (octet_string name default value) = value
  bytes_of (variable name data_type default value) = encode_raw data_type value

  unfoldable pub image : List (FramObj V) → List ℕ
  image [] = []
  image (obj ∷ objs) = bytes_of obj ++ image objs

overwrite-append :
    (pre raw rest : List ℕ)
    → overwrite (length pre) raw (pre ++ rest) ≡ (pre ++ raw) ++ drop (length raw) rest
overwrite-append pre raw rest =
    rw (take-append pre rest, drop-append_add pre rest (length raw))
      (sym (append_assoc pre raw (drop (length raw) rest)))

module _ {V Bus : Type 0} (codec : Codec V) (io : I2c Bus) (mem : Bus → List ℕ) where
  -- What a write behind `pre` leaves.
  pub write_behind :
      (pre raw rest : List ℕ) (s : With Fm24cl64b Bus)
      → IsFram io mem s
      → memory io mem s ≡ pre ++ rest
      → 0 < length raw
      → length raw ≤ length rest
      → let (r, s') = write io (length pre) raw s in
        (r ≡ ok tt) × (memory io mem s' ≡ (pre ++ raw) ++ drop (length raw) rest) × IsFram io mem s'
  write_behind pre raw rest s f m p h =
      let (done, written, f') =
        write_lem io mem (length pre) raw s f p
          (omega (arith, f.full, ap (λ (t : List ℕ). length t) m, length-append pre rest)) in
      (
        done,
        written
            ∙ ap (λ (t : List ℕ). overwrite (length pre) raw t) m
            ∙ overwrite-append pre raw rest,
        f',
      )

  -- A store of `objs` from `offset` on, behind `pre`, has put their bytes there.
  abbrev Stores : List (FramObj V) → ℕ → List ℕ → List ℕ → With Fm24cl64b Bus → Type 0
  Stores objs offset pre rest s =
      let (r, s') = store_objs codec io objs offset s in
      (r ≡ ok tt)
      × (memory io mem s' ≡ pre ++ (image codec objs ++ drop (length (image codec objs)) rest))
      × IsFram io mem s'

  image_behind :
      (pre raw img rest : List ℕ)
      → (pre ++ raw) ++ (img ++ drop (length img) (drop (length raw) rest))
        ≡ pre ++ ((raw ++ img) ++ drop (length (raw ++ img)) rest)
  image_behind pre raw img rest =
      rw (drop-drop, ← length-append raw img, append_assoc pre raw, append_assoc raw img)

  store_step :
      (raw : List ℕ) (objs : List (FramObj V)) (pre rest : List ℕ) (s : With Fm24cl64b Bus)
      → IsFram io mem s
      → memory io mem s ≡ pre ++ rest
      → 0 < length raw
      → length (raw ++ image codec objs) ≤ length rest
      → ((s' : With Fm24cl64b Bus)
          → IsFram io mem s'
          → memory io mem s' ≡ (pre ++ raw) ++ drop (length raw) rest
          → Stores objs (length (pre ++ raw)) (pre ++ raw) (drop (length raw) rest) s')
      → let (r, s') =
          (write io (length pre) raw >> store_objs codec io objs (length pre + length raw)) s in
        (r ≡ ok tt)
        × (memory io mem s'
            ≡ pre ++ ((raw ++ image codec objs) ++ drop (length (raw ++ image codec objs)) rest))
        × IsFram io mem s'
  store_step raw objs pre rest s f m p h go =
      let (done, after, f') =
        write_behind pre raw rest s f m p (omega (arith, length-append raw (image codec objs))) in
      let (r, m', f'') = rw length-append at (go (write io (length pre) raw s).1 f' after) in
      rw
        (>>-eq_ok (write io (length pre) raw) (store_objs codec io objs (length pre + length raw)) s
          done)
        (r, m' ∙ image_behind pre raw (image codec objs) rest, f'')

  store_objs_lem :
      (objs : List (FramObj V)) (pre rest : List ℕ) (s : With Fm24cl64b Bus)
      → Fits codec objs
      → IsFram io mem s
      → memory io mem s ≡ pre ++ rest
      → length (image codec objs) ≤ length rest
      → Stores objs (length pre) pre rest s
  unfolding store_objs image bytes_of
  store_objs_lem [] pre rest s fit f m h = (refl, m, f)
  store_objs_lem (domain name ∷ objs) pre rest s fit f m h =
      store_objs_lem objs pre rest s fit.1 f m h
  store_objs_lem (octet_string name default value ∷ objs) pre rest s fit f m h = rw (← fit.0.0) (
      store_step value objs pre rest s f m (rw fit.0.0 fit.0.1) h (λ s' f' m'.
        store_objs_lem objs (pre ++ value) (drop (length value) rest) s' fit.1 f' m'
          (omega (arith, length-drop (length value) rest, length-append value (image codec objs)))))
  store_objs_lem (variable name data_type default value ∷ objs) pre rest s fit f m h =
      let raw = codec.encode_raw data_type value in
      store_step raw objs pre rest s f m (rw fit.0.0 fit.0.1) h (λ s' f' m'.
        store_objs_lem objs (pre ++ raw) (drop (length raw) rest) s' fit.1 f' m'
          (omega (arith, length-drop (length raw) rest, length-append raw (image codec objs))))

  read_behind :
      (pre raw rest : List ℕ) (n : ℕ) (s : With Fm24cl64b Bus)
      → IsFram io mem s
      → memory io mem s ≡ pre ++ (raw ++ rest)
      → length raw ≡ n
      → 0 < n
      → read io (length pre) n s ≡ (ok raw, s)
  read_behind pre raw rest n s f m e p =
      read_lem io mem (length pre) n s f p (
        omega (
          arith,
          f.full,
          ap (λ (t : List ℕ). length t) m,
          length-append pre (raw ++ rest),
          length-append raw rest,
        ))
      ∙ rw (m, drop-append, ← e, take-append)

  or_pre_deploy_lem : (name : String) (raw : List ℕ) → 0 < length raw → or_pre_deploy name raw ≡ raw
  or_pre_deploy_lem name [] h = absurd (omega arith)
  or_pre_deploy_lem name (b ∷ bs) h = refl

  next_prefix :
      (pre raw img rest : List ℕ) → pre ++ ((raw ++ img) ++ rest) ≡ (pre ++ raw) ++ (img ++ rest)
  next_prefix pre raw img rest = rw (append_assoc raw img, append_assoc pre raw)

  restore_objs_lem :
      (objs : List (FramObj V)) (pre rest : List ℕ) (s : With Fm24cl64b Bus)
      → Fits codec objs
      → IsFram io mem s
      → memory io mem s ≡ pre ++ (image codec objs ++ rest)
      → restore_objs codec io (map blank objs) (length pre) s ≡ ((ok tt, objs), s)
  unfolding restore_objs image bytes_of blank
  restore_objs_lem [] pre rest s fit f m = refl
  restore_objs_lem (domain name ∷ objs) pre rest s fit f m =
      rw (restore_objs_lem objs pre rest s fit.1 f m)
  restore_objs_lem (octet_string name default value ∷ objs) pre rest s fit f m = ground (
    arith,
    read_behind pre value (image codec objs ++ rest) (length default) s f (rw append_assoc at m)
        fit.0.0 fit.0.1,
    length-append pre value,
    restore_objs_lem objs (pre ++ value) rest s fit.1 f
        (m ∙ next_prefix pre value (image codec objs) rest),
  )
  restore_objs_lem (variable name data_type default value ∷ objs) pre rest s fit f m =
      let raw = codec.encode_raw data_type value in
      ground (
        arith,
        read_behind pre raw (image codec objs ++ rest) (length (codec.encode_raw data_type default))
            s f (rw append_assoc at m) fit.0.0 fit.0.1,
        or_pre_deploy_lem name raw (rw fit.0.0 fit.0.1),
        length-append pre raw,
        restore_objs_lem objs (pre ++ raw) rest s fit.1 f
            (m ∙ next_prefix pre raw (image codec objs) rest),
      )

  store_state_lem :
      (status : ℕ) (objs : List (FramObj V)) (s : With Fm24cl64b Bus)
      → status ≢ pre_deploy
      → store_state codec io status objs s ≡ store_objs codec io objs 0 s
  unfolding store_state
  store_state_lem status objs s ne = ground arith

  -- In every state but PRE_DEPLOY the objects that fit the F-RAM are stored without an error, and
  -- a restart that restores them finds every object but those of the type DOMAIN, which are left
  -- alone, with the value that it had; DOMAIN objects have none.
  pub restore-store :
      (status : ℕ) (objs : List (FramObj V)) (s : With Fm24cl64b Bus)
      → status ≢ pre_deploy
      → Fits codec objs
      → length (image codec objs) ≤ fram_size
      → IsFram io mem s
      → let (r, s') = store_state codec io status objs s in
        (r ≡ ok tt) × (restore_state codec io (map blank objs) s' ≡ ((ok tt, objs), s'))
  unfolding store_state restore_state
  restore-store status objs s ne fit h f =
      let (done, m, f') = store_objs_lem objs [] (memory io mem s) s fit f refl (rw f.full h) in
      rw (store_state_lem status objs s ne) (
        done,
        restore_objs_lem objs [] (drop (length (image codec objs)) (memory io mem s)) _ fit f' m,
      )
