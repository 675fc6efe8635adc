-- ===== src/Scripts/CmdShell/SdoLines.antt =====
-- The requests of the two SDO commands are read back by the card.
use oresat_c3_software.Prelude.{
  ℕ, ◌<◌, List, [], ◌∷◌, ◌≡◌, refl, arith, Bool, true, false, Option, none, some, if◌then◌else◌,
  length, eq_bytes,
}
use oresat_c3_software.Protocols.Struct.{int, bytes}
use oresat_c3_software.Protocols.EdlCommand.{co_sdo_read, co_sdo_write, req_body}
use oresat_c3_software.Protocols.EdlCommand.RoundTrip.{unpack_request-pack_request}
use oresat_c3_software.Scripts.CmdShell.{
  Line, Outcome, refused, raises, Python, is_hex, lower, true_word,
}
use oresat_c3_software.Scripts.CmdShell.Lines.{IsRead}
use oresat_c3_software.Scripts.CmdShell.Sdo.{
  DataType, boolean, integer, float, visible_string, domain, octet_string, another, OdValue,
  truth_value, number, real, text, octets, Dictionary, Configs, card_of, or_value_error, or_refused,
  or_raise, with_card, with_index, subindex_by, with_subindex, with_entry, sdo_read_words,
  with_value, or_ascii, object_of, sdo_write_words,
}

or_value_error-IsRead :
    (m : Option ℕ) (act : ℕ → Outcome)
    → ((n : ℕ) → m ≡ some n → IsRead (act n))
    → IsRead (or_value_error m act)
or_value_error-IsRead none act h = tt
or_value_error-IsRead (some n) act h = h n refl

or_refused-IsRead :
    (m : Option ℕ) (act : ℕ → Outcome)
    → ((n : ℕ) → m ≡ some n → IsRead (act n))
    → IsRead (or_refused m act)
or_refused-IsRead none act h = tt
or_refused-IsRead (some n) act h = h n refl

or_raise-IsRead :
    {A : Type 0} (m : Option A) (act : A → Outcome)
    → ((a : A) → m ≡ some a → IsRead (act a))
    → IsRead (or_raise m act)
or_raise-IsRead none act h = tt
or_raise-IsRead (some a) act h = h a refl

if-IsRead : (b : Bool) (o p : Outcome) → IsRead o → IsRead p → IsRead (if b then o else p)
if-IsRead true o p h k = h
if-IsRead false o p h k = k

module _ {Obj F : Type 0} (python : Python) (configs : Configs Obj F) where
  -- The three arguments name an entry of a card: its numbers fit the format of the request.
  pub record IsEntry (node index subindex : Line) : Type 0 where
    pub node_small : (n : ℕ) → card_of node configs.cards ≡ some n → n < 256
    pub index_hex : (n : ℕ) → python.hexadecimal index ≡ some n → n < 65536
    pub index_named : (od : Dictionary Obj) (n : ℕ) → od.index_of index ≡ some n → n < 65536
    pub subindex_hex : (n : ℕ) → python.hexadecimal subindex ≡ some n → n < 256
    pub subindex_named :
        (od : Dictionary Obj) (n : ℕ) → od.subindex_of index subindex ≡ some n → n < 256

  subindex_small :
      (is_variable : Option Bool) (by_name : Option ℕ) (n : ℕ)
      → ((k : ℕ) → by_name ≡ some k → k < 256)
      → subindex_by python configs is_variable by_name ≡ some n
      → n < 256
  subindex_small none by_name n small h = absurd (ground arith)
  subindex_small (some true) by_name n small h = ground arith
  subindex_small (some false) by_name n small h = small n h

  with_card-IsRead :
      (node : Line) (m : Option ℕ) (act : Dictionary Obj → ℕ → Outcome)
      → ((od : Dictionary Obj) (n : ℕ) → m ≡ some n → IsRead (act od n))
      → IsRead (with_card python configs node m act)
  with_card-IsRead node none act h = tt
  with_card-IsRead node (some n) act h =
      elim (configs.od_db node)
        as (λ x. IsRead (elim x as (λ _. Outcome) [ none ↦ raises | some od ↦ act od n ])) [
          | none ↦ tt
          | some od ↦ h od n refl
        ]

  with_entry-IsRead :
      (node index subindex : Line) (act : Dictionary Obj → ℕ → ℕ → ℕ → Outcome)
      → IsEntry node index subindex
      → ((od : Dictionary Obj) (n i k : ℕ) → n < 256 → i < 65536 → k < 256 → IsRead (act od n i k))
      → IsRead (with_entry python configs node index subindex act)
  with_entry-IsRead node index subindex act e h =
      if-IsRead (is_hex node) (or_value_error (python.hexadecimal node) (λ n. raises))
        (with_card python configs node (card_of node configs.cards) on_node)
        (or_value_error-IsRead (python.hexadecimal node) (λ n. raises) (λ n _. tt))
        (with_card-IsRead node (card_of node configs.cards) on_node (λ od n n_of.
          if-IsRead (is_hex index) (or_value_error (python.hexadecimal index) (on_index od n))
            (or_refused (od.index_of index) (on_index od n))
            (or_value_error-IsRead (python.hexadecimal index) (on_index od n)
              (λ i i_of. index-IsRead od n i (e.node_small n n_of) (e.index_hex i i_of)))
            (or_refused-IsRead (od.index_of index) (on_index od n)
              (λ i i_of. index-IsRead od n i (e.node_small n n_of) (e.index_named od i i_of)))))
    where
      on_index : Dictionary Obj → ℕ → ℕ → Outcome
      on_index od n i = with_subindex python configs od index i subindex (λ k. act od n i k)

      on_node : Dictionary Obj → ℕ → Outcome
      on_node od n = with_index python configs od index (on_index od n)

      index-IsRead :
          (od : Dictionary Obj) (n i : ℕ) → n < 256 → i < 65536 → IsRead (on_index od n i)
      index-IsRead od n i n_small i_small =
          if-IsRead (is_hex subindex)
            (or_value_error (python.hexadecimal subindex) (λ k. act od n i k))
            (or_refused
              (subindex_by python configs (od.is_variable i) (od.subindex_of index subindex))
              (λ k. act od n i k))
            (or_value_error-IsRead (python.hexadecimal subindex) (λ k. act od n i k)
              (λ k k_of. h od n i k n_small i_small (e.subindex_hex k k_of)))
            (or_refused-IsRead
              (subindex_by python configs (od.is_variable i) (od.subindex_of index subindex))
              (λ k. act od n i k)
              (λ k k_of. h od n i k n_small i_small (
                subindex_small (od.is_variable i) (od.subindex_of index subindex) k
                  (e.subindex_named od) k_of)))

  -- The request of `sdo_read` is read back as it was written.
  query_words-IsRead :
      (node index subindex : Line)
      → IsEntry node index subindex
      → IsRead (sdo_read_words python configs (node ∷ index ∷ subindex ∷ []))
  unfolding req_body
  query_words-IsRead node index subindex e =
      with_entry-IsRead node index subindex _ e (λ od n i k n_small i_small k_small.
        unpack_request-pack_request co_sdo_read (int n ∷ int i ∷ int k ∷ [])
          (n_small, (i_small, (k_small, tt))))

  with_value-IsRead :
      (type : DataType) (word : Line) (act : OdValue F → Outcome)
      → ((v : OdValue F) → IsRead (act v))
      → IsRead (with_value python configs type word act)
  unfolding with_value
  with_value-IsRead boolean word act h = h (truth_value (eq_bytes (lower word) true_word))
  with_value-IsRead integer word act h =
      if-IsRead (is_hex word) (or_value_error (python.hexadecimal word) (λ n. act (number n)))
        (or_value_error (python.decimal word) (λ n. act (number n)))
        (or_value_error-IsRead (python.hexadecimal word) (λ n. act (number n))
          (λ n _. h (number n)))
        (or_value_error-IsRead (python.decimal word) (λ n. act (number n)) (λ n _. h (number n)))
  with_value-IsRead float word act h =
      or_raise-IsRead (configs.to_float word) (λ x. act (real x)) (λ x _. h (real x))
  with_value-IsRead visible_string word act h = h (text word)
  with_value-IsRead domain word act h =
      elim (configs.read_file word)
        as (λ x.
          IsRead (elim x as (λ _. Outcome) [ none ↦ refused | some raw ↦ act (octets raw) ])) [
            | none ↦ tt
            | some raw ↦ h (octets raw)
          ]
  with_value-IsRead octet_string word act h =
      or_raise-IsRead (or_ascii python configs (configs.from_hex word) word)
        (λ raw. act (octets raw)) (λ raw _. h (octets raw))
  with_value-IsRead another word act h = tt

  -- The request of `sdo_write` is read back as it was written, with data of less than 2 ^ 32 bytes.
  data_words-IsRead :
      (node index subindex value : Line)
      → IsEntry node index subindex
      → ((obj : Obj) (v : OdValue F) (raw : List ℕ)
          → configs.encode_raw obj v ≡ some raw
          → length raw < 4294967296)
      → IsRead (sdo_write_words python configs (node ∷ index ∷ subindex ∷ value ∷ []))
  unfolding req_body
  data_words-IsRead node index subindex value e short =
      with_entry-IsRead node index subindex _ e (λ od n i k n_small i_small k_small.
        or_raise-IsRead (object_of python configs (od.is_variable i) od i k) _ (λ obj _.
          with_value-IsRead (configs.data_type obj) value _ (λ v.
            or_raise-IsRead (configs.encode_raw obj v) _ (λ raw raw_of.
              unpack_request-pack_request co_sdo_write
                (int n ∷ int i ∷ int k ∷ int (length raw) ∷ bytes raw ∷ [])
                (record {
                  head = int n ∷ int i ∷ int k ∷ int (length raw) ∷ [];
                  tail = raw;
                  split = refl;
                  sized = refl;
                  fits = (n_small, (i_small, (k_small, (short obj v raw raw_of, tt))));
                })))))
