-- ===== src/Scripts/CmdShell/Sdo.antt =====
-- scripts/edl_cmd_shell.py: `do_sdo_read` and `do_sdo_write`. The object dictionaries of canopen
-- and the conversions of Python are parameters; `none` is an exception of theirs.
use oresat_c3_software.Prelude.{
  ℕ, zero, suc, ◌==◌, List, [], ◌∷◌, Bool, true, false, Option, none, some, if◌then◌else◌, length,
  eq_bytes,
}
use oresat_c3_software.Protocols.Struct.{int, bytes}
use oresat_c3_software.Protocols.EdlCommand.{co_sdo_read, co_sdo_write}
use oresat_c3_software.Scripts.CmdShell.{
  Line, Outcome, shows_help, refused, value_error, raises, sends, Python, is_hex, split, push,
  lower, true_word,
}

-- The types of an entry that `do_sdo_write` tells apart.
pub data DataType : Type 0 where
  boolean integer float visible_string domain octet_string another : DataType

-- What is encoded: a bool, a number, a float, a string or bytes.
pub data OdValue (F : Type 0) : Type 0 where
  truth_value : Bool → OdValue F
  number : ℕ → OdValue F
  real : F → OdValue F
  text : Line → OdValue F
  octets : List ℕ → OdValue F

-- An object dictionary: `od[name].index`, whether `od[index]` is a variable, the subindex of
-- `od[name][sub]`, and the entries.
pub record Dictionary (Obj : Type 0) : Type 0 where
  pub index_of : Line → Option ℕ
  pub is_variable : ℕ → Option Bool
  pub subindex_of : Line → Line → Option ℕ
  pub variable : ℕ → Option Obj
  pub entry : ℕ → ℕ → Option Obj

-- `self.configs`: the node ids of the cards, and the dictionaries by the cards' names.
pub record Configs (Obj F : Type 0) : Type 0 where
  pub cards : List (Line × ℕ)
  pub od_db : Line → Option (Dictionary Obj)
  pub data_type : Obj → DataType
  pub encode_raw : Obj → OdValue F → Option (List ℕ)
  pub to_float : Line → Option F
  pub read_file : Line → Option (List ℕ)
  pub from_hex : Line → Option (List ℕ)
  pub to_ascii : Line → Option (List ℕ)

-- `name in cards`, with its node id.
unfoldable pub card_of : Line → List (Line × ℕ) → Option ℕ
card_of name [] = none
card_of name (card ∷ cards) = if eq_bytes card.0 name then some card.1 else card_of name cards

-- `split(" ", maxsplit=n)`
unfoldable pub split_at_most : ℕ → Line → List Line
split_at_most zero line = line ∷ []
split_at_most (suc n) [] = [] ∷ []
split_at_most (suc n) (c ∷ line) =
    let behind = split_at_most n line in
    let within = split_at_most (suc n) line in if c == 32 then [] ∷ behind else push c within

-- `int(text, 16)` in an argument that begins with `0x`.
abbrev pub or_value_error : Option ℕ → (ℕ → Outcome) → Outcome
or_value_error none act = value_error
or_value_error (some n) act = act n

-- A look-up in a `try` that refuses the argument.
abbrev pub or_refused : Option ℕ → (ℕ → Outcome) → Outcome
or_refused none act = refused
or_refused (some n) act = act n

-- An exception that gets out.
abbrev pub or_raise : {A : Type 0} → Option A → (A → Outcome) → Outcome
or_raise none act = raises
or_raise (some a) act = act a

module _ {Obj F : Type 0} (python : Python) (configs : Configs Obj F) where
  -- The node; one that is given in hex is looked for among the names, which have no `node_id`.
  abbrev pub with_card : Line → Option ℕ → (Dictionary Obj → ℕ → Outcome) → Outcome
  with_card node none act = refused
  with_card node (some node_id) act = elim (configs.od_db node) [
    | none ↦ raises
    | some od ↦ act od node_id
  ]

  abbrev pub with_node : Line → (Dictionary Obj → ℕ → Outcome) → Outcome
  with_node node act =
      if is_hex node
      then or_value_error (python.hexadecimal node) (λ n. raises)
      else with_card node (card_of node configs.cards) act

  abbrev pub with_index : Dictionary Obj → Line → (ℕ → Outcome) → Outcome
  with_index od index act =
      if is_hex index
      then or_value_error (python.hexadecimal index) act
      else or_refused (od.index_of index) act

  -- `od[index]` is looked at before the name of the subindex.
  abbrev pub subindex_by : Option Bool → Option ℕ → Option ℕ
  subindex_by none by_name = none
  subindex_by (some true) by_name = some 0
  subindex_by (some false) by_name = by_name

  abbrev pub with_subindex : Dictionary Obj → Line → ℕ → Line → (ℕ → Outcome) → Outcome
  with_subindex od index i subindex act =
      if is_hex subindex
      then or_value_error (python.hexadecimal subindex) act
      else or_refused (subindex_by (od.is_variable i) (od.subindex_of index subindex)) act

  -- The three arguments that both commands begin with.
  abbrev pub with_entry : Line → Line → Line → (Dictionary Obj → ℕ → ℕ → ℕ → Outcome) → Outcome
  with_entry node index subindex act = with_node node (λ od node_id.
      with_index od index (λ i. with_subindex od index i subindex (λ k. act od node_id i k)))

  -- `do_sdo_read`, up to its packet.
  abbrev pub sdo_read_words : List Line → Outcome
  sdo_read_words (node ∷ index ∷ subindex ∷ []) =
      with_entry node index subindex
        (λ od node_id i k. sends co_sdo_read (some (int node_id ∷ int i ∷ int k ∷ [])))
  sdo_read_words _ = shows_help

  unfoldable pub do_sdo_read : Line → Outcome
  do_sdo_read arg = sdo_read_words (split arg)

  abbrev pub or_ascii : Option (List ℕ) → Line → Option (List ℕ)
  or_ascii (some raw) word = some raw
  or_ascii none word = configs.to_ascii word

  -- The value by the type of the entry.
  unfoldable pub with_value : DataType → Line → (OdValue F → Outcome) → Outcome
  with_value boolean word act = act (truth_value (eq_bytes (lower word) true_word))
  with_value integer word act =
      if is_hex word
      then or_value_error (python.hexadecimal word) (λ n. act (number n))
      else or_value_error (python.decimal word) (λ n. act (number n))
  with_value float word act = or_raise (configs.to_float word) (λ x. act (real x))
  with_value visible_string word act = act (text word)
  with_value domain word act = elim (configs.read_file word) [
    | none ↦ refused
    | some raw ↦ act (octets raw)
  ]
  with_value octet_string word act =
      or_raise (or_ascii (configs.from_hex word) word) (λ raw. act (octets raw))
  with_value another word act = refused

  -- `od[index]` or `od[index][subindex]`
  abbrev pub object_of : Option Bool → Dictionary Obj → ℕ → ℕ → Option Obj
  object_of none od i k = none
  object_of (some true) od i k = od.variable i
  object_of (some false) od i k = od.entry i k

  abbrev pub write_packet : ℕ → ℕ → ℕ → List ℕ → Outcome
  write_packet node_id i k raw =
      sends co_sdo_write (some (int node_id ∷ int i ∷ int k ∷ int (length raw) ∷ bytes raw ∷ []))

  -- `do_sdo_write`, up to its packet.
  abbrev pub sdo_write_words : List Line → Outcome
  sdo_write_words (node ∷ index ∷ subindex ∷ value ∷ []) =
      with_entry node index subindex (λ od node_id i k.
        or_raise (object_of (od.is_variable i) od i k) (λ obj.
          with_value (configs.data_type obj) value
            (λ v. or_raise (configs.encode_raw obj v) (λ raw. write_packet node_id i k raw))))
  sdo_write_words _ = shows_help

  unfoldable pub do_sdo_write : Line → Outcome
  do_sdo_write arg = sdo_write_words (split_at_most 3 arg)
