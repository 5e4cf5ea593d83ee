-- ===== src/Streams.antt =====
-- `Consumer` of coredis/stream.py. The name of a stream is its codes, which is what
-- `EncodingInsensitiveDict` compares; a dict is an association list.
pub mod Get
pub mod Deliver
pub mod Asked
pub mod Handed
pub mod Gave
pub mod Calls
pub mod Identifier
pub mod Tests
use coredis.Prelude.{
  ℕ, zero, suc, ◌+◌, Bool, true, false, not, Option, none, some, List, [], ◌∷◌, ◌++◌, if◌then◌else◌,
  ltb, map,
}
use mathlib.Core.Option
use coredis.Dict.{find, set_item}
use coredis.Names.{Names, names_equal}

-- `StreamEntry`
pub record Entry : Type 0 where
  pub identifier : List ℕ
  pub field_values : List (List ℕ × List ℕ)

pub record Consumer : Type 0 where
  pub streams : List (List ℕ)
  pub state : Names (Option (List ℕ))
  pub buffer : Names (List Entry)
  pub buffer_size : ℕ
  pub timeout : Option ℕ
  pub initialized : Bool
  pub initialized_streams : Names (Unit {0})

-- How XINFO STREAM and XREAD end. `info` has the last entry, if there is one, and `nothing` is a
-- reply that is falsy.
pub data InfoAnswer (E : Type 0) : Type 0 where
  info : Option Entry → InfoAnswer E
  no_info : InfoAnswer E
  response_error : InfoAnswer E
  info_exception : E → InfoAnswer E

pub data ReadAnswer (E : Type 0) : Type 0 where
  entries : Names (List Entry) → ReadAnswer E
  nothing : ReadAnswer E
  read_exception : E → ReadAnswer E

pub record Client (S E : Type 0) : Type 0 where
  pub is_cluster : Bool
  pub xinfo_stream : List ℕ → S → InfoAnswer E × S
  pub xread : Names (List ℕ) → ℕ → Option ℕ → S → ReadAnswer E × S

pub data Outcome (E A : Type 0) : Type 0 where
  done : A → Outcome E A
  key_error : Outcome E A
  raised : E → Outcome E A

-- `Consumer.DEFAULT_START_ID`
abbrev pub default_start_id : List ℕ
default_start_id = b'0' ∷ b'-' ∷ b'0' ∷ []

unfoldable pub or_empty : {A : Type 0} → Option (List A) → List A
or_empty none = []
or_empty (some xs) = xs

unfoldable initial_state : Names (List ℕ) → List (List ℕ) → Names (Option (List ℕ))
initial_state parameters [] = []
initial_state parameters (s ∷ ss) =
    set_item names_equal s (find names_equal s parameters) (initial_state parameters ss)

-- `Consumer.__init__`; of the parameters of a stream only `identifier` is used.
unfoldable pub init : List (List ℕ) → ℕ → Option ℕ → Names (List ℕ) → Consumer
unfolding initial_state
init streams buffer_size timeout stream_parameters = record {
  streams = streams;
  state = initial_state stream_parameters streams;
  buffer = [];
  buffer_size = buffer_size;
  timeout = timeout;
  initialized = false;
  initialized_streams = [];
}

-- `identifier or DEFAULT_START_ID`
unfoldable pub start_of : Option (List ℕ) → List ℕ
start_of (some (c ∷ cs)) = c ∷ cs
start_of _ = default_start_id

-- `none` is a KeyError.
unfoldable pub start_ids : List (List ℕ) → Names (Option (List ℕ)) → Option (Names (List ℕ))
unfolding start_of
start_ids [] state = some []
start_ids (s ∷ ss) state = elim (find names_equal s state) [
  | none ↦ none
  | some id ↦ Option.map (λ ids. (s, start_of id) ∷ ids) (start_ids ss state)
]

-- `self.state[stream].setdefault("identifier", identifier)`
unfoldable pub default_id :
    List ℕ → List ℕ → Names (Option (List ℕ)) → Option (Names (Option (List ℕ)))
default_id stream id state = elim (find names_equal stream state) [
  | none ↦ none
  | some none ↦ some (set_item names_equal stream (some id) state)
  | some (some old) ↦ some state
]

-- `self.buffer.setdefault(stream, []).extend(more)`
unfoldable pub extend : List ℕ → List Entry → Names (List Entry) → Names (List Entry)
unfolding or_empty
extend stream more buffer =
    set_item names_equal stream (or_empty (find names_equal stream buffer) ++ more) buffer

unfoldable pub extend_rest : List ℕ → List Entry → Names (List Entry) → Names (List Entry)
unfolding extend
extend_rest stream [] buffer = buffer
extend_rest stream (e ∷ es) buffer = extend stream (e ∷ es) buffer

-- The loop over the buffered entries, where it ends with a `break`.
unfoldable pub take_buffered : Names (List Entry) → Option ((List ℕ × Entry) × Names (List Entry))
take_buffered [] = none
take_buffered ((s, []) ∷ rest) = Option.map (λ r. (r.0, (s, []) ∷ r.1)) (take_buffered rest)
take_buffered ((s, e ∷ es) ∷ rest) = some ((s, e), (s, es) ∷ rest)

-- The loop over the consumed entries, with `cur_stream` and `cur`.
unfoldable pub distribute :
    Names (List Entry)
    → Option (List ℕ × Entry)
    → Names (List Entry)
    → Option (List ℕ × Entry) × Names (List Entry)
unfolding extend extend_rest
distribute [] got buffer = (got, buffer)
distribute ((s, []) ∷ rest) got buffer = distribute rest got buffer
distribute ((s, e ∷ es) ∷ rest) none buffer =
    distribute rest (some (s, e)) (extend_rest s es buffer)
distribute ((s, e ∷ es) ∷ rest) (some g) buffer =
    distribute rest (some g) (extend s (e ∷ es) buffer)

-- `dict.update`
unfoldable pub update : Names (List Entry) → Names (List Entry) → Names (List Entry)
update [] consumed = consumed
update ((s, es) ∷ more) consumed = update more (set_item names_equal s es consumed)

-- `self.timeout if (self.timeout and self.timeout > 0) else None`
unfoldable pub block_of : Option ℕ → Option ℕ
block_of (some (suc n)) = some (suc n)
block_of _ = none
