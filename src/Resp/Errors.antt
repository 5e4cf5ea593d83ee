-- ===== src/Resp/Errors.antt =====
-- `Parser.parse_error` and `Parser.EXCEPTION_CLASSES` of coredis/parser.py, and the constructors of
-- coredis/exceptions.py that read the message.
use Prim.Native.Char.{code}
use Prim.Native.String.{String}
use coredis.Prelude.{
  ℕ, suc, ◌+◌, ◌-◌, Bool, true, false, ◌&&◌, Option, none, some, List, [], ◌∷◌, ◌++◌, ◌==◌, leb,
  if◌then◌else◌, length, drop,
}
use coredis.Prelude.Partial.{◌>>=◌}
use coredis.Resp.Value.{
  Value, ErrorClass, error, same_codes, ask_error, stream_duplicate_consumer_group_error,
  cluster_down_error, cluster_cross_slot_error, connection_error, unknown_command_error,
  exec_abort_error, busy_loading_error, no_script_error, moved_error, authentication_required_error,
  stream_consumer_group_error, no_key_error, authorization_error, protocol_error, not_busy_error,
  read_only_error, try_again_error, unblocked_error, authentication_failure_error, wrong_type_error,
  response_error,
}
use coredis.Resp.Number.{parse_int}

-- The code points of a literal.
abbrev pub codes : String → List ℕ
codes String.[] = []
codes (String.◌∷◌ c s) = code c ∷ codes s

-- A value of `EXCEPTION_CLASSES`: a class, or classes by the start of the message.
pub data Entry : Type 0 where
  one : ErrorClass → Entry
  by_start : List (List ℕ × ErrorClass) → Entry

unfoldable pub exception_classes : List (List ℕ × Entry)
exception_classes =
    (codes "ASK", one ask_error)
    ∷ (codes "BUSYGROUP", one stream_duplicate_consumer_group_error)
    ∷ (codes "CLUSTERDOWN", one cluster_down_error)
    ∷ (codes "CROSSSLOT", one cluster_cross_slot_error)
    ∷ (
      codes "ERR",
      by_start (
          (codes "max number of clients reached", connection_error)
          ∷ (codes "unknown command", unknown_command_error)
          ∷ (codes "unknown subcommand", unknown_command_error)
          ∷ (codes "sub command not supported", unknown_command_error)
          ∷ []),
    )
    ∷ (codes "EXECABORT", one exec_abort_error)
    ∷ (codes "LOADING", one busy_loading_error)
    ∷ (codes "NOSCRIPT", one no_script_error)
    ∷ (codes "MOVED", one moved_error)
    ∷ (codes "NOAUTH", one authentication_required_error)
    ∷ (codes "NOGROUP", one stream_consumer_group_error)
    ∷ (codes "NOKEY", one no_key_error)
    ∷ (codes "NOPERM", one authorization_error)
    ∷ (codes "NOPROTO", one protocol_error)
    ∷ (codes "NOTBUSY", one not_busy_error)
    ∷ (codes "READONLY", one read_only_error)
    ∷ (codes "TRYAGAIN", one try_again_error)
    ∷ (codes "UNBLOCKED", one unblocked_error)
    ∷ (codes "WRONGPASS", one authentication_failure_error)
    ∷ (codes "WRONGTYPE", one wrong_type_error)
    ∷ []

-- `text.split(" ")[0]`
unfoldable pub first_word : List ℕ → List ℕ
first_word [] = []
first_word (c ∷ rest) = let more = c ∷ first_word rest in if c == b' ' then [] else more

unfoldable pub find_class : List ℕ → List (List ℕ × Entry) → Option Entry
unfolding same_codes
find_class word [] = none
find_class word ((name, entry) ∷ rest) =
    if same_codes name word then some entry else find_class word rest

-- `c.lower()`, where that can be an ASCII letter: A to Z and the Kelvin sign. (The one other such
-- character is the capital I with a dot above, which becomes two.)
unfoldable pub lower : List ℕ → List ℕ
lower [] = []
lower (c ∷ rest) =
    let more = lower rest in
    if leb b'A' c && leb c b'Z'
    then (c + 32) ∷ more
    else if c == 0x212A
    then b'k' ∷ more
    else if c == 0x130
    then b'i' ∷ 0x307 ∷ more
    else c ∷ more

unfoldable pub starts_with : List ℕ → List ℕ → Bool
starts_with [] text = true
starts_with (p ∷ prefix) [] = false
starts_with (p ∷ prefix) (c ∷ text) = p == c && starts_with prefix text

unfoldable pub class_by_start : List ℕ → List (List ℕ × ErrorClass) → ErrorClass
unfolding starts_with
class_by_start text [] = response_error
class_by_start text ((start, c) ∷ rest) =
    if starts_with start text then c else class_by_start text rest

-- `resp.split(" ")` when it has two parts
unfoldable pub split_two : List ℕ → Option (List ℕ × List ℕ)
unfolding first_word
split_two text =
    let left = first_word text in
    let right = drop (length left + 1) text in
    if length left + 1 + length (first_word right) == length text then some (left, right) else none

-- `new_node.rsplit(":", 1)` when it has two parts
unfoldable pub split_last_colon : List ℕ → Option (List ℕ × List ℕ)
split_last_colon [] = none
split_last_colon (c ∷ rest) = elim (split_last_colon rest) [
  | some (host, port) ↦ some (c ∷ host, port)
  | none ↦ if c == b':' then some ([], rest) else none
]

-- `AskError.__init__`, which a MOVED error shares: the slot and the address of the node. `none` is
-- the ValueError of an unpacking or of an `int`.
pub record Redirect : Type 0 where
  pub slot_id : coredis.Prelude.Int.ℤ
  pub host : List ℕ
  pub port : coredis.Prelude.Int.ℤ

unfoldable pub redirect : List ℕ → Option Redirect
unfolding split_two split_last_colon
redirect resp = do
  (slot_id, new_node) ← split_two resp
  (host, port) ← split_last_colon new_node
  slot ← parse_int slot_id
  p ← parse_int port
  some (record { slot_id = slot; host = host; port = p })

unfoldable pub construct : ErrorClass → List ℕ → Option Value
unfolding redirect
construct ask_error text = redirect text >>= λ r. some (error ask_error text)
construct moved_error text = redirect text >>= λ r. some (error moved_error text)
construct c text = some (error c text)

unfoldable pub parse_error : List ℕ → Option Value
unfolding exception_classes find_class class_by_start lower construct first_word
parse_error response =
    let error_code = first_word response in
    let message = drop (length error_code + 1) response in
    elim (find_class error_code exception_classes) [
      | none ↦ some (error response_error response)
      | some (one c) ↦ construct c message
      | some (by_start options) ↦ construct (class_by_start (lower message) options) message
    ]
