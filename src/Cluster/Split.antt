-- ===== src/Cluster/Split.antt =====
-- `_split_args_over_nodes` of coredis/client/cluster.py. The command and its
-- arguments are bytes.
use coredis.Prelude.{
  ℕ, suc, ◌-◌, Bool, true, false, ◌&&◌, not, Option, none, some, List, [], ◌∷◌, ◌++◌, map, take,
  drop, if◌then◌else◌,
}
use coredis.Prelude.Partial.{◌>>=◌}
use coredis.Dict.{find, set_item, same}
use coredis.Resp.Packer.{Argument, raw}
use coredis.KeySpec.Spec.{Extraction, extracted, failed, Failure}
use coredis.KeySpec.Extract.{extract_keys}
use coredis.NodeManager.{ManagedNode, Manager, Names, names_equal, name_of}
use coredis.NodeManager.Keys.{Grouping, or_empty, keys_to_nodes_by_slot}
use coredis.Cluster.{Router, is_split, is_found}

abbrev pub Args : Type 0
Args = List (List ℕ)

-- The bytes of arguments that are bytes.
unfoldable pub raw_bytes : List Argument → Option Args
raw_bytes [] = some []
raw_bytes (raw bytes ∷ args) = raw_bytes args >>= λ more. some (bytes ∷ more)
raw_bytes (a ∷ args) = none

-- `KeySpec.extract_keys(command, *args)`
unfoldable pub keys_of : List ℕ → Args → Bool → Extraction (List Argument)
unfolding extract_keys
keys_of command args readonly_command =
    extract_keys (λ name. []) (raw command ∷ map (λ a. raw a) args) readonly_command

unfoldable pub next_index : Option ℕ → Option ℕ
next_index none = none
next_index (some n) = some (suc n)

-- `args.index(x)`, where `none` is a ValueError
unfoldable pub index : List ℕ → Args → Option ℕ
unfolding same next_index
index x [] = none
index x (a ∷ args) =
    let later = index x args in if same names_equal x a then some 0 else next_index later

-- `keys[-1]`, of keys from `k` on
unfoldable pub last_of : List ℕ → Args → List ℕ
last_of k [] = k
last_of k (j ∷ keys) = last_of j keys

unfoldable pub same_args : Args → Args → Bool
unfolding same
same_args [] [] = true
same_args (a ∷ args) (b ∷ others) = same names_equal a b && same_args args others
same_args _ _ = false

-- The portions of the arguments by the names of the nodes.
abbrev pub Portions : Type 0
Portions = Names (List Args)

-- `setdefault(node_name, []).append(portion)`, for the groups of keys of a node
unfoldable pub add_portions : List ℕ → Args → Args → List (ℕ × Args) → Portions → Portions
unfolding or_empty
add_portions name front back [] portions = portions
add_portions name front back ((slot, keys) ∷ groups) portions =
    add_portions name front back groups (
      set_item names_equal name
        (or_empty (find names_equal name portions) ++ (front ++ (keys ++ back)) ∷ []) portions)

unfoldable pub portion_args : Args → Args → Grouping → Portions → Portions
unfolding add_portions
portion_args front back [] portions = portions
portion_args front back ((name, groups) ∷ mapping) portions =
    portion_args front back mapping (add_portions name front back groups portions)

-- How a split ends: with the portions and the keys that the cache forgets, or with an exception.
pub data Split : Type 0 where
  portioned : Portions → Args → Split
  unmapped value_error key_error : Split
  spec_error : Failure → Split

-- The slice of the arguments, which must be the keys; and the arguments that stand around it.
unfoldable pub around : ℕ → ℕ → Args → Args × Args × Args
around start end args =
    (take (suc end - start) (drop start args), take start args, drop (suc end) args)

unfoldable pub grouped : Args → Args → Args → Option Grouping → Split
unfolding portion_args
grouped front back forgotten none = key_error
grouped front back forgotten (some mapping) =
    portioned (portion_args front back mapping []) forgotten

-- The assertion, and the portions.
unfoldable pub checked : Manager → Args → Args → Args → Args → Args → Split
unfolding same_args grouped
checked m keys forgotten slice front back =
    if same_args slice keys
    then grouped front back forgotten (keys_to_nodes_by_slot m keys)
    else unmapped

unfoldable pub split_between : Manager → Args → Args → Args → ℕ → ℕ → Split
unfolding around checked
split_between m args keys forgotten start end =
    let (slice, front, back) = around start end args in checked m keys forgotten slice front back

-- Where `args.index` finds no key, it raises a ValueError.
unfoldable pub between_indices : Manager → Args → Args → Args → Option ℕ → Option ℕ → Split
unfolding split_between
between_indices m args keys forgotten (some start) (some end) =
    split_between m args keys forgotten start end
between_indices m args keys forgotten _ _ = value_error

unfoldable pub split_by_keys : Manager → Args → Args → Args → Split
unfolding index last_of between_indices
split_by_keys m args [] forgotten = portioned [] forgotten
split_by_keys m args (k ∷ keys) forgotten =
    between_indices m args (k ∷ keys) forgotten (index k args) (index (last_of k keys) args)

-- `if self.cache and command not in READONLY_COMMANDS`
unfoldable pub forgotten_keys : Router → List ℕ → Args → Args
unfolding is_found
forgotten_keys r command keys =
    if r.cached && not (is_found (find names_equal command r.readonly_commands)) then keys else []

-- `none` is for keys that are not bytes, which those of arguments that are bytes never are.
unfoldable pub split_bytes : Router → Manager → List ℕ → Args → Option Args → Split
unfolding split_by_keys forgotten_keys
split_bytes r m command args none = value_error
split_bytes r m command args (some keys) = split_by_keys m args keys (forgotten_keys r command keys)

unfoldable pub split_keys : Router → Manager → List ℕ → Args → Extraction (List Argument) → Split
unfolding raw_bytes split_bytes
split_keys r m command args (failed e) = spec_error e
split_keys r m command args (extracted keys) = split_bytes r m command args (raw_bytes keys)

-- `{node.name: [args] for node in nodes}`
unfoldable pub same_for_all : List ManagedNode → Args → Portions → Portions
unfolding name_of
same_for_all [] args portions = portions
same_for_all (n ∷ nodes) args portions =
    same_for_all nodes args (set_item names_equal (name_of n) (args ∷ []) portions)

unfoldable pub split_args_over_nodes : Router → Manager → List ManagedNode → List ℕ → Args → Split
unfolding is_split keys_of split_keys same_for_all
split_args_over_nodes r m nodes command args =
    if is_split r command
    then split_keys r m command args (keys_of command args false)
    else portioned (same_for_all nodes args []) []
