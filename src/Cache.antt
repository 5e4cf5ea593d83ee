-- ===== src/Cache.antt =====
-- `LRUCache` of coredis/cache.py, without its byte limit. An `OrderedDict` is a list of its entries
-- with the oldest at the head; `none` is a KeyError.
pub mod Laws
pub mod Stats
pub mod Tracking
pub mod Invalidated
pub mod Counted
pub mod Stored
pub mod Tracked
pub mod Tests
use Prim.{Discrete}
use coredis.Prelude.{
  ℕ, zero, suc, Bool, true, false, Option, none, some, List, [], ◌∷◌, ◌++◌, ◌==◌, if◌then◌else◌,
  length,
}
use coredis.Prelude.Int.{ℤ, pos, negsuc}
use coredis.Prelude.Partial.{◌>>=◌}
use coredis.Dict.{find, delete, set_item, move_to_end}

pub record LruCache (K V : Type 0) : Type 0 where
  pub max_items : ℤ
  pub entries : List (K × V)

-- `len(self.__cache) == self.max_items`
unfoldable pub is_full : ℤ → ℕ → Bool
is_full (pos n) size = size == n
is_full (negsuc n) size = false

module _ {K V : Type 0} where
  -- `popitem(last=False)`
  unfoldable pub pop_oldest : LruCache K V → Option (LruCache K V)
  pop_oldest c = elim c.entries [ [] ↦ none | e ∷ rest ↦ some (record c { entries = rest }) ]

  unfoldable pub check_capacity : LruCache K V → Option (LruCache K V)
  unfolding pop_oldest is_full
  check_capacity c = if is_full c.max_items (length c.entries) then pop_oldest c else some c

  unfoldable pub clear : LruCache K V → LruCache K V
  clear c = record c { entries = [] }

  -- `popitem`. `inner` is the same method of an item that is itself a cache, with the item that it
  -- leaves, and (false, item) for any other item.
  unfoldable pub popitem : (V → Bool × V) → LruCache K V → Bool × LruCache K V
  popitem inner c = elim c.entries [
    | [] ↦ (false, c)
    | (key, item) ∷ rest ↦
        let (popped, left) = inner item in
        (true, record c { entries = if popped then (key, left) ∷ rest else rest })
  ]

  module _ (eq : Discrete K) where
    unfoldable pub get : K → LruCache K V → Option (V × LruCache K V)
    get key c = find eq key c.entries >>= λ value.
        some (value, record c { entries = move_to_end eq key value c.entries })

    unfoldable pub insert : K → V → LruCache K V → Option (LruCache K V)
    insert key value c = check_capacity c >>= λ room.
        some
          (record room { entries = move_to_end eq key value (set_item eq key value room.entries) })

    -- The KeyError of `__check_capacity` is caught like that of `get`, and what it has removed stays
    -- removed.
    unfoldable pub setdefault : K → V → LruCache K V → Option (V × LruCache K V)
    setdefault key value c = elim (check_capacity c) [
      | none ↦ insert key value c >>= λ filled. get key filled
      | some room ↦ elim (get key room) [
        | some found ↦ some found
        | none ↦ insert key value room >>= λ filled. get key filled
      ]
    ]

    unfoldable pub remove : K → LruCache K V → LruCache K V
    remove key c = record c { entries = delete eq key c.entries }
