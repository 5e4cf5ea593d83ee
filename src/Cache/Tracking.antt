-- ===== src/Cache/Tracking.antt =====
-- `NodeTrackingCache` of coredis/cache.py: responses by key, command and arguments, with the messages
-- that invalidate them. The confidence, which is a float, and the connection are left out.
use Prim.{Discrete}
use coredis.Prelude.{ℕ, Bool, Option, none, some, List, [], ◌∷◌, if◌then◌else◌}
use coredis.Prelude.Int.{negsuc}
use coredis.Prelude.Partial.{◌>>=◌}
use coredis.Dict.{set_item}
use coredis.Names.{names_equal}
use coredis.Cache.{LruCache, get, insert, setdefault, remove, clear}
use coredis.Cache.Stats.{CacheStats, hit, miss, note_invalidation, mark_dirty, compact}

abbrev pub Responses : Type 0 → Type 0 → Type 0
Responses A V = LruCache (List ℕ) (LruCache A V)

pub record TrackingCache (A V : Type 0) : Type 0 where
  pub cache : LruCache (List ℕ) (Responses A V)
  pub stats : CacheStats

-- `LRUCache()`
abbrev pub empty_cache : {K V : Type 0} → LruCache K V
empty_cache = record { max_items = negsuc 0; entries = [] }

-- What a change of an item that the cache holds by reference makes of the cache.
unfoldable pub write : {K V : Type 0} → Discrete K → K → V → LruCache K V → LruCache K V
write eq key item c = record c { entries = set_item eq key item c.entries }

module _ {A V : Type 0} (eq : Discrete A) where
  -- The `get`s one after the other; the items that they find are the ones used last, also where the
  -- next one fails.
  unfoldable pub find_args : A → LruCache A V → Option V × LruCache A V
  find_args args c = elim (get eq args c) [ none ↦ (none, c) | some (v, after) ↦ (some v, after) ]

  unfoldable pub find_command : List ℕ → A → Responses A V → Option V × Responses A V
  unfolding find_args write
  find_command command args c = elim (get names_equal command c) [
    | none ↦ (none, c)
    | some (inner, after) ↦
        let (found, inner') = find_args args inner in
        (found, write names_equal command inner' after)
  ]

  unfoldable pub find_key :
      List ℕ
      → List ℕ
      → A
      → LruCache (List ℕ) (Responses A V)
      → Option V × LruCache (List ℕ) (Responses A V)
  unfolding find_command write
  find_key key command args c = elim (get names_equal key c) [
    | none ↦ (none, c)
    | some (inner, after) ↦
        let (found, inner') = find_command command args inner in
        (found, write names_equal key inner' after)
  ]

  -- `NodeTrackingCache.get`
  unfoldable pub get_response :
      List ℕ → List ℕ → A → TrackingCache A V → Option V × TrackingCache A V
  unfolding find_key
  get_response command key args t =
      let (found, cache) = find_key key command args t.cache in
      (
        found,
        elim found [
          | none ↦ record { cache = cache; stats = miss key t.stats }
          | some v ↦ record { cache = cache; stats = hit key t.stats }
        ],
      )

  -- `NodeTrackingCache.put`; `none` is a KeyError.
  unfoldable pub put_response :
      List ℕ → List ℕ → A → V → TrackingCache A V → Option (TrackingCache A V)
  unfolding write
  put_response command key args value t =
      setdefault names_equal key empty_cache t.cache >>= λ by_key.
      setdefault names_equal command empty_cache by_key.0 >>= λ by_command.
      insert eq args value by_command.0 >>= λ filled. some (record t {
        cache = write names_equal key (write names_equal command filled by_command.1) by_key.1;
      })

-- `NodeTrackingCache.invalidate`
unfoldable pub invalidate : {A V : Type 0} → List (List ℕ) → TrackingCache A V → TrackingCache A V
invalidate [] t = t
invalidate (key ∷ keys) t =
    invalidate keys
      (record { cache = remove names_equal key t.cache; stats = note_invalidation key t.stats })

-- `NodeTrackingCache.feedback`, but for the confidence
unfoldable pub feedback : {A V : Type 0} → List ℕ → Bool → TrackingCache A V → TrackingCache A V
unfolding invalidate
feedback key match t =
    let dirty = invalidate (key ∷ []) (record t { stats = mark_dirty key t.stats }) in
    if match then t else dirty

-- `NodeTrackingCache.reset`
unfoldable pub reset : {A V : Type 0} → TrackingCache A V → TrackingCache A V
reset t = record { cache = clear t.cache; stats = compact t.stats }
