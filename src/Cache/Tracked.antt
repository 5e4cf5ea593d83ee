-- ===== src/Cache/Tracked.antt =====
-- Runs of the tracking cache, and the theorems at them.
use coredis.Prelude.{ℕ, ◌≡◌, refl, none, some, [], ◌∷◌, ℕ_discrete, if◌then◌else◌}
use coredis.Prelude.Int.{pos}
use coredis.Dict.{find, set_item, delete, move_to_end, Distinct}
use coredis.Names.{names_equal}
use coredis.Resp.Errors.{codes}
use mathlib.Core.Option
use coredis.Cache.{get, insert, setdefault, check_capacity}
use coredis.Cache.Stats.{CacheStats, summary, compact}
use coredis.Cache.Tracking.{TrackingCache, get_response, put_response, invalidate, empty_cache}
use coredis.Cache.Counted.{after_get, get_response-summary}
use coredis.Cache.Invalidated.{among, get_response-invalidate}
use coredis.Cache.Stored.{IsTidy, get_response-put_response}

abbrev no_stats : CacheStats
no_stats = record { hits = []; misses = []; invalidations = []; dirty = [] }

abbrev tracking : TrackingCache ℕ ℕ
tracking = record {
  cache = record {
    max_items = pos 8;
    entries =
        (
          codes "a",
          record empty_cache {
            entries = (codes "GET", record empty_cache { entries = (0, 42) ∷ [] }) ∷ [];
          },
        )
        ∷ (codes "b", empty_cache)
        ∷ [];
  };
  stats = no_stats;
}

keys-Distinct : Distinct names_equal tracking.cache.entries
unfolding find names_equal ℕ_discrete
keys-Distinct = ((refl), (refl, tt))

found_before : (get_response ℕ_discrete (codes "GET") (codes "a") 0 tracking).0 ≡ some 42
unfolding get_response get find names_equal ℕ_discrete
found_before = refl

stored_and_found :
    Option.map
      (λ t. (get_response ℕ_discrete (codes "GET") (codes "c") 1 t).0)
      (put_response ℕ_discrete (codes "GET") (codes "c") 1 7 tracking)
    ≡ some (some 7)
unfolding get_response put_response setdefault insert check_capacity get find set_item delete
    names_equal ℕ_discrete move_to_end
stored_and_found = refl

get_response-invalidate_example :
    (get_response ℕ_discrete
      (codes "GET")
      (codes "a")
      0
      (invalidate (codes "b" ∷ codes "a" ∷ []) tracking)).0
    ≡ (if among (codes "a") (codes "b" ∷ codes "a" ∷ [])
        then none
        else (get_response ℕ_discrete (codes "GET") (codes "a") 0 tracking).0)
get_response-invalidate_example =
    get_response-invalidate ℕ_discrete (codes "GET") (codes "a") 0 (codes "b" ∷ codes "a" ∷ [])
      tracking keys-Distinct

get_response-summary_example :
    (summary (get_response ℕ_discrete (codes "GET") (codes "a") 0 tracking).1.stats
      ≡ after_get
          (get_response ℕ_discrete (codes "GET") (codes "a") 0 tracking).0
          (summary tracking.stats))
    × (summary
          (get_response ℕ_discrete
            (codes "GET")
            (codes "a")
            0
            (record tracking { stats = compact tracking.stats })).1.stats
        ≡ after_get
            (get_response ℕ_discrete
              (codes "GET")
              (codes "a")
              0
              (record tracking { stats = compact tracking.stats })).0
            (summary tracking.stats))
get_response-summary_example = get_response-summary ℕ_discrete (codes "GET") (codes "a") 0 tracking

abbrev after_put : TrackingCache ℕ ℕ
after_put = elim (put_response ℕ_discrete (codes "GET") (codes "c") 1 7 tracking) [
  | none ↦ tracking
  | some t ↦ t
]

put_ran : put_response ℕ_discrete (codes "GET") (codes "c") 1 7 tracking ≡ some after_put
unfolding put_response setdefault insert check_capacity get find set_item delete names_equal
    ℕ_discrete move_to_end
put_ran = refl

tracking-IsTidy : IsTidy ℕ_discrete tracking
unfolding find
tracking-IsTidy = (((refl, tt), tt), (tt, tt))

get_response-put_response_example :
    (get_response ℕ_discrete (codes "GET") (codes "c") 1 after_put).0 ≡ some 7
get_response-put_response_example =
    get_response-put_response ℕ_discrete (codes "GET") (codes "c") 1 7 tracking after_put
      tracking-IsTidy put_ran
