-- ===== src/Cache/Counted.antt =====
-- What the statistics of `NodeTrackingCache` of coredis/cache.py count.
use Prim.{Discrete}
use coredis.Prelude.{ℕ, suc, ◌≡◌, ap, ◌∙◌, Option, none, some, List, Option-cases, inl, inr}
use coredis.Cache.Stats.{
  CacheStats, Summary, summary, compact, hit, miss, total-count_one, summary-compact,
}
use coredis.Cache.Tracking.{TrackingCache, find_key, get_response}

-- The summary after a call that found a response, or none.
abbrev pub after_get : {V : Type 0} → Option V → Summary → Summary
after_get none s = record s { misses = suc s.misses }
after_get (some v) s = record s { hits = suc s.hits }

summary-miss :
    (V : Type 0) (key : List ℕ) (s : CacheStats)
    → summary (miss key s) ≡ after_get {V = V} none (summary s)
unfolding summary miss
summary-miss V key s =
    ap (λ (n : ℕ). record (summary s) { misses = n }) (total-count_one key s.misses)

summary-hit :
    {V : Type 0} (v : V) (key : List ℕ) (s : CacheStats)
    → summary (hit key s) ≡ after_get (some v) (summary s)
unfolding summary hit
summary-hit v key s = ap (λ (n : ℕ). record (summary s) { hits = n }) (total-count_one key s.hits)

module _ {A V : Type 0} (eq : Discrete A) where
  counts_get :
      (command key : List ℕ) (args : A) (t : TrackingCache A V)
      → summary (get_response eq command key args t).1.stats
        ≡ after_get (get_response eq command key args t).0 (summary t.stats)
  unfolding get_response
  counts_get command key args t = elim (Option-cases (find_key eq key command args t.cache).0) [
    | inl e ↦ rw (e, get_response) (summary-miss V key t.stats)
    | inr (v, e) ↦ rw (e, get_response) (summary-hit v key t.stats)
  ]

  -- A call of `get` is counted once in the summary, as a hit or as a miss, also where the statistics
  -- were compacted before it.
  pub get_response-summary :
      (command key : List ℕ) (args : A) (t : TrackingCache A V)
      → (summary (get_response eq command key args t).1.stats
          ≡ after_get (get_response eq command key args t).0 (summary t.stats))
        × (summary (get_response eq command key args (record t { stats = compact t.stats })).1.stats
            ≡ after_get
                (get_response eq command key args (record t { stats = compact t.stats })).0
                (summary t.stats))
  get_response-summary command key args t =
      let compacted : TrackingCache A V = record t { stats = compact t.stats } in
      (
        counts_get command key args t,
        counts_get command key args compacted
            ∙ ap (after_get (get_response eq command key args compacted).0)
                (summary-compact t.stats),
      )
