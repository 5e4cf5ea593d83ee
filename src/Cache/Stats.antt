-- ===== src/Cache/Stats.antt =====
-- `CacheStats` of coredis/cache.py.
use coredis.Prelude.{
  ℕ, suc, ◌+◌, ◌≡◌, refl, none, some, List, [], ◌∷◌, arith, inl, inr, Option-cases,
}
use coredis.Dict.{find, set_item, same-cases}
use coredis.Names.{Names, names_equal}
use coredis.Resp.Errors.{codes}

pub record CacheStats : Type 0 where
  pub hits : Names ℕ
  pub misses : Names ℕ
  pub invalidations : Names ℕ
  pub dirty : Names ℕ

-- `counter[key] += 1`
unfoldable pub count_one : List ℕ → Names ℕ → Names ℕ
count_one key counter = elim (find names_equal key counter) [
  | none ↦ set_item names_equal key 1 counter
  | some n ↦ set_item names_equal key (suc n) counter
]

-- `sum(counter.values())`
unfoldable pub total : Names ℕ → ℕ
total [] = 0
total ((k, n) ∷ counter) = n + total counter

abbrev pub total_key : List ℕ
total_key = codes "__coredis__internal__stats__total"

unfoldable pub collapse : Names ℕ → Names ℕ
unfolding total
collapse counter = (total_key, total counter) ∷ []

unfoldable pub compact : CacheStats → CacheStats
unfolding collapse
compact s = record {
  hits = collapse s.hits;
  misses = collapse s.misses;
  invalidations = collapse s.invalidations;
  dirty = collapse s.dirty;
}

unfoldable pub hit : List ℕ → CacheStats → CacheStats
unfolding count_one
hit key s = record s { hits = count_one key s.hits }

unfoldable pub miss : List ℕ → CacheStats → CacheStats
unfolding count_one
miss key s = record s { misses = count_one key s.misses }

unfoldable pub note_invalidation : List ℕ → CacheStats → CacheStats
unfolding count_one
note_invalidation key s = record s { invalidations = count_one key s.invalidations }

unfoldable pub mark_dirty : List ℕ → CacheStats → CacheStats
unfolding count_one
mark_dirty key s = record s { dirty = count_one key s.dirty }

pub record Summary : Type 0 where
  pub hits : ℕ
  pub misses : ℕ
  pub dirty_hits : ℕ
  pub invalidations : ℕ

unfoldable pub summary : CacheStats → Summary
unfolding total
summary s = record {
  hits = total s.hits;
  misses = total s.misses;
  dirty_hits = total s.dirty;
  invalidations = total s.invalidations;
}

total-new :
    (key : List ℕ) (v : ℕ) (counter : Names ℕ)
    → find names_equal key counter ≡ none
    → total (set_item names_equal key v counter) ≡ v + total counter
unfolding total find set_item
total-new key v [] h = omega arith
total-new key v ((k, n) ∷ counter) h = elim (same-cases names_equal key k) [
  | inl (e, f) ↦ let never : some n ≡ none = rw e at h in cc
  | inr e ↦ rw e (omega (arith, total-new key v counter (rw e at h)))
]

total-known :
    (key : List ℕ) (m v : ℕ) (counter : Names ℕ)
    → find names_equal key counter ≡ some m
    → total (set_item names_equal key v counter) + m ≡ v + total counter
unfolding total find set_item
total-known key m v [] h = cc
total-known key m v ((k, n) ∷ counter) h = elim (same-cases names_equal key k) [
  | inl (e, f) ↦
      let held : some n ≡ some m = rw e at h in let as_m : n ≡ m = cc in rw e (omega arith)
  | inr e ↦ rw e (omega (arith, total-known key m v counter (rw e at h)))
]

pub total-count_one :
    (key : List ℕ) (counter : Names ℕ) → total (count_one key counter) ≡ suc (total counter)
unfolding count_one
total-count_one key counter = elim (Option-cases (find names_equal key counter)) [
  | inl e ↦ rw (e, count_one) (omega (arith, total-new key 1 counter e))
  | inr (n, e) ↦ rw (e, count_one) (omega (arith, total-known key n (suc n) counter e))
]

total-collapse : (counter : Names ℕ) → total (collapse counter) ≡ total counter
unfolding collapse total
total-collapse counter = omega arith

-- `compact` keeps the summary.
pub summary-compact : (s : CacheStats) → summary (compact s) ≡ summary s
unfolding summary compact
summary-compact s =
    rw
      (
        total-collapse s.hits,
        total-collapse s.misses,
        total-collapse s.dirty,
        total-collapse s.invalidations,
      )
      refl
