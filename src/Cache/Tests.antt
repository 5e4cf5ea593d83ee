-- ===== src/Cache/Tests.antt =====
-- A cache of two entries.
use coredis.Prelude.{ℕ, ◌≡◌, ◌≢◌, refl, some, [], ◌∷◌, ◌++◌, arith, ℕ_discrete}
use coredis.Prelude.Int.{pos}
use coredis.Cache.{LruCache, get, insert}
use coredis.Dict.{find, delete}
use coredis.Cache.Laws.{IsWellFormed, insert-IsWellFormed, insert-full}

abbrev two : LruCache ℕ ℕ
two = record { max_items = pos 2; entries = (1, 10) ∷ (2, 20) ∷ [] }

two-IsWellFormed : IsWellFormed ℕ_discrete two
unfolding find ℕ_discrete
two-IsWellFormed = record { distinct = (refl, (refl, tt)); fits = omega arith }

limited : pos 2 ≢ pos 0
limited e = cc

insert-IsWellFormed_example :
    (after : LruCache ℕ ℕ) × (insert ℕ_discrete 3 30 two ≡ some after)
    × IsWellFormed ℕ_discrete after
    × (get ℕ_discrete 3 after ≡ some (30, after))
insert-IsWellFormed_example = insert-IsWellFormed ℕ_discrete 3 30 two limited two-IsWellFormed

insert-full_example :
    insert ℕ_discrete 2 30 two
    ≡ some
        (record { max_items = pos 2; entries = delete ℕ_discrete 2 ((2, 20) ∷ []) ++ (2, 30) ∷ [] })
insert-full_example = insert-full ℕ_discrete 2 1 30 10 ((2, 20) ∷ []) 2 refl
