-- ===== src/Pool/Returned.antt =====
-- `release` of a `BlockingConnectionPool` of coredis/pool/basic.py.
use coredis.Prelude.{
  ℕ, ◌<◌, ◌≡◌, refl, sym, ap, true, Option, none, some, ◌∷◌, ltb, ◌==◌, arith, length, Bool-cases,
  inl, inr,
}
use mathlib.Core.Path.{subst}
use coredis.Pool.{World}
use coredis.Pool.Lists.{contains, remove, count-remove, length-remove}
use coredis.Pool.Blocking.{
  BlockingPool, put_nowait, checkpid, then_give_back, put_back, give_back, release,
}
use coredis.Pool.Conserved.{IsConserved, places_of, queued, free_places, checkpid-IsConserved}

module _ {S E : Type 0} (world : World S E) (limit : ℕ) where
  put_nowait-room :
      (c : ℕ) (p : BlockingPool)
      → length p.queue < p.max_connections
      → put_nowait (some c) p ≡ some (record p { queue = some c ∷ p.queue })
  unfolding put_nowait
  put_nowait-room c p h =
      let room : ltb (length p.queue) p.max_connections ≡ true = ground (arith, h) in rw room refl

  -- What holds where `release` raises no KeyError.
  abbrev pub Returned : Option (BlockingPool × S) → Type 0
  Returned none = Unit
  Returned (some (p, s)) = IsConserved limit 0 p

  -- A connection that is in use goes back to the queue, which has a place for it.
  back_in_queue-IsConserved :
      (c : ℕ) (p : BlockingPool)
      → contains c p.in_use ≡ true
      → IsConserved limit 0 p
      → IsConserved limit 0 (record p { in_use = remove c p.in_use; queue = some c ∷ p.queue })
  unfolding places_of queued free_places
  back_in_queue-IsConserved c p used h = record {
    places = omega (arith, h.places, length-remove c p.in_use used);
    made = h.made;
    limited = h.limited;
    once = λ d. omega (arith, h.once d, count-remove d c p.in_use used);
    fresh = λ d le. omega (arith, h.fresh d le, count-remove d c p.in_use used);
  }

  give_back-Returned :
      (c : ℕ) (p : BlockingPool) (s : S) → IsConserved limit 0 p → Returned (give_back world c p s)
  unfolding give_back put_back
  give_back-Returned c p s h = elim (Bool-cases (contains c p.in_use)) [
    | inl e ↦
        let freed = record p { in_use = remove c p.in_use } in
        let room : length p.queue < p.max_connections =
          omega (arith, h.places, h.limited, length-remove c p.in_use e) in
        let there : give_back world c p s ≡ some (record freed { queue = some c ∷ p.queue }, s) =
          rw e (ap (λ o. some (put_back world c freed s o)) (put_nowait-room c freed room)) in
        subst Returned (sym there) (back_in_queue-IsConserved c p e h)
    | inr e ↦ rw e tt
  ]

  then_give_back-Returned :
      (c : ℕ) (p : BlockingPool) (s : S)
      → IsConserved limit 0 p
      → Returned (then_give_back world c (p, s))
  unfolding then_give_back
  then_give_back-Returned c p s h = elim (Bool-cases (world.pid_of c s == p.pid)) [
    | inl e ↦ rw e (give_back-Returned c p s h)
    | inr e ↦ rw e h
  ]

  pub release-Returned :
      (c : ℕ) (p : BlockingPool) (s : S) → IsConserved limit 0 p → Returned (release world c p s)
  unfolding release
  release-Returned c p s h =
      then_give_back-Returned c (checkpid world p s).0 (checkpid world p s).1
        (checkpid-IsConserved world limit p s h)
