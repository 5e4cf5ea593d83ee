-- ===== src/Pool/Conserved.antt =====
-- The places of a `BlockingConnectionPool` of coredis/pool/basic.py, whatever it is used for.
use Prim.{yes, no}
use coredis.Prelude.{
  dec_lt, ℕ, zero, suc, ◌+◌, ◌≤◌, ◌<◌, ◌≡◌, refl, sym, ap, ◌∙◌, Bool, true, false, Option, none,
  some, List, [], ◌∷◌, ◌==◌, arith, length, length-replicate, replicate, Bool-cases, inl, inr,
  if◌then◌else◌,
}
use mathlib.Core.Path.{subst}
use coredis.Pool.{World}
use coredis.Pool.Lists.{one_if, count, one_if_self}
use coredis.Pool.Sound.{one_more, not_it, add_new}
use coredis.Pool.Blocking.{
  BlockingPool, Got, got, no_connection, raised, reset, checkpid, then_reset, then_take, disconnect,
  hand_out, after_handshake, make_connection, take_place, get_connection,
}

unfoldable pub free_places : List (Option ℕ) → ℕ
free_places [] = 0
free_places (none ∷ cs) = suc (free_places cs)
free_places (some c ∷ cs) = free_places cs

unfoldable pub queued : ℕ → List (Option ℕ) → ℕ
queued c [] = 0
queued c (none ∷ cs) = queued c cs
queued c (some d ∷ cs) = one_if (c == d) + queued c cs

-- How often a connection is in the queue and in use.
unfoldable pub places_of : ℕ → BlockingPool → ℕ
places_of c p = queued c p.queue + count c p.in_use

-- Of the `limit` places of the pool, `held` are with a call; each connection has one place, and those to be made have none.
pub record IsConserved (limit held : ℕ) (p : BlockingPool) : Type 0 where
  pub places : held + (length p.queue + length p.in_use) ≡ limit
  pub made : free_places p.queue + p.created ≡ limit
  pub limited : p.max_connections ≡ limit
  pub once : (c : ℕ) → places_of c p ≤ 1
  pub fresh : (c : ℕ) → p.next ≤ c → places_of c p ≡ 0

abbrev none_place : Option ℕ
none_place = none

free_places-replicate : (n : ℕ) → free_places (replicate n none) ≡ n
unfolding free_places
free_places-replicate zero = refl
free_places-replicate (suc n) = ap suc (free_places-replicate n)

queued-replicate : (c n : ℕ) → queued c (replicate n none) ≡ 0
unfolding queued
queued-replicate c zero = refl
queued-replicate c (suc n) = queued-replicate c n

pub reset-IsConserved :
    (limit pid : ℕ) (p : BlockingPool)
    → p.max_connections ≡ limit
    → IsConserved limit 0 (reset pid p)
unfolding reset places_of count
reset-IsConserved limit pid p h = record {
  places = omega (arith, h, length-replicate p.max_connections none_place);
  made = omega (arith, h, free_places-replicate p.max_connections);
  limited = h;
  once = λ c. omega (arith, queued-replicate c p.max_connections);
  fresh = λ c le. omega (arith, queued-replicate c p.max_connections);
}

-- What holds of the pool after a call.
abbrev pub Kept : {S E : Type 0} → ℕ → Got E × BlockingPool × S → Type 0
Kept limit (got c, p, s) = IsConserved limit 0 p
Kept limit (no_connection, p, s) = IsConserved limit 0 p
Kept limit (raised e, p, s) = Unit

module _ {S E : Type 0} (world : World S E) (limit : ℕ) where
  hand_out-Kept :
      (acquire : Bool) (c : ℕ) (p : BlockingPool) (s : S)
      → IsConserved limit 1 p
      → places_of c p ≡ 0
      → c < p.next
      → Kept limit (hand_out world acquire c p s)
  unfolding hand_out places_of count queued free_places
  hand_out-Kept true c p s h none_yet below =
      let unused : count c p.in_use ≡ 0 = omega (arith, none_yet) in
      let added = add_new c p.in_use unused in
      subst (λ used. IsConserved limit 0 (record p { in_use = used })) (sym added)
        (record {
          places = omega (arith, h.places);
          made = h.made;
          limited = h.limited;
          once = λ d. omega (
            arith,
            one_more c d (places_of d p) (h.once d) (λ e. ap (λ x. places_of x p) e ∙ none_yet),
          );
          fresh = λ d le. omega (arith, h.fresh d le, not_it c d p.next below le);
        })
  hand_out-Kept false c p s h none_yet below = record {
    places = omega (arith, h.places);
    made = h.made;
    limited = h.limited;
    once = λ d. omega (
      arith,
      one_more c d (places_of d p) (h.once d) (λ e. ap (λ x. places_of x p) e ∙ none_yet),
    );
    fresh = λ d le. omega (arith, h.fresh d le, not_it c d p.next below le);
  }

  -- A connection is made for a place with none, and is there once then.
  make_connection-Kept :
      (acquire : Bool) (p : BlockingPool) (s : S)
      → 1 + (length p.queue + length p.in_use) ≡ limit
      → free_places p.queue + suc p.created ≡ limit
      → p.max_connections ≡ limit
      → ((c : ℕ) → places_of c p ≤ 1)
      → ((c : ℕ) → p.next ≤ c → places_of c p ≡ 0)
      → Kept limit (make_connection world acquire p s)
  unfolding make_connection places_of
  make_connection-Kept acquire p s places made limited once fresh =
      let more = record p { created = suc p.created; next = suc p.next } in
      hand_out-Kept acquire p.next more (world.connect p.next s)
        (record {
          places = places;
          made = made;
          limited = limited;
          once = once;
          fresh = λ c le. fresh c (omega (arith, le));
        })
        (fresh p.next (omega arith)) (omega arith)

  after_handshake-Kept :
      (acquire : Bool) (c : ℕ) (p : BlockingPool) (x : Option E × S)
      → IsConserved limit 1 p
      → places_of c p ≡ 0
      → c < p.next
      → Kept limit (after_handshake world acquire c p x)
  unfolding after_handshake
  after_handshake-Kept acquire c p (some e, s) h none_yet below = tt
  after_handshake-Kept acquire c p (none, s) h none_yet below =
      hand_out-Kept acquire c p s h none_yet below

  if-Kept :
      (b : Bool) (x y : Got E × BlockingPool × S)
      → Kept limit x
      → Kept limit y
      → Kept limit (if b then x else y)
  if-Kept true x y h k = h
  if-Kept false x y h k = k

  take_place-Kept :
      (acquire : Bool) (queue : List (Option ℕ)) (p : BlockingPool) (s : S)
      → p.queue ≡ queue
      → IsConserved limit 0 p
      → Kept limit (take_place world acquire queue p s)
  unfolding take_place places_of queued free_places
  take_place-Kept acquire [] p s e h = h
  take_place-Kept acquire (none ∷ queue) p s e h =
      make_connection-Kept acquire (record p { queue = queue }) s
        (omega (arith, h.places, ap length e)) (omega (arith, h.made, ap free_places e)) h.limited
        (λ c. omega (arith, h.once c, ap (queued c) e))
        (λ c le. omega (arith, h.fresh c le, ap (queued c) e))
  take_place-Kept acquire (some c ∷ queue) p s e h =
      let popped = record p { queue = queue } in
      let kept : IsConserved limit 1 popped = record {
        places = omega (arith, h.places, ap length e);
        made = omega (arith, h.made, ap free_places e);
        limited = h.limited;
        once = λ d. omega (arith, h.once d, ap (queued d) e);
        fresh = λ d le. omega (arith, h.fresh d le, ap (queued d) e);
      } in
      let none_yet : places_of c popped ≡ 0 =
        omega (arith, h.once c, ap (queued c) e, one_if_self c) in
      let below : c < p.next = elim (dec_lt c p.next) [
        | yes b ↦ b
        | no b ↦
            absurd (omega (arith, b, h.fresh c (omega (arith, b)), ap (queued c) e, one_if_self c))
      ] in
      if-Kept (world.wants_handshake c s) _ _
        (after_handshake-Kept acquire c popped (world.perform_handshake c s) kept none_yet below)
        (hand_out-Kept acquire c popped s kept none_yet below)

  pub checkpid-IsConserved :
      (p : BlockingPool) (s : S)
      → IsConserved limit 0 p
      → IsConserved limit 0 (checkpid world p s).0
  unfolding checkpid then_reset disconnect
  checkpid-IsConserved p s h = elim (Bool-cases (p.pid == world.getpid s)) [
    | inl e ↦ rw e h
    | inr e ↦ rw e (
        reset-IsConserved limit (world.getpid (disconnect world p s).1) (disconnect world p s).0
          h.limited)
  ]

  pub get_connection-Kept :
      (acquire : Bool) (p : BlockingPool) (s : S)
      → IsConserved limit 0 p
      → Kept limit (get_connection world acquire p s)
  unfolding get_connection then_take
  get_connection-Kept acquire p s h =
      let (q, t) = checkpid world p s in
      take_place-Kept acquire (checkpid world p s).0.queue (checkpid world p s).0
        (checkpid world p s).1 refl (checkpid-IsConserved p s h)
