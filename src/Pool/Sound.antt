-- ===== src/Pool/Sound.antt =====
-- The limit of a `ConnectionPool` of coredis/pool/basic.py, and that no connection is in it twice.
use coredis.Prelude.{
  ℕ, zero, suc, ◌+◌, ◌-◌, ◌≤◌, ◌<◌, ◌≡◌, refl, ap, ◌∙◌, Bool, true, false, Option, none, some, List,
  [], ◌∷◌, ltb, leb, ◌==◌, arith, length, Bool-cases, inl, inr,
}
use coredis.Prelude.Int.{ℤ, pos}
use coredis.Pool.Lists.{
  contains, remove, add_member, one_if, count, count-remove, length-remove, count-contains,
  one_if_self,
}
use coredis.Pool.{
  Pool, World, decrement, increment, at_limit, checkpid, make_connection, hand_out, after_handshake,
  take_connection, get_connection, give_back, release, check_idle,
}

-- The numbers: the connections listed are at most those counted, and these at most the limit.
abbrev pub Bounded : ℕ → ℕ → Pool → Type 0
Bounded limit room p =
    (n : ℕ) × (p.created ≡ pos n)
    × (room + (length p.available + length p.in_use) ≤ n)
    × (n ≤ limit)
    × (p.max_connections ≡ limit)

-- How often a connection is listed: once at most, and not yet if it is still to be made.
abbrev pub Single : Pool → Type 0
Single p =
    ((c : ℕ) → count c p.available + count c p.in_use ≤ 1)
    × ((c : ℕ) → p.next ≤ c → count c p.available + count c p.in_use ≡ 0)

abbrev pub Sound : ℕ → Pool → Type 0
Sound limit p = Bounded limit 0 p × Single p

-- A connection that is in neither list, and that the count has room for.
abbrev pub Free : ℕ → ℕ → Pool → Type 0
Free limit c p =
    Bounded limit 1 p × Single p × (count c p.available + count c p.in_use ≡ 0) × (c < p.next)

pub one_more : (c d k : ℕ) → k ≤ 1 → (d ≡ c → k ≡ 0) → one_if (d == c) + k ≤ 1
one_more c d k h f = elim (Bool-cases (d == c)) [
  | inl same ↦ let none_yet : k ≡ 0 = f (ground arith) in rw same (unfold one_if in omega arith)
  | inr other ↦ rw other (unfold one_if in omega arith)
]

pub not_it : (c d next : ℕ) → c < next → next ≤ d → one_if (d == c) ≡ 0
unfolding one_if
not_it c d next h k = ground arith

pub add_new : (c : ℕ) (cs : List ℕ) → count c cs ≡ 0 → add_member c cs ≡ c ∷ cs
unfolding add_member
add_new c cs h = elim (Bool-cases (contains c cs)) [
  | inl there ↦ absurd (omega (arith, count-contains c cs there))
  | inr e ↦ rw e refl
]

less : (n : ℕ) {z : ℤ} → z ≡ pos n → 1 ≤ n → decrement z ≡ pos (n - 1)
unfolding decrement
less zero e h = absurd (omega arith)
less (suc n) e h = rw (e, decrement) (ap pos (omega arith))

module _ {S E : Type 0} (world : World S E) (limit : ℕ) where
  hand_out-Sound :
      (acquire : Bool) (c : ℕ) (p : Pool) (s : S)
      → Free limit c p
      → Sound limit (hand_out world acquire (c, p, s)).1
  unfolding hand_out count
  hand_out-Sound acquire c p s ((n, e, h, k, m), (once, later), absent, made) =
      let total : ℕ → ℕ = λ d. count d p.available + count d p.in_use in
      let once_more : (d : ℕ) → one_if (d == c) + total d ≤ 1 =
        λ d. one_more c d (total d) (once d) (λ same. ap total same ∙ absent) in
      let still : (d : ℕ) → p.next ≤ d → one_if (d == c) + total d ≡ 0 =
        λ d l. omega (arith, not_it c d p.next made l, later d l) in
      elim acquire as (λ (b : Bool). Sound limit (hand_out world b (c, p, s)).1) [
        | true ↦ rw (add_new c p.in_use (omega arith)) (
          (n, e, omega arith, k, m),
          ((λ d. omega (arith, once_more d)), (λ d l. omega (arith, still d l))),
        )
        | false ↦ (
          (n, e, omega arith, k, m),
          ((λ d. omega (arith, once_more d)), (λ d l. omega (arith, still d l))),
        )
      ]

  -- What is left where the last connection is taken from the list.
  popped-Free :
      (c : ℕ) (cs : List ℕ) (p : Pool)
      → p.available ≡ c ∷ cs
      → Sound limit p
      → Free limit c (record p { available = cs })
  unfolding count
  popped-Free c cs p e ((n, f, h, k, m), (once, later)) =
      let split : (d : ℕ) → count d p.available ≡ one_if (d == c) + count d cs = λ d. rw e refl in
      let len : length p.available ≡ suc (length cs) = rw e refl in
      let here : count c cs + count c p.in_use ≡ 0 =
        omega (arith, split c, one_if_self c, once c) in
      let made : c < p.next = elim (Bool-cases (ltb c p.next)) [
        | inl below ↦ ground arith
        | inr above ↦ absurd (omega (arith, split c, one_if_self c, later c (ground arith)))
      ] in
      (
        (n, f, omega arith, k, m),
        ((λ d. omega (arith, split d, once d)), (λ d l. omega (arith, split d, later d l))),
        here,
        made,
      )

  Free-Sound : (c : ℕ) (p : Pool) → Free limit c p → Sound limit p
  Free-Sound c p ((n, e, h, k, m), single, absent, made) = ((n, e, omega arith, k, m), single)

  after_handshake-Sound :
      (acquire : Bool) (c : ℕ) (p : Pool) (r : Option E × S)
      → Free limit c p
      → Sound limit (after_handshake world acquire c p r).1
  unfolding after_handshake
  after_handshake-Sound acquire c p (some e, s) h = Free-Sound c p h
  after_handshake-Sound acquire c p (none, s) h = hand_out-Sound acquire c p s h

  made-Free :
      (p : Pool) (s : S)
      → at_limit p.created p.max_connections ≡ false
      → Sound limit p
      → Free limit p.next (make_connection world p s).1
  unfolding make_connection at_limit increment
  made-Free p s room ((n, e, h, k, m), (once, later)) =
      let below : leb p.max_connections n ≡ false = rw (e, at_limit) at room in
      (
        (suc n, rw (e, increment) refl, omega arith, ground arith, m),
        (once, λ d l. later d (omega arith)),
        later p.next (omega arith),
        omega arith,
      )

  take_connection-Sound :
      (acquire : Bool) (cs : List ℕ) (p : Pool) (s : S)
      → p.available ≡ cs
      → Sound limit p
      → Sound limit (take_connection world acquire cs p s).1
  unfolding take_connection
  take_connection-Sound acquire [] p s e h =
      elim (Bool-cases (at_limit p.created p.max_connections)) [
        | inl full ↦ rw full h
        | inr room ↦
            rw room
              (hand_out-Sound acquire p.next _ (world.connect p.next s) (made-Free p s room h))
      ]
  take_connection-Sound acquire (c ∷ cs) p s e h =
      let free = popped-Free c cs p e h in
      elim (Bool-cases (world.wants_handshake c s)) [
        | inl wants ↦
            rw wants (after_handshake-Sound acquire c _ (world.perform_handshake c s) free)
        | inr ready ↦ rw ready (hand_out-Sound acquire c _ s free)
      ]

  checkpid_lem : (p : Pool) (s : S) → world.getpid s ≡ p.pid → checkpid world p s ≡ (p, s)
  unfolding checkpid
  checkpid_lem p s h = let same : (p.pid == world.getpid s) ≡ true = ground arith in rw same refl

  -- In the process that the pool belongs to, `get_connection` keeps the pool sound, whether it hands
  -- out a connection or raises.
  pub get_connection-Sound :
      (acquire : Bool) (p : Pool) (s : S)
      → world.getpid s ≡ p.pid
      → Sound limit p
      → Sound limit (get_connection world acquire p s).1
  unfolding get_connection
  get_connection-Sound acquire p s h sound =
      rw (checkpid_lem p s h) (take_connection-Sound acquire p.available p s refl sound)

  give_back-Sound :
      (c : ℕ) (p : Pool) (s : S) → Sound limit p → Sound limit (give_back world c (p, s)).1
  unfolding give_back count
  give_back-Sound c p s ((n, e, h, k, m), (once, later)) =
      elim (Bool-cases (world.pid_of c s == p.pid)) [
        | inr other ↦ rw other ((n, e, h, k, m), (once, later))
        | inl same ↦ elim (Bool-cases (contains c p.in_use)) [
          | inr absent ↦ rw (same, absent) ((n, e, h, k, m), (once, later))
          | inl there ↦
              let moved : (d : ℕ)
                  → count d p.in_use ≡ one_if (d == c) + count d (remove c p.in_use) =
                λ d. count-remove d c p.in_use there in
              rw (same, there)
                (
                  (n, e, omega (arith, length-remove c p.in_use there), k, m),
                  (
                    (λ d. omega (arith, moved d, once d)),
                    (λ d l. omega (arith, moved d, later d l)),
                  ),
                )
        ]
      ]

  pub release-Sound :
      (c : ℕ) (p : Pool) (s : S)
      → world.getpid s ≡ p.pid
      → Sound limit p
      → Sound limit (release world c p s).1
  unfolding release
  release-Sound c p s h sound = rw (checkpid_lem p s h) (give_back-Sound c p s sound)

  pub check_idle-Sound :
      (c : ℕ) (p : Pool) (s : S)
      → contains c p.available ≡ true
      → Sound limit p
      → Sound limit (check_idle world c p s).0
  unfolding check_idle decrement
  check_idle-Sound c p s there ((n, e, h, k, m), (once, later)) =
      elim (Bool-cases (world.is_idle c s)) [
        | inr busy ↦ rw busy ((n, e, h, k, m), (once, later))
        | inl idle ↦
            let left : (d : ℕ)
                → count d p.available ≡ one_if (d == c) + count d (remove c p.available) =
              λ d. count-remove d c p.available there in
            let shorter = length-remove c p.available there in
            rw (idle, there)
              (
                (n - 1, less n e (omega (arith, shorter)), omega (arith, shorter), omega arith, m),
                ((λ d. omega (arith, left d, once d)), (λ d l. omega (arith, left d, later d l))),
              )
      ]
