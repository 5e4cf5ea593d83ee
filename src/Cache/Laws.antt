-- ===== src/Cache/Laws.antt =====
-- What `LRUCache` promises: its keys are distinct, it holds no more than its limit, and what is
-- inserted is found.
use Prim.{Discrete}
use coredis.Prelude.{
  true, Option-cases, ℕ, zero, suc, ◌≤◌, ◌≡◌, ◌≢◌, refl, ap, Bool-cases, inl, inr, some, none, List,
  [], ◌∷◌, ◌++◌, ◌==◌, arith, length, length-append,
}
use coredis.Prelude.Int.{ℤ, pos, negsuc}
use coredis.Cache.{LruCache, check_capacity, get, insert, setdefault}
use coredis.Dict.{
  find, delete, set_item, move_to_end, Distinct, delete-set_item, find-delete, Distinct-delete,
  find-append_last, Distinct-append_last, length-delete-le, length-delete_found, delete-append_last,
}

-- A limit below 0 is none.
abbrev pub Fits : ℤ → ℕ → Type 0
Fits (pos n) size = size ≤ n
Fits (negsuc n) size = Unit

Fits-le : (m : ℤ) (small large : ℕ) → small ≤ large → Fits m large → Fits m small
Fits-le (pos n) small large h f = omega arith
Fits-le (negsuc n) small large h f = tt

module _ {K V : Type 0} (eq : Discrete K) where
  pub record IsWellFormed (c : LruCache K V) : Type 0 where
    pub distinct : Distinct eq c.entries
    pub fits : Fits c.max_items (length c.entries)

  -- A cache whose limit is not 0 makes room for one more.
  makes_room :
      (m : ℤ) (es : List (K × V))
      → m ≢ pos 0
      → IsWellFormed (record { max_items = m; entries = es })
      → (room : List (K × V)) × (check_capacity (record { max_items = m; entries = es })
          ≡ some (record { max_items = m; entries = room }))
        × Distinct eq room
        × Fits m (suc (length room))
  unfolding check_capacity
  makes_room (negsuc n) es some_limit w = (es, refl, w.distinct, tt)
  makes_room (pos zero) es some_limit w = absurd (some_limit refl)
  makes_room (pos (suc n)) [] some_limit w = ([], ground arith, tt, omega arith)
  makes_room (pos (suc n)) (e ∷ es) some_limit w = elim (Bool-cases (suc (length es) == suc n)) [
    | inl full ↦ (es, rw full refl, w.distinct.1, ground arith)
    | inr free ↦ (e ∷ es, rw free refl, w.distinct, ground (arith, w.fits))
  ]

  length-move_to_end-le :
      (k : K) (v : V) (es : List (K × V)) → length (move_to_end eq k v es) ≤ suc (length es)
  unfolding move_to_end
  length-move_to_end-le k v es =
      omega (arith, length-append (delete eq k es) ((k, v) ∷ []), length-delete-le eq k es)

  Distinct-move_to_end :
      (k : K) (v : V) (es : List (K × V)) → Distinct eq es → Distinct eq (move_to_end eq k v es)
  unfolding move_to_end
  Distinct-move_to_end k v es d =
      Distinct-append_last eq k v (delete eq k es) (find-delete eq k es d)
        (Distinct-delete eq k es d)

  found_again :
      (m : ℤ) (k : K) (v : V) (es : List (K × V))
      → Distinct eq es
      → get eq k (record { max_items = m; entries = move_to_end eq k v es })
        ≡ some (v, record { max_items = m; entries = move_to_end eq k v es })
  unfolding get move_to_end
  found_again m k v es d =
      let gone = find-delete eq k es d in
      rw
        (
          find-append_last eq k v (delete eq k es) gone,
          delete-append_last eq k v (delete eq k es) gone,
        )
        refl

  -- In a cache whose limit is not 0 an insertion succeeds, keeps the keys distinct and the limit, and
  -- makes the key the one that was used last, with the value given.
  pub insert-IsWellFormed :
      (k : K) (v : V) (c : LruCache K V)
      → c.max_items ≢ pos 0
      → IsWellFormed c
      → (after : LruCache K V) × (insert eq k v c ≡ some after)
        × IsWellFormed after
        × (get eq k after ≡ some (v, after))
  unfolding insert
  insert-IsWellFormed k v c some_limit w =
      let (room, made, distinct, fits) = makes_room c.max_items c.entries some_limit w in
      let moved : move_to_end eq k v (set_item eq k v room) ≡ move_to_end eq k v room =
        unfold move_to_end in
        ap (λ (t : List (K × V)). t ++ (k, v) ∷ []) (delete-set_item eq k v room) in
      (
        record { max_items = c.max_items; entries = move_to_end eq k v room },
        rw (made, moved) refl,
        record {
          distinct = Distinct-move_to_end k v room distinct;
          fits = Fits-le c.max_items _ _ (length-move_to_end-le k v room) fits;
        },
        found_again c.max_items k v room distinct,
      )

  -- An insertion into a full cache drops the oldest entry, whether or not its own key is there.
  pub insert-full :
      (k old : K) (v w : V) (rest : List (K × V)) (n : ℕ)
      → suc (length rest) ≡ n
      → insert eq k v (record { max_items = pos n; entries = (old, w) ∷ rest })
        ≡ some (record { max_items = pos n; entries = delete eq k rest ++ (k, v) ∷ [] })
  unfolding insert check_capacity move_to_end
  insert-full k old v w rest n full =
      let test : (suc (length rest) == n) ≡ true = ground arith in
      rw (test, delete-set_item eq k v rest) refl

  get-found :
      (k : K) (v : V) (c : LruCache K V)
      → find eq k c.entries ≡ some v
      → get eq k c ≡ some (v, record c { entries = move_to_end eq k v c.entries })
  unfolding get
  get-found k v c h = rw h refl

  -- A key that is found becomes the one that was used last, under the same value, and the cache stays
  -- well formed.
  pub get-IsWellFormed :
      (k : K) (v : V) (c : LruCache K V)
      → IsWellFormed c
      → find eq k c.entries ≡ some v
      → (after : LruCache K V) × (get eq k c ≡ some (v, after))
        × IsWellFormed after
        × (get eq k after ≡ some (v, after))
  get-IsWellFormed k v c w h =
      let size : length (move_to_end eq k v c.entries) ≤ length c.entries =
        unfold move_to_end in
        omega (
          arith,
          length-append (delete eq k c.entries) ((k, v) ∷ []),
          length-delete_found eq k v c.entries h,
        ) in
      (
        record c { entries = move_to_end eq k v c.entries },
        get-found k v c h,
        record {
          distinct = Distinct-move_to_end k v c.entries w.distinct;
          fits = Fits-le c.max_items _ _ size w.fits;
        },
        found_again c.max_items k v c.entries w.distinct,
      )

  get-absent : (k : K) (c : LruCache K V) → find eq k c.entries ≡ none → get eq k c ≡ none
  unfolding get
  get-absent k c h = rw h refl

  -- In a cache whose limit is not 0, `setdefault` answers with a value that is found afterwards.
  pub setdefault-IsWellFormed :
      (k : K) (v : V) (c : LruCache K V)
      → c.max_items ≢ pos 0
      → IsWellFormed c
      → (got : V) × (after : LruCache K V) × (setdefault eq k v c ≡ some (got, after))
        × IsWellFormed after
        × (get eq k after ≡ some (got, after))
  unfolding setdefault
  setdefault-IsWellFormed k v c some_limit w =
      let (es, made, distinct, fits) = makes_room c.max_items c.entries some_limit w in
      let room : LruCache K V = record { max_items = c.max_items; entries = es } in
      let well : IsWellFormed room = record {
        distinct = distinct;
        fits = Fits-le c.max_items _ _ (omega arith) fits;
      } in
      elim (Option-cases (find eq k es)) [
        | inl e ↦
            let (after, inserted, ok, found) = insert-IsWellFormed k v room some_limit well in
            (v, after, rw (setdefault, made, get-absent k room e, inserted) found, ok, found)
        | inr (old, e) ↦
            let (after, found, ok, again) = get-IsWellFormed k old room well e in
            (old, after, rw (setdefault, made, found) refl, ok, again)
      ]
