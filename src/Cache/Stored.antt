-- ===== src/Cache/Stored.antt =====
-- That `NodeTrackingCache` of coredis/cache.py finds what was put into it.
use Prim.{Discrete}
use coredis.Prelude.{
  ℕ, ◌≡◌, refl, sym, ◌∙◌, ap, Option, none, some, List, [], ◌∷◌, ◌++◌, length, Option-cases,
  Bool-cases, inl, inr, ◌⊎◌,
}
use mathlib.Core.Option
use mathlib.Core.Path.{subst}
use coredis.Prelude.Int.{ℤ}
use coredis.Prelude.Partial.{◌>>=◌}
use coredis.Dict.{
  find, delete, move_to_end, same, same_refl, Distinct, find-delete, find-set_item, delete-set_item,
  find-append_last,
}
use coredis.Names.{names_equal}
use coredis.Cache.{LruCache, is_full, pop_oldest, check_capacity, get, insert, setdefault}
use coredis.Cache.Tracking.{
  Responses, TrackingCache, empty_cache, write, find_args, find_command, get_response, put_response,
}
use coredis.Cache.Invalidated.{found_in, get_response_lem}

-- What holds of every item of a cache.
abbrev pub All : {K V : Type 0} → (V → Type 0) → List (K × V) → Type 0
All P [] = Unit
All P ((k, v) ∷ es) = P v × All P es

some-chain :
    {A B : Type 0} (o : Option A) (f : A → Option B) (b : B)
    → (o >>= f) ≡ some b
    → (a : A) × (o ≡ some a) × (f a ≡ some b)
some-chain none f b h = cc
some-chain (some a) f b h = (a, refl, h)

module _ {K V : Type 0} (eq : Discrete K) (P : V → Type 0) where
  find-All : (k : K) (v : V) (es : List (K × V)) → find eq k es ≡ some v → All P es → P v
  unfolding find
  find-All k v [] h all = cc
  find-All k v ((j, w) ∷ es) h (p, all) = elim (Bool-cases (same eq k j)) [
    | inl e ↦ let held : some w ≡ some v = rw e at h in let as_v : w ≡ v = cc in rw (← as_v) p
    | inr e ↦ find-All k v es (rw e at h) all
  ]

  All-delete : (k : K) (es : List (K × V)) → All P es → All P (delete eq k es)
  unfolding delete
  All-delete k [] all = tt
  All-delete k ((j, w) ∷ es) (p, all) = elim (Bool-cases (same eq k j)) [
    | inl e ↦ rw e all
    | inr e ↦ rw e (p, All-delete k es all)
  ]

  All-append_last : (k : K) (v : V) (es : List (K × V)) → All P es → P v → All P (es ++ (k, v) ∷ [])
  All-append_last k v [] all p = (p, tt)
  All-append_last k v ((j, w) ∷ es) (q, all) p = (q, All-append_last k v es all p)

-- What making room leaves: everything, or everything but the oldest entry.
room_lem :
    {K V : Type 0} (m : ℤ) (es : List (K × V)) (room : LruCache K V)
    → check_capacity (record { max_items = m; entries = es }) ≡ some room
    → (room.entries ≡ es) ⊎ ((e : K × V) × (es ≡ e ∷ room.entries))
unfolding check_capacity pop_oldest
room_lem m [] room h = elim (Bool-cases (is_full m 0)) [
  | inl full ↦ let never : none ≡ some room = rw full at h in cc
  | inr e ↦
      let kept : some (record { max_items = m; entries = [] }) ≡ some room = rw e at h in
      inl (sym (ap (λ o. elim o [ none ↦ [] | some c ↦ c.entries ]) kept))
]
room_lem m (e ∷ es) room h = elim (Bool-cases (is_full m (length (e ∷ es)))) [
  | inl full ↦
      let kept : some (record { max_items = m; entries = es }) ≡ some room = rw full at h in
      inr (e, ap (λ o. elim o [ none ↦ [] | some c ↦ e ∷ c.entries ]) kept)
  | inr f ↦
      let kept : some (record { max_items = m; entries = e ∷ es }) ≡ some room = rw f at h in
      inl (sym (ap (λ o. elim o [ none ↦ [] | some c ↦ c.entries ]) kept))
]

room-All :
    {K V : Type 0} (P : V → Type 0) (c room : LruCache K V)
    → check_capacity c ≡ some room
    → All P c.entries
    → All P room.entries
room-All P c room h all = elim (room_lem c.max_items c.entries room h) [
  | inl e ↦ subst (λ es. All P es) (sym e) all
  | inr ((k, v), e) ↦ (subst (λ es. All P es) e all).1
]

module _ {K V : Type 0} (eq : Discrete K) where
  room-Distinct :
      (c room : LruCache K V)
      → check_capacity c ≡ some room
      → Distinct eq c.entries
      → Distinct eq room.entries
  room-Distinct c room h d = elim (room_lem c.max_items c.entries room h) [
    | inl e ↦ subst (λ es. Distinct eq es) (sym e) d
    | inr ((k, v), e) ↦ (subst (λ es. Distinct eq es) e d).1
  ]

  insert-entries :
      (k : K) (v : V) (c filled : LruCache K V)
      → insert eq k v c ≡ some filled
      → (room : LruCache K V) × (check_capacity c ≡ some room)
        × (filled.entries ≡ delete eq k room.entries ++ (k, v) ∷ [])
  unfolding insert move_to_end
  insert-entries k v c filled h =
      let (room, e, f) = some-chain (check_capacity c) _ filled h in
      (
        room,
        e,
        sym (ap (λ o. elim o [ none ↦ [] | some d ↦ d.entries ]) f)
            ∙ ap (λ es. es ++ (k, v) ∷ []) (delete-set_item eq k v room.entries),
      )

  insert-find :
      (k : K) (v : V) (c filled : LruCache K V)
      → insert eq k v c ≡ some filled
      → Distinct eq c.entries
      → find eq k filled.entries ≡ some v
  insert-find k v c filled h d =
      let (room, e, f) = insert-entries k v c filled h in
      let left = find-delete eq k room.entries (room-Distinct c room e d) in
      ap (find eq k) f ∙ find-append_last eq k v (delete eq k room.entries) left

  get-find :
      (k : K) (c : LruCache K V) (got : V × LruCache K V)
      → get eq k c ≡ some got
      → find eq k c.entries ≡ some got.0
  unfolding get
  get-find k c got h =
      let (v, e, f) = some-chain (find eq k c.entries) _ got h in
      e ∙ ap (λ (o : Option (V × LruCache K V)). Option.map (λ r. r.0) o) f

  filled-All :
      (P : V → Type 0) (k : K) (v : V) (c : LruCache K V) (got : V × LruCache K V)
      → (insert eq k v c >>= λ filled. get eq k filled) ≡ some got
      → P v
      → All P c.entries
      → P got.0
  filled-All P k v c got h p all =
      let (filled, e, f) = some-chain (insert eq k v c) _ got h in
      let (room, g, same_entries) = insert-entries k v c filled e in
      let held =
        All-append_last eq P k v (delete eq k room.entries)
          (All-delete eq P k room.entries (room-All P c room g all)) p in
      find-All eq P k got.0 filled.entries (get-find k filled got f)
        (subst (λ es. All P es) (sym same_entries) held)

  setdefault-All :
      (P : V → Type 0) (k : K) (v : V) (c : LruCache K V) (got : V × LruCache K V)
      → setdefault eq k v c ≡ some got
      → P v
      → All P c.entries
      → P got.0
  unfolding setdefault
  setdefault-All P k v c got h p all = elim (Option-cases (check_capacity c)) [
    | inl e ↦ filled-All P k v c got (rw (e, setdefault) at h) p all
    | inr (room, e) ↦
        let rest = room-All P c room e all in
        elim (Option-cases (get eq k room)) [
          | inl f ↦ filled-All P k v room got (rw (e, setdefault, f) at h) p rest
          | inr (found, f) ↦
              let same_got : some found ≡ some got = rw (e, setdefault, f) at h in
              find-All eq P k got.0 room.entries (get-find k room got (f ∙ same_got)) rest
        ]
  ]

  find-write : (k : K) (v : V) (c : LruCache K V) → find eq k (write eq k v c).entries ≡ some v
  unfolding write
  find-write k v c = find-set_item eq k k v c.entries ∙ rw (same_refl eq k) refl

-- The caches of the responses to a command have distinct arguments.
abbrev pub IsTidy : {A V : Type 0} → Discrete A → TrackingCache A V → Type 0
IsTidy eq t =
    All (λ by_key. All (λ by_command. Distinct eq by_command.entries) by_key.entries)
      t.cache.entries

module _ {A V : Type 0} (eq : Discrete A) where
  found_args :
      (args : A) (v : V) (c : LruCache A V)
      → find eq args c.entries ≡ some v
      → (find_args eq args c).0 ≡ some v
  unfolding find_args get
  found_args args v c h = rw (h, find_args, get) refl

  found_command :
      (command : List ℕ) (args : A) (inner : LruCache A V) (c : Responses A V)
      → find names_equal command c.entries ≡ some inner
      → (find_command eq command args c).0 ≡ (find_args eq args inner).0
  unfolding find_command get
  found_command command args inner c h = rw (h, find_command, get) refl

  -- What was put under a key, a command and its arguments is what `get` of them then finds, in a cache
  -- whose dicts of arguments have distinct keys.
  pub get_response-put_response :
      (command key : List ℕ) (args : A) (value : V) (t after : TrackingCache A V)
      → IsTidy eq t
      → put_response eq command key args value t ≡ some after
      → (get_response eq command key args after).0 ≡ some value
  unfolding put_response found_in
  get_response-put_response command key args value t after tidy h =
      let (by_key, e, f) = some-chain (setdefault names_equal key empty_cache t.cache) _ after h in
      let (by_command, g, i) =
        some-chain (setdefault names_equal command empty_cache by_key.0) _ after f in
      let (filled, j, k) = some-chain (insert eq args value by_command.0) _ after i in
      let tidy_key =
        setdefault-All names_equal (λ c. All (λ b. Distinct eq b.entries) c.entries) key empty_cache
          t.cache by_key e tt tidy in
      let tidy_command =
        setdefault-All names_equal (λ b. Distinct eq b.entries) command empty_cache by_key.0
          by_command g tt tidy_key in
      let stored = insert-find eq args value by_command.0 filled j tidy_command in
      let inner = write names_equal command filled by_command.1 in
      let held : find names_equal key after.cache.entries ≡ some inner =
        ap (λ o. elim o [ none ↦ none | some u ↦ find names_equal key u.cache.entries ]) (sym k)
        ∙ find-write names_equal key inner by_key.1 in
      get_response_lem eq command key args after
      ∙ ap (found_in eq command args) held
      ∙ found_command command args filled inner (find-write names_equal command filled by_command.1)
      ∙ found_args args value filled stored
