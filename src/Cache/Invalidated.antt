-- ===== src/Cache/Invalidated.antt =====
-- What `NodeTrackingCache` of coredis/cache.py answers after keys were invalidated.
use Prim.{Discrete}
use coredis.Prelude.{
  ℕ, ◌≡◌, refl, sym, ◌∙◌, ap, Bool, true, false, Option, none, some, List, [], ◌∷◌, if◌then◌else◌,
  Option-cases, Bool-cases, inl, inr,
}
use coredis.Dict.{
  find, same, same-cases, Distinct, find-delete, find-delete-none, find-delete_other,
  Distinct-delete,
}
use coredis.Names.{names_equal}
use coredis.Cache.{get, remove}
use coredis.Cache.Tracking.{
  Responses, TrackingCache, find_command, find_key, get_response, invalidate,
}

unfoldable pub among : List ℕ → List (List ℕ) → Bool
unfolding same
among key [] = false
among key (k ∷ ks) = let later = among key ks in if same names_equal key k then true else later

module _ {A V : Type 0} (eq : Discrete A) where
  -- What is found depends on what the cache holds for the key.
  unfoldable pub found_in : List ℕ → A → Option (Responses A V) → Option V
  found_in command args none = none
  found_in command args (some inner) = (find_command eq command args inner).0

  pub get_response_lem :
      (command key : List ℕ) (args : A) (t : TrackingCache A V)
      → (get_response eq command key args t).0
        ≡ found_in command args (find names_equal key t.cache.entries)
  unfolding get_response find_key get found_in
  get_response_lem command key args t = elim (Option-cases (find names_equal key t.cache.entries)) [
    | inl e ↦ rw (e, get_response, find_key, get) refl
    | inr (inner, e) ↦ rw (e, get_response, find_key, get) refl
  ]

  stays_absent :
      (key : List ℕ) (keys : List (List ℕ)) (t : TrackingCache A V)
      → find names_equal key t.cache.entries ≡ none
      → find names_equal key (invalidate keys t).cache.entries ≡ none
  unfolding invalidate remove
  stays_absent key [] t h = h
  stays_absent key (k ∷ ks) t h =
      stays_absent key ks _ (find-delete-none names_equal key k t.cache.entries h)

  find-invalidate :
      (key : List ℕ) (keys : List (List ℕ)) (t : TrackingCache A V)
      → Distinct names_equal t.cache.entries
      → find names_equal key (invalidate keys t).cache.entries
        ≡ (if among key keys then none else find names_equal key t.cache.entries)
  unfolding invalidate remove among
  find-invalidate key [] t d = refl
  find-invalidate key (k ∷ ks) t d = elim (same-cases names_equal key k) [
    | inl (e, f) ↦ rw e (stays_absent key ks _ (rw f (find-delete names_equal k t.cache.entries d)))
    | inr e ↦ rw e (
        find-invalidate key ks _ (Distinct-delete names_equal k t.cache.entries d)
        ∙ ap (λ (o : Option (Responses A V)). if among key ks then none else o)
            (find-delete_other names_equal key k t.cache.entries e))
  ]

  -- In a cache with distinct keys, `get` finds nothing under a key that was invalidated, whatever the
  -- command and its arguments, and under another key what it would have found before.
  pub get_response-invalidate :
      (command key : List ℕ) (args : A) (keys : List (List ℕ)) (t : TrackingCache A V)
      → Distinct names_equal t.cache.entries
      → (get_response eq command key args (invalidate keys t)).0
        ≡ (if among key keys then none else (get_response eq command key args t).0)
  unfolding found_in
  get_response-invalidate command key args keys t d =
      let after =
        get_response_lem command key args (invalidate keys t)
        ∙ ap (found_in command args) (find-invalidate key keys t d) in
      elim (Bool-cases (among key keys)) [
        | inl e ↦ after ∙ rw e refl
        | inr e ↦ after ∙ rw e (sym (get_response_lem command key args t))
      ]
