-- ===== src/Streams/Identifier.antt =====
-- Where `Consumer` of coredis/stream.py goes on to read after `get_entry`.
use coredis.Prelude.{
  ℕ, ◌≡◌, refl, sym, ◌∙◌, ap, true, Option, none, some, List, [], ◌∷◌, if◌then◌else◌, Option-cases,
  inl, inr,
}
use mathlib.Core.Path.{subst}
use coredis.Dict.{find, same, find-set_item}
use coredis.Names.{Names, names_equal}
use coredis.Streams.{
  Entry, Consumer, Client, Outcome, done, key_error, raised, take_buffered, distribute,
}
use coredis.Streams.Get.{Result, fetch, settle, hand_over, after_fetch, next_entry, get_entry}
use coredis.Streams.Calls.{initialized-get_entry}

module _ {S E : Type 0} (client : Client S E) where
  -- What the states of the streams are after a call.
  abbrev pub Marked : Consumer → Result client (Option (List ℕ × Entry)) → Type 0
  Marked c (done none, d, t) = d.state ≡ c.state
  Marked c (done (some ([], e)), d, t) = d.state ≡ c.state
  Marked c (done (some (k ∷ ks, e)), d, t) =
      (name : List ℕ)
      → find names_equal name d.state ≡ (
          if same names_equal name (k ∷ ks)
          then some (some e.identifier)
          else find names_equal name c.state)
  Marked c (key_error, d, t) = Unit
  Marked c (raised e, d, t) = Unit

  settle-Marked :
      (stream : List ℕ) (e : Entry) (c : Consumer) (s : S) → Marked c (settle client stream e c s)
  unfolding settle
  settle-Marked [] e c s = refl
  settle-Marked (k ∷ ks) e c s = elim (Option-cases (find names_equal (k ∷ ks) c.state)) [
    | inl f ↦ rw (f, settle) tt
    | inr (old, f) ↦
        rw (f, settle) (λ name. find-set_item names_equal name (k ∷ ks) (some e.identifier) c.state)
  ]

  same_state :
      (c d : Consumer) (r : Result client (Option (List ℕ × Entry)))
      → c.state ≡ d.state
      → Marked d r
      → Marked c r
  same_state c d (done none, f, t) h m = m ∙ sym h
  same_state c d (done (some ([], e)), f, t) h m = m ∙ sym h
  same_state c d (done (some (k ∷ ks, e)), f, t) h m = λ name.
      m name
      ∙ ap
          (λ st.
            if same names_equal name (k ∷ ks)
            then some (some e.identifier)
            else find names_equal name st)
          (sym h)
  same_state c d (key_error, f, t) h m = tt
  same_state c d (raised e, f, t) h m = tt

  hand_over-Marked :
      (c : Consumer) (r : Option (List ℕ × Entry) × Names (List Entry)) (s : S)
      → Marked c (hand_over client c r s)
  unfolding hand_over
  hand_over-Marked c (none, buffer) s = refl
  hand_over-Marked c (some (stream, e), buffer) s =
      same_state c (record c { buffer = buffer })
        (settle client stream e (record c { buffer = buffer }) s) refl
        (settle-Marked stream e (record c { buffer = buffer }) s)

  after_fetch-Marked :
      (c : Consumer) (r : Outcome E (Names (List Entry)) × S) → Marked c (after_fetch client c r)
  unfolding after_fetch
  after_fetch-Marked c (done consumed, s) = hand_over-Marked c (distribute consumed none c.buffer) s
  after_fetch-Marked c (key_error, s) = tt
  after_fetch-Marked c (raised e, s) = tt

  next_entry-Marked : (c : Consumer) (s : S) → Marked c (next_entry client c s)
  unfolding next_entry
  next_entry-Marked c s = elim (Option-cases (take_buffered c.buffer)) [
    | inl e ↦ rw (e, next_entry) (after_fetch-Marked c (fetch client c s))
    | inr (r, e) ↦ rw (e, next_entry) (hand_over-Marked c (some r.0, r.1) s)
  ]

  -- Where a call of an initialized consumer hands out an entry of a stream with a name, the stream is
  -- read on from this entry's identifier, whatever else was fetched; the other streams keep theirs.
  pub get_entry-identifier :
      (c d : Consumer) (s t : S) (k : ℕ) (ks : List ℕ) (e : Entry)
      → c.initialized ≡ true
      → get_entry client c s ≡ (done (some (k ∷ ks, e)), d, t)
      → (name : List ℕ)
      → find names_equal name d.state ≡ (
          if same names_equal name (k ∷ ks)
          then some (some e.identifier)
          else find names_equal name c.state)
  get_entry-identifier c d s t k ks e h f =
      subst (λ x. Marked c x) (sym (initialized-get_entry client c s h) ∙ f) (next_entry-Marked c s)
