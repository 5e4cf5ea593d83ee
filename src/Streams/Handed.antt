-- ===== src/Streams/Handed.antt =====
-- What one call of `Consumer.get_entry` of coredis/stream.py does to the entries of each stream.
use coredis.Prelude.{
  ℕ, ◌≡◌, refl, sym, ◌∙◌, ap, Option, none, some, List, [], ◌∷◌, ◌++◌, Option-cases, inl, inr,
}
use mathlib.Core.List.{append-nil}
use coredis.Dict.{find, Distinct}
use coredis.Names.{Names, names_equal}
use coredis.Streams.{
  Entry, Consumer, Client, Outcome, done, key_error, raised, ReadAnswer, entries, nothing,
  read_exception, take_buffered, distribute,
}
use coredis.Streams.Get.{
  Result, after_read, read_chunks, chunk_streams, fetch, settle, hand_over, after_fetch, next_entry,
}
use coredis.Streams.Deliver.{
  entries_of, taken, take_buffered_lem, take_buffered-none, take_buffered-Distinct, distribute-none,
  distribute-Distinct, update-Distinct,
}

-- What holds of a result, if there is one.
abbrev Ends : {E A : Type 0} → (A → Type 0) → Outcome E A → Type 0
Ends P (done a) = P a
Ends P _ = Unit

unfoldable pub reply_in : {E : Type 0} → Outcome E (Names (List Entry)) → Names (List Entry)
reply_in (done reply) = reply
reply_in _ = []

module _ {S E : Type 0} (client : Client S E) where
  -- The entries that a call gets from the server: none where some are buffered.
  unfoldable pub reply_of : Consumer → S → Names (List Entry)
  unfolding reply_in
  reply_of c s = elim (take_buffered c.buffer) [
    | some r ↦ []
    | none ↦ reply_in (fetch client c s).0
  ]

  after_read-Distinct :
      (again : Names (List Entry) → S → Outcome E (Names (List Entry)) × S)
      (consumed : Names (List Entry)) (r : ReadAnswer E × S)
      → ((more : Names (List Entry)) (t : S)
          → Distinct names_equal more
          → Ends (Distinct names_equal) (again more t).0)
      → Distinct names_equal consumed
      → Ends (Distinct names_equal) (after_read client again consumed r).0
  unfolding after_read
  after_read-Distinct again consumed (entries more, s) f h = f _ s (update-Distinct more consumed h)
  after_read-Distinct again consumed (nothing, s) f h = f consumed s h
  after_read-Distinct again consumed (read_exception e, s) f h = tt

  read_chunks-Distinct :
      (c : Consumer) (chunks : List (Names (List ℕ))) (consumed : Names (List Entry)) (s : S)
      → Distinct names_equal consumed
      → Ends (Distinct names_equal) (read_chunks client c chunks consumed s).0
  unfolding read_chunks
  read_chunks-Distinct c [] consumed s h = h
  read_chunks-Distinct c (chunk ∷ chunks) consumed s h =
      after_read-Distinct (read_chunks client c chunks) consumed _
        (λ more t k. read_chunks-Distinct c chunks more t k) h

  fetch-Distinct : (c : Consumer) (s : S) → Ends (Distinct names_equal) (fetch client c s).0
  unfolding fetch
  fetch-Distinct c s = elim (Option-cases (chunk_streams client c)) [
    | inl e ↦ rw (e, fetch) tt
    | inr (chunks, e) ↦ rw (e, fetch) (read_chunks-Distinct c chunks [] s tt)
  ]

  -- What a call does to the consumer: `got` is handed out, of the entries of `reply` and those
  -- buffered, and the rest is buffered.
  abbrev pub Handed :
      Consumer → Names (List Entry) → Result client (Option (List ℕ × Entry)) → Type 0
  Handed c reply (done got, d, t) =
      (d.initialized ≡ c.initialized)
      × Distinct names_equal d.buffer
      × ((name : List ℕ)
          → taken name got ++ entries_of name d.buffer
            ≡ entries_of name c.buffer ++ entries_of name reply)
  Handed c reply (key_error, d, t) = Unit
  Handed c reply (raised e, d, t) = Unit

  settle-Handed :
      (c : Consumer) (reply : Names (List Entry)) (stream : List ℕ) (e : Entry)
      (buffer : Names (List Entry)) (s : S)
      → Distinct names_equal buffer
      → ((name : List ℕ)
          → taken name (some (stream, e)) ++ entries_of name buffer
            ≡ entries_of name c.buffer ++ entries_of name reply)
      → Handed c reply (settle client stream e (record c { buffer = buffer }) s)
  unfolding settle
  settle-Handed c reply [] e buffer s d h = (refl, d, h)
  settle-Handed c reply (k ∷ ks) e buffer s d h =
      elim (Option-cases (find names_equal (k ∷ ks) c.state)) [
        | inl f ↦ rw (f, settle) tt
        | inr (old, f) ↦ rw (f, settle) (refl, d, h)
      ]

  hand_over-Handed :
      (c : Consumer) (reply : Names (List Entry)) (r : Option (List ℕ × Entry) × Names (List Entry))
      (s : S)
      → Distinct names_equal r.1
      → ((name : List ℕ)
          → taken name r.0 ++ entries_of name r.1
            ≡ entries_of name c.buffer ++ entries_of name reply)
      → Handed c reply (hand_over client c r s)
  unfolding hand_over
  hand_over-Handed c reply (none, buffer) s d h = (refl, d, h)
  hand_over-Handed c reply (some (stream, e), buffer) s d h =
      settle-Handed c reply stream e buffer s d h

  after_fetch-Handed :
      (c : Consumer) (r : Outcome E (Names (List Entry)) × S)
      → Distinct names_equal c.buffer
      → ((name : List ℕ) → entries_of name c.buffer ≡ [])
      → Ends (Distinct names_equal) r.0
      → Handed c (reply_in r.0) (after_fetch client c r)
  unfolding after_fetch reply_in
  after_fetch-Handed c (done consumed, s) d empty h =
      hand_over-Handed c consumed (distribute consumed none c.buffer) s
        (distribute-Distinct consumed none c.buffer d)
        (λ name.
          distribute-none name consumed c.buffer h (empty name)
          ∙ ap (λ xs. xs ++ entries_of name consumed) (sym (empty name)))
  after_fetch-Handed c (key_error, s) d empty h = tt
  after_fetch-Handed c (raised e, s) d empty h = tt

  pub next_entry-Handed :
      (c : Consumer) (s : S)
      → Distinct names_equal c.buffer
      → Handed c (reply_of c s) (next_entry client c s)
  unfolding next_entry reply_of entries_of find
  next_entry-Handed c s d = elim (Option-cases (take_buffered c.buffer)) [
    | inl e ↦
        rw (e, next_entry, reply_of)
          (after_fetch-Handed c (fetch client c s) d (λ name. take_buffered-none name c.buffer e)
            (fetch-Distinct c s))
    | inr (r, e) ↦
        rw (e, next_entry, reply_of)
          (hand_over-Handed c [] (some r.0, r.1) s (take_buffered-Distinct c.buffer r e d)
            (λ name.
              take_buffered_lem name c.buffer r e d ∙ sym (append-nil (entries_of name c.buffer))))
  ]
