-- ===== src/Streams/Gave.antt =====
-- That a call of `Consumer.get_entry` of coredis/stream.py works on just what the server gave it.
use coredis.Prelude.{
  ℕ, ◌≡◌, refl, ap, true, false, Option, none, some, List, [], ◌∷◌, Option-cases, inl, inr,
}
use mathlib.Core.Option
use coredis.Dict.{find}
use coredis.Names.{Names}
use coredis.Streams.{
  Entry, Consumer, Client, Outcome, done, key_error, raised, take_buffered, or_empty,
}
use coredis.Streams.Get.{fetch, after_fetch, next_entry}
use coredis.Streams.Deliver.{entries_of, some_again}
use coredis.Streams.Handed.{reply_in, reply_of}
use coredis.Streams.Asked.{last_in, has_entries, server_gave, Holds, fetch-Holds}

has_entries-none : (d : Names (List Entry)) → take_buffered d ≡ none → has_entries d ≡ false
unfolding take_buffered has_entries
has_entries-none [] h = refl
has_entries-none ((s, []) ∷ rest) h = elim (Option-cases (take_buffered rest)) [
  | inr (r, e) ↦ let never : some _ ≡ none = rw (e, Option.map) at h in cc
  | inl e ↦ has_entries-none rest e
]
has_entries-none ((s, e ∷ es) ∷ rest) h = cc

has_entries-some :
    (d : Names (List Entry)) (r : (List ℕ × Entry) × Names (List Entry))
    → take_buffered d ≡ some r
    → has_entries d ≡ true
unfolding take_buffered has_entries
has_entries-some [] r h = cc
has_entries-some ((s, []) ∷ rest) r h =
    let (q, e, f) = some_again _ (take_buffered rest) r h in has_entries-some rest q e
has_entries-some ((s, e ∷ es) ∷ rest) r h = refl

module _ {S E : Type 0} (client : Client S E) where
  -- A call that returns has fetched without an exception.
  fetched :
      (name : List ℕ) (o : Option (List Entry)) (c d : Consumer)
      (x : Outcome E (Names (List Entry)) × S) (t : S) (got : Option (List ℕ × Entry))
      → Holds client name o x.0
      → after_fetch client c x ≡ (done got, d, t)
      → entries_of name (reply_in x.0) ≡ or_empty o
  unfolding Holds after_fetch reply_in entries_of
  fetched name o c d (done reply, s) t got h e = ap or_empty h
  fetched name o c d (key_error, s) t got h e = cc
  fetched name o c d (raised x, s) t got h e = cc

  pub reply_of-gave :
      (name : List ℕ) (c d : Consumer) (s t : S) (got : Option (List ℕ × Entry))
      → next_entry client c s ≡ (done got, d, t)
      → entries_of name (reply_of client c s) ≡ or_empty (last_in name (server_gave client c s))
  unfolding next_entry reply_of server_gave
  reply_of-gave name c d s t got h = elim (Option-cases (take_buffered c.buffer)) [
    | inl e ↦
        let ran : after_fetch client c (fetch client c s) ≡ (done got, d, t) =
          rw (e, next_entry) at h in
        let idle = has_entries-none c.buffer e in
        rw (e, reply_of)
          (fetched name (last_in name (server_gave client c s)) c d (fetch client c s) t got
            (fetch-Holds client name c s idle) ran)
    | inr (r, e) ↦
        let held = has_entries-some c.buffer r e in
        rw (e, reply_of, held) (unfold entries_of find last_in in refl)
  ]
