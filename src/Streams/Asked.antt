-- ===== src/Streams/Asked.antt =====
-- What the server gives a call of `Consumer.get_entry` of coredis/stream.py: the replies themselves, as `XREAD` gives them.
use coredis.Prelude.{
  ℕ, ◌+◌, ◌≡◌, refl, sym, ◌∙◌, ap, Bool, true, false, Option, none, some, List, [], ◌∷◌, ◌++◌,
  if◌then◌else◌, Option-cases, inl, inr,
}
use mathlib.Core.Path.{subst}
use coredis.Dict.{find, set_item, same, find-set_item}
use coredis.Names.{Names, names_equal}
use coredis.Streams.{
  Entry, Consumer, Client, Outcome, done, ReadAnswer, entries, nothing, read_exception, update,
  block_of,
}
use coredis.Streams.Get.{after_read, read_chunks, chunk_streams, fetch}

unfoldable pub or_else : {A : Type 0} → Option A → Option A → Option A
or_else none o = o
or_else (some a) o = some a

-- What the last of the pairs with this name holds.
unfoldable pub last_in : List ℕ → Names (List Entry) → Option (List Entry)
unfolding or_else
last_in name [] = none
last_in name ((s, es) ∷ more) =
    or_else (last_in name more) (if same names_equal name s then some es else none)

unfoldable pub has_entries : Names (List Entry) → Bool
has_entries [] = false
has_entries ((s, []) ∷ rest) = has_entries rest
has_entries ((s, e ∷ es) ∷ rest) = true

unfoldable pub entries_in : {E : Type 0} → ReadAnswer E → Names (List Entry)
entries_in (entries more) = more
entries_in nothing = []
entries_in (read_exception e) = []

module _ {S E : Type 0} (client : Client S E) where
  -- The replies for these chunks, one behind the other.
  unfoldable pub replies_for : Consumer → List (Names (List ℕ)) → S → Names (List Entry)
  unfolding entries_in block_of
  replies_for c [] s = []
  replies_for c (chunk ∷ chunks) s =
      let (reply, t) = client.xread chunk (c.buffer_size + 1) (block_of c.timeout) s in
      entries_in reply ++ replies_for c chunks t

  -- All that a call gets: nothing is asked for where an entry is buffered.
  unfoldable pub server_gave : Consumer → S → Names (List Entry)
  unfolding replies_for has_entries chunk_streams
  server_gave c s =
      if has_entries c.buffer
      then []
      else elim (chunk_streams client c) [ none ↦ [] | some chunks ↦ replies_for c chunks s ]

or_else_assoc : {A : Type 0} (x y z : Option A) → or_else x (or_else y z) ≡ or_else (or_else x y) z
unfolding or_else
or_else_assoc none y z = refl
or_else_assoc (some a) y z = refl

or_else-if :
    {A : Type 0} (b : Bool) (a : A) (o : Option A)
    → (if b then some a else o) ≡ or_else (if b then some a else none) o
unfolding or_else
or_else-if true a o = refl
or_else-if false a o = refl

nothing_else : {A : Type 0} (o : Option A) → o ≡ or_else o none
unfolding or_else
nothing_else none = refl
nothing_else (some a) = refl

last_in-append :
    (name : List ℕ) (xs ys : Names (List Entry))
    → last_in name (xs ++ ys) ≡ or_else (last_in name ys) (last_in name xs)
unfolding last_in
last_in-append name [] ys = nothing_else (last_in name ys)
last_in-append name ((s, es) ∷ xs) ys =
    let this = if same names_equal name s then some es else none in
    ap (λ o. or_else o this) (last_in-append name xs ys)
    ∙ sym (or_else_assoc (last_in name ys) (last_in name xs) this)

-- `update` keeps what it does not replace.
find-update :
    (name : List ℕ) (more consumed : Names (List Entry))
    → find names_equal name (update more consumed)
      ≡ or_else (last_in name more) (find names_equal name consumed)
unfolding update last_in or_else
find-update name [] consumed = refl
find-update name ((s, es) ∷ more) consumed =
    let this = if same names_equal name s then some es else none in
    let held = find names_equal name consumed in
    find-update name more (set_item names_equal s es consumed)
    ∙ ap (or_else (last_in name more)) (
        find-set_item names_equal name s es consumed ∙ or_else-if (same names_equal name s) es held)
    ∙ or_else_assoc (last_in name more) this held

module _ {S E : Type 0} (client : Client S E) where
  -- What is read, on a run that ends without an exception.
  unfoldable pub Holds : List ℕ → Option (List Entry) → Outcome E (Names (List Entry)) → Type 0
  Holds name o (done r) = find names_equal name r ≡ o
  Holds name o _ = Unit

  after_read-Holds :
      (name : List ℕ) (c : Consumer) (chunks : List (Names (List ℕ)))
      (consumed : Names (List Entry)) (x : ReadAnswer E × S)
      → ((more : Names (List Entry)) (t : S)
          → Holds name
              (or_else (last_in name (replies_for client c chunks t)) (find names_equal name more))
              (read_chunks client c chunks more t).0)
      → Holds name
          (or_else
            (last_in name (entries_in x.0 ++ replies_for client c chunks x.1))
            (find names_equal name consumed))
          (after_read client (read_chunks client c chunks) consumed x).0
  unfolding after_read entries_in Holds
  after_read-Holds name c chunks consumed (entries more, t) f =
      let later = last_in name (replies_for client c chunks t) in
      let same_find =
        ap (or_else later) (find-update name more consumed)
        ∙ or_else_assoc later (last_in name more) (find names_equal name consumed)
        ∙ ap (λ o. or_else o (find names_equal name consumed))
            (sym (last_in-append name more (replies_for client c chunks t))) in
      subst (λ o. Holds name o (read_chunks client c chunks (update more consumed) t).0) same_find
        (f (update more consumed) t)
  after_read-Holds name c chunks consumed (nothing, t) f = f consumed t
  after_read-Holds name c chunks consumed (read_exception e, t) f = tt

  read_chunks-Holds :
      (name : List ℕ) (c : Consumer) (chunks : List (Names (List ℕ)))
      (consumed : Names (List Entry)) (s : S)
      → Holds name
          (or_else (last_in name (replies_for client c chunks s)) (find names_equal name consumed))
          (read_chunks client c chunks consumed s).0
  unfolding read_chunks replies_for Holds last_in or_else
  read_chunks-Holds name c [] consumed s = refl
  read_chunks-Holds name c (chunk ∷ chunks) consumed s =
      after_read-Holds name c chunks consumed
        (client.xread chunk (c.buffer_size + 1) (block_of c.timeout) s)
        (λ more t. read_chunks-Holds name c chunks more t)

  pub fetch-Holds :
      (name : List ℕ) (c : Consumer) (s : S)
      → has_entries c.buffer ≡ false
      → Holds name (last_in name (server_gave client c s)) (fetch client c s).0
  unfolding fetch server_gave Holds last_in find
  fetch-Holds name c s none_there = elim (Option-cases (chunk_streams client c)) [
    | inl e ↦ rw (none_there, e, fetch) tt
    | inr (chunks, e) ↦
        rw (none_there, e, fetch)
          (subst (λ o. Holds name o (read_chunks client c chunks [] s).0)
            (sym (nothing_else (last_in name (replies_for client c chunks s))))
            (read_chunks-Holds name c chunks [] s))
  ]
