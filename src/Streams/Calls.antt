-- ===== src/Streams/Calls.antt =====
-- What a sequence of calls of `Consumer.get_entry` of coredis/stream.py hands out.
use coredis.Prelude.{ℕ, ◌≡◌, refl, sym, ◌∙◌, ap, true, Option, List, [], ◌∷◌, ◌++◌}
use mathlib.Core.Path.{subst}
use mathlib.Core.List.{append-nil, append_assoc}
use coredis.Dict.{Distinct}
use coredis.Names.{Names, names_equal}
use coredis.Streams.{Entry, Consumer, Client, done, or_empty}
use coredis.Streams.Asked.{last_in, server_gave}
use coredis.Streams.Gave.{reply_of-gave}
use coredis.Streams.Get.{next_entry, initialize, get_entry}
use coredis.Streams.Deliver.{entries_of, taken}
use coredis.Streams.Handed.{reply_of, Handed, next_entry-Handed}

-- The entries handed out for a stream, and those that the server gave: of each call those of the last reply that names it.
unfoldable pub all_taken : List ℕ → List (Option (List ℕ × Entry)) → List Entry
all_taken name [] = []
all_taken name (got ∷ gots) = taken name got ++ all_taken name gots

unfoldable pub all_entries : List ℕ → List (Names (List Entry)) → List Entry
all_entries name [] = []
all_entries name (reply ∷ replies) = or_empty (last_in name reply) ++ all_entries name replies

-- Calls of `get_entry` that return; the servers may be in any state when the next one is made.
pub data Calls {S E : Type 0} (client : Client S E)
    : Consumer
      → List (Option (List ℕ × Entry))
      → List (Names (List Entry))
      → Consumer
      → Type 0 where
  no_calls : (c : Consumer) → Calls client c [] [] c
  a_call :
      (c d f : Consumer) (s t : S) (got : Option (List ℕ × Entry))
      (gots : List (Option (List ℕ × Entry))) (replies : List (Names (List Entry)))
      → get_entry client c s ≡ (done got, d, t)
      → Calls client d gots replies f
      → Calls client c (got ∷ gots) (server_gave client c s ∷ replies) f

module _ {S E : Type 0} (client : Client S E) where
  pub initialized-get_entry :
      (c : Consumer) (s : S) → c.initialized ≡ true → get_entry client c s ≡ next_entry client c s
  unfolding get_entry initialize
  initialized-get_entry c s h = rw (h, initialize) refl

  call-Handed :
      (c d : Consumer) (s t : S) (got : Option (List ℕ × Entry))
      → c.initialized ≡ true
      → Distinct names_equal c.buffer
      → get_entry client c s ≡ (done got, d, t)
      → Handed client c (reply_of client c s) (done got, d, t)
  call-Handed c d s t got h k e =
      subst (λ x. Handed client c (reply_of client c s) x) (sym (initialized-get_entry c s h) ∙ e)
        (next_entry-Handed client c s k)

  -- Of each stream, what an initialized consumer hands out in calls that return, and then has in its buffer, is what it had in
  -- its buffer and then what the server gave, in that order: of each call, which asks for nothing while an entry is buffered,
  -- the entries of the last of its replies that names the stream.
  pub Calls-in_order :
      (c f : Consumer) (gots : List (Option (List ℕ × Entry))) (replies : List (Names (List Entry)))
      → c.initialized ≡ true
      → Distinct names_equal c.buffer
      → Calls client c gots replies f
      → (name : List ℕ)
      → all_taken name gots ++ entries_of name f.buffer
        ≡ entries_of name c.buffer ++ all_entries name replies
  unfolding all_taken all_entries
  Calls-in_order c f gots replies h k (no_calls g) name =
      sym (append-nil (entries_of name g.buffer))
  Calls-in_order c f gots replies h k (a_call a d b s t got more others e calls) name =
      let (still, tidy, handed) = call-Handed c d s t got h k e in
      let gave = λ (n : List ℕ).
        reply_of-gave client n c d s t got (sym (initialized-get_entry c s h) ∙ e) in
      let later = Calls-in_order d f more others (still ∙ h) tidy calls name in
      append_assoc (taken name got) (all_taken name more) (entries_of name f.buffer)
      ∙ ap (λ xs. taken name got ++ xs) later
      ∙ sym (append_assoc (taken name got) (entries_of name d.buffer) (all_entries name others))
      ∙ ap (λ xs. xs ++ all_entries name others)
          (handed name ∙ ap (λ xs. entries_of name c.buffer ++ xs) (gave name))
      ∙ append_assoc (entries_of name c.buffer) (or_empty (last_in name (server_gave client c s)))
          (all_entries name others)
