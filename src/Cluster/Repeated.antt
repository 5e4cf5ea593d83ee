-- ===== src/Cluster/Repeated.antt =====
-- Commands of keys only, as DEL, EXISTS, TOUCH and UNLINK, in `_split_args_over_nodes` of coredis/client/cluster.py.
use coredis.Prelude.{
  ℕ, suc, ◌-◌, ◌<◌, ◌≤◌, ◌≡◌, refl, ap, ◌∙◌, true, false, Option, none, some, List, [], ◌∷◌, ◌++◌,
  map, take, drop, if◌then◌else◌, length, Bool-cases, inl, inr, arith, length-append, length-take,
  take-ge, drop-ge,
}
use coredis.Dict.{same, same_refl}
use coredis.Resp.Packer.{raw}
use coredis.KeySpec.Spec.{extracted}
use coredis.NodeManager.{ManagedNode, Manager, names_equal}
use coredis.NodeManager.Keys.{keys_to_nodes_by_slot}
use coredis.Cluster.{Router, is_split, is_found}
use coredis.Cluster.Split.{
  Args, unmapped, around, grouped, checked, split_between, between_indices, split_by_keys,
  split_keys, split_bytes, same_args, next_index, index, last_of, keys_of, forgotten_keys,
  split_args_over_nodes,
}
use coredis.Cluster.Sent.{raw_bytes_lem}

same_args_refl : (a : Args) → same_args a a ≡ true
unfolding same_args
same_args_refl [] = refl
same_args_refl (a ∷ more) = rw (same_refl names_equal a, same_args_refl more) refl

same_args-length : (a b : Args) → length a < length b → same_args a b ≡ false
unfolding same_args
same_args-length [] [] h = absurd (omega arith)
same_args-length [] (b ∷ bs) h = refl
same_args-length (a ∷ more) [] h = absurd (omega arith)
same_args-length (a ∷ more) (b ∷ bs) h = elim (Bool-cases (same names_equal a b)) [
  | inl e ↦ rw e (same_args-length more bs (omega (arith, h)))
  | inr e ↦ rw e refl
]

-- Where `x` is first in arguments that it ends.
unfoldable or_end : Args → Option ℕ → ℕ
or_end front none = length front
or_end front (some n) = n

or_end-next_index :
    (a : List ℕ) (front : Args) (o : Option ℕ)
    → suc (or_end front o) ≡ or_end (a ∷ front) (next_index o)
unfolding or_end next_index
or_end-next_index a front none = refl
or_end-next_index a front (some n) = refl

next_index-lt :
    (o : Option ℕ) (m n : ℕ) → next_index o ≡ some n → ((k : ℕ) → o ≡ some k → k < m) → n < suc m
unfolding next_index
next_index-lt none m n e h = cc
next_index-lt (some k) m n e h = let up : suc k ≡ n = cc in omega (arith, h k refl, up)

index-lt : (x : List ℕ) (front : Args) (n : ℕ) → index x front ≡ some n → n < length front
unfolding index
index-lt x [] n h = cc
index-lt x (a ∷ front) n h = elim (Bool-cases (same names_equal x a)) [
  | inl e ↦
      let zeroth : some 0 ≡ some n = rw e at h in let first : 0 ≡ n = cc in omega (arith, first)
  | inr e ↦ next_index-lt (index x front) (length front) n (rw e at h) (index-lt x front)
]

index-append :
    (x : List ℕ) (front : Args) → index x (front ++ x ∷ []) ≡ some (or_end front (index x front))
unfolding index or_end
index-append x [] = rw (same_refl names_equal x) refl
index-append x (a ∷ front) = elim (Bool-cases (same names_equal x a)) [
  | inl e ↦ rw e refl
  | inr e ↦ rw (e, index-append x front) (ap some (or_end-next_index a front (index x front)))
]

last_of-append : (k : List ℕ) (front : Args) (x : List ℕ) → last_of k (front ++ x ∷ []) ≡ x
unfolding last_of
last_of-append k [] x = refl
last_of-append k (a ∷ front) x = last_of-append a front x

checked_short :
    (m : Manager) (keys forgotten slice front back : Args)
    → same_args slice keys ≡ false
    → checked m keys forgotten slice front back ≡ unmapped
unfolding checked
checked_short m keys forgotten slice front back h = rw h refl

-- The slice ends where the last key is first, so it is all of the arguments just where this is at their end.
split_between_all :
    (m : Manager) (front : Args) (x : List ℕ) (forgotten : Args) (o : Option ℕ)
    → index x front ≡ o
    → split_between m (front ++ x ∷ []) (front ++ x ∷ []) forgotten 0 (or_end front o) ≡ (
        if is_found o
        then unmapped
        else grouped [] [] forgotten (keys_to_nodes_by_slot m (front ++ x ∷ [])))
unfolding split_between around or_end is_found checked
split_between_all m front x forgotten none e =
    let args = front ++ x ∷ [] in
    let end = suc (length front) in
    let all : length args ≤ end = omega (arith, length-append front (x ∷ [])) in
    let whole : take (end - 0) args ≡ args = take-ge (end - 0) args (omega (arith, all)) in
    ap (λ slice. checked m args forgotten slice [] (drop end args)) whole
    ∙ ap (checked m args forgotten args []) (drop-ge end args all)
    ∙ rw (same_args_refl args) refl
split_between_all m front x forgotten (some n) e =
    let args = front ++ x ∷ [] in
    let slice = take (suc n - 0) args in
    let short : length slice < length args =
      omega
        (arith, length-take (suc n - 0) args, length-append front (x ∷ []), index-lt x front n e) in
    checked_short m args forgotten slice [] (drop (suc n) args) (same_args-length slice args short)

index-first : (k : List ℕ) (args : Args) → index k (k ∷ args) ≡ some 0
unfolding index
index-first k args = rw (same_refl names_equal k) refl

split_by_all :
    (m : Manager) (front : Args) (x : List ℕ) (forgotten : Args)
    → split_by_keys m (front ++ x ∷ []) (front ++ x ∷ []) forgotten
      ≡ split_between m
          (front ++ x ∷ [])
          (front ++ x ∷ [])
          forgotten
          0
          (or_end front (index x front))
unfolding split_by_keys
split_by_all m [] x forgotten =
    ap (λ i. between_indices m (x ∷ []) (x ∷ []) forgotten i (index x (x ∷ []))) (index-first x [])
    ∙ ap (between_indices m (x ∷ []) (x ∷ []) forgotten (some 0)) (index-append x [])
    ∙ unfold between_indices in refl
split_by_all m (k ∷ front) x forgotten =
    let args = k ∷ (front ++ x ∷ []) in
    ap (λ i. between_indices m args args forgotten i (index (last_of k (front ++ x ∷ [])) args))
      (index-first k (front ++ x ∷ []))
    ∙ ap (between_indices m args args forgotten (some 0))
        (ap (λ y. index y args) (last_of-append k front x) ∙ index-append x (k ∷ front))
    ∙ unfold between_indices in refl

-- A command that is split over the nodes and has all of its arguments for keys, the last of which is `x`: where `x` is
-- also among the other arguments, the assertion fails; where it is not, the arguments are grouped, and this ends well
-- where no slot of theirs raises a KeyError.
pub split_args_over_nodes-all_keys :
    (r : Router) (m : Manager) (nodes : List ManagedNode) (command : List ℕ) (front : Args)
    (x : List ℕ)
    → is_split r command ≡ true
    → keys_of command (front ++ x ∷ []) false ≡ extracted (map (λ key. raw key) (front ++ x ∷ []))
    → split_args_over_nodes r m nodes command (front ++ x ∷ []) ≡ (
        if is_found (index x front)
        then unmapped
        else grouped [] []
            (forgotten_keys r command (front ++ x ∷ []))
            (keys_to_nodes_by_slot m (front ++ x ∷ [])))
unfolding split_args_over_nodes split_keys split_bytes
split_args_over_nodes-all_keys r m nodes command front x h e =
    let args = front ++ x ∷ [] in
    let forgotten = forgotten_keys r command args in
    let keyed : split_args_over_nodes r m nodes command args ≡ split_by_keys m args args forgotten =
      rw (h, e) (ap (split_bytes r m command args) (raw_bytes_lem args)) in
    keyed
    ∙ split_by_all m front x forgotten
    ∙ split_between_all m front x forgotten (index x front) refl
