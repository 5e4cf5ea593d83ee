-- ===== src/NodeManager/Routed.antt =====
-- What `initialize` of coredis/pool/nodemanager.py puts into a slot.
use coredis.Prelude.{
  ℕ, zero, suc, ◌-◌, ◌≡◌, refl, sym, ◌∙◌, Bool, true, false, Option, none, some, List, [], ◌∷◌,
  ℕ_discrete, if◌then◌else◌, map, Option-cases, inl, inr,
}
use coredis.Dict.{find, set_item, same-cases, same_refl, find-set_item}
use coredis.Resp.Value.{same_codes}
use coredis.NodeManager.{
  replica, ManagedNode, name_of, Names, Slots, names_equal, is_primary, is_replica,
}
use coredis.NodeManager.Discover.{
  SlotNode, Conflict, cannot_agree, Outcome, done, raised, ◌>>=◌, Ranges, Progress, cache_nodes,
  compare_slot, claim_slot, claim_slots, managed, primary_of, learn_range, learn_ranges,
}

-- `key in dict`
unfoldable pub found : {V : Type 0} → Option V → Bool
found none = false
found (some v) = true

abbrev pub has : {V : Type 0} → List ℕ → Names V → Bool
has k d = found (find names_equal k d)

module _ {V : Type 0} where
  has-set_item_self : (k : List ℕ) (v : V) (d : Names V) → has k (set_item names_equal k v d) ≡ true
  unfolding found
  has-set_item_self k v d = rw (find-set_item names_equal k k v d, same_refl names_equal k) refl

  has-set_item :
      (j k : List ℕ) (v : V) (d : Names V)
      → has j d ≡ true
      → has j (set_item names_equal k v d) ≡ true
  unfolding found
  has-set_item j k v d h = elim (same-cases names_equal j k) [
    | inl (e, f) ↦ rw (find-set_item names_equal j k v d, e) refl
    | inr e ↦ rw (find-set_item names_equal j k v d, e) h
  ]

-- Nodes that are replicas, and in the dict of nodes.
abbrev pub Replicas : Names ManagedNode → List ManagedNode → Type 0
Replicas nodes [] = Unit
Replicas nodes (n ∷ ns) =
    ((is_replica n ≡ true) × (has (name_of n) nodes ≡ true)) × Replicas nodes ns

-- The nodes of a slot: a primary and then replicas, all of them in the dict of nodes.
pub data Owned (nodes : Names ManagedNode) : List ManagedNode → Type 0 where
  owned :
      {p : ManagedNode} {rs : List ManagedNode}
      → is_primary p ≡ true
      → has (name_of p) nodes ≡ true
      → Replicas nodes rs
      → Owned nodes (p ∷ rs)

abbrev pub AllOwned : Names ManagedNode → Slots (List ManagedNode) → Type 0
AllOwned nodes slots =
    (i : ℕ) (owners : List ManagedNode) → find ℕ_discrete i slots ≡ some owners → Owned nodes owners

abbrev Grows : Names ManagedNode → Names ManagedNode → Type 0
Grows nodes more = (k : List ℕ) → has k nodes ≡ true → has k more ≡ true

Replicas-grow :
    (nodes more : Names ManagedNode) (rs : List ManagedNode)
    → Grows nodes more
    → Replicas nodes rs
    → Replicas more rs
Replicas-grow nodes more [] g h = tt
Replicas-grow nodes more (n ∷ ns) g ((r, k), h) =
    ((r, g (name_of n) k), Replicas-grow nodes more ns g h)

Owned-grow :
    (nodes more : Names ManagedNode) (owners : List ManagedNode)
    → Grows nodes more
    → Owned nodes owners
    → Owned more owners
Owned-grow nodes more [] g h = elim h [ ]
Owned-grow nodes more (p ∷ rs) g (owned h k r) =
    owned h (g (name_of p) k) (Replicas-grow nodes more rs g r)

AllReplica : List ManagedNode → Type 0
AllReplica [] = Unit
AllReplica (n ∷ ns) = (is_replica n ≡ true) × AllReplica ns

cache_nodes-Grows : (ns : List ManagedNode) (d : Names ManagedNode) → Grows d (cache_nodes ns d)
unfolding cache_nodes
cache_nodes-Grows [] d k h = h
cache_nodes-Grows (n ∷ ns) d k h =
    cache_nodes-Grows ns (set_item names_equal (name_of n) n d) k (has-set_item k (name_of n) n d h)

cache_nodes-Replicas :
    (ns : List ManagedNode) (d : Names ManagedNode) → AllReplica ns → Replicas (cache_nodes ns d) ns
unfolding cache_nodes AllReplica
cache_nodes-Replicas [] d h = tt
cache_nodes-Replicas (n ∷ ns) d (r, h) =
    let d' = set_item names_equal (name_of n) n d in
    (
      (r, cache_nodes-Grows ns d' (name_of n) (has-set_item_self (name_of n) n d)),
      cache_nodes-Replicas ns d' h,
    )

-- What holds of a result, if there is one.
abbrev pub Ends : {E A : Type 0} → (A → Type 0) → Outcome E A → Type 0
Ends P (done a) = P a
Ends P (raised e) = Unit

pub bind-Ends :
    {E A B : Type 0} (P : A → Type 0) (Q : B → Type 0) (m : Outcome E A) (f : A → Outcome E B)
    → Ends P m
    → ((a : A) → P a → Ends Q (f a))
    → Ends Q (m >>= f)
bind-Ends P Q (done a) f h g = g a h
bind-Ends P Q (raised e) f h g = tt

abbrev pub Sound : Progress → Type 0
Sound p = AllOwned p.nodes_cache p.tmp_slots

abbrev Claiming : ManagedNode → Progress → Type 0
Claiming n p = Sound p × (has (name_of n) p.nodes_cache ≡ true)

AllOwned-set_item :
    (nodes more : Names ManagedNode) (slots : Slots (List ManagedNode)) (i : ℕ)
    (owners : List ManagedNode)
    → Grows nodes more
    → Owned more owners
    → AllOwned nodes slots
    → AllOwned more (set_item ℕ_discrete i owners slots)
AllOwned-set_item nodes more slots i owners g h sound j js e =
    let held = sym (find-set_item ℕ_discrete j i owners slots) ∙ e in
    elim (same-cases ℕ_discrete j i) [
      | inl (here, _) ↦
          let entry : some owners ≡ some js = rw here at held in
          let as_js : owners ≡ js = cc in rw (← as_js) h
      | inr there ↦ Owned-grow nodes more js g (sound j js (rw there at held))
    ]

module _ (E : Type 0) where
  settled-Claiming :
      (agree many : Bool) (n : ManagedNode) (ds : List Conflict) (p : Progress)
      → Claiming n p
      → Ends {E = E} (Claiming n) (
          if agree
          then done p
          else if many
          then raised (cannot_agree ds)
          else done (record p { disagreements = ds }))
  settled-Claiming true many n ds p h = h
  settled-Claiming false true n ds p h = tt
  settled-Claiming false false n ds p h = h

  compare_slot-Claiming :
      (i : ℕ) (node n : ManagedNode) (owners : List ManagedNode) (p : Progress)
      → Claiming n p
      → Ends (Claiming n) (compare_slot {E = E} i node owners p)
  unfolding compare_slot
  compare_slot-Claiming i node n [] p h = tt
  compare_slot-Claiming i node n (owner ∷ owners) p h =
      settled-Claiming (same_codes (name_of owner) (name_of node)) _ n _ p h

  claim_slot-Claiming :
      (node n : ManagedNode) (rs : List ManagedNode) (i : ℕ) (p : Progress)
      → is_primary n ≡ true
      → AllReplica rs
      → Claiming n p
      → Ends (Claiming n) (claim_slot {E = E} node n rs i p)
  unfolding claim_slot
  claim_slot-Claiming node n rs i p primary_node all (sound, known) =
      elim (Option-cases (find ℕ_discrete i p.tmp_slots)) [
        | inr (owners, e) ↦
            rw (e, claim_slot) (compare_slot-Claiming i node n owners p (sound, known))
        | inl e ↦
            let grows = cache_nodes-Grows rs p.nodes_cache in
            let owners =
              owned primary_node (grows (name_of n) known)
                (cache_nodes-Replicas rs p.nodes_cache all) in
            rw (e, claim_slot)
              (
                AllOwned-set_item p.nodes_cache _ p.tmp_slots i (n ∷ rs) grows owners sound,
                grows (name_of n) known,
              )
      ]

  claim_slots-Claiming :
      (node n : ManagedNode) (rs : List ManagedNode) (first count : ℕ) (p : Progress)
      → is_primary n ≡ true
      → AllReplica rs
      → Claiming n p
      → Ends (Claiming n) (claim_slots {E = E} node n rs first count p)
  unfolding claim_slots
  claim_slots-Claiming node n rs first zero p primary_node all h = h
  claim_slots-Claiming node n rs first (suc count) p primary_node all h =
      bind-Ends (Claiming n) (Claiming n) (claim_slot node n rs first p) _
        (claim_slot-Claiming node n rs first p primary_node all h)
        (λ q k. claim_slots-Claiming node n rs (suc first) count q primary_node all k)

map-AllReplica : (ns : List SlotNode) → AllReplica (map (managed replica) ns)
unfolding AllReplica is_replica
map-AllReplica [] = tt
map-AllReplica (n ∷ ns) = (refl, map-AllReplica ns)

Ends-weaken :
    {E A : Type 0} (P Q : A → Type 0) (m : Outcome E A)
    → ((a : A) → P a → Q a)
    → Ends P m
    → Ends Q m
Ends-weaken P Q (done a) f h = f a h
Ends-weaken P Q (raised e) f h = tt

module _ (E : Type 0) where
  learn_range-Sound :
      (node : ManagedNode) (min_slot max_slot : ℕ) (ns : List SlotNode) (p : Progress)
      → Sound p
      → Ends Sound (learn_range {E = E} node ((min_slot, max_slot), ns) p)
  unfolding learn_range is_primary
  learn_range-Sound node min_slot max_slot [] p h = tt
  learn_range-Sound node min_slot max_slot (first ∷ rest) p h =
      let n = primary_of node first in
      let nodes = set_item names_equal (name_of n) n p.nodes_cache in
      let q : Progress = record p { nodes_cache = nodes } in
      let grows : Grows p.nodes_cache nodes = λ k. has-set_item k (name_of n) n p.nodes_cache in
      let sound : Sound q =
        λ i owners e. Owned-grow p.nodes_cache nodes owners grows (h i owners e) in
      Ends-weaken (Claiming n) Sound
        (claim_slots node n (map (managed replica) rest) min_slot (suc max_slot - min_slot) q)
        (λ a k. k.0)
        (claim_slots-Claiming E node n (map (managed replica) rest) min_slot
          (suc max_slot - min_slot) q refl (map-AllReplica rest)
          (sound, has-set_item_self (name_of n) n p.nodes_cache))

  pub learn_ranges-Sound :
      (node : ManagedNode) (reply : Ranges) (p : Progress)
      → Sound p
      → Ends Sound (learn_ranges {E = E} node reply p)
  unfolding learn_ranges
  learn_ranges-Sound node [] p h = h
  learn_ranges-Sound node (((min_slot, max_slot), ns) ∷ rest) p h =
      bind-Ends Sound Sound (learn_range node ((min_slot, max_slot), ns) p) _
        (learn_range-Sound node min_slot max_slot ns p h) (λ q k. learn_ranges-Sound node rest q k)
