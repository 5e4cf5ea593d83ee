-- ===== src/Resp/Chunks.antt =====
-- How the bytes are cut into pieces does not matter: a call of `parse` that finds too little leaves
-- a state from which the next piece is read as if it had been there at once.
use mathlib.Core.Path.{subst}
use coredis.Prelude.{
  ℕ, zero, suc, ◌+◌, ◌≤◌, ◌<◌, ◌≡◌, ◌≢◌, refl, ap, sym, ◌∙◌, Bool, true, false, Option, List, [],
  ◌∷◌, ◌++◌, ◌==◌, arith, length, length-drop, Bool-cases, ◌⊎◌, inl, inr, drop, drop-add, get_or,
  if◌then◌else◌, ltb,
}
use coredis.Resp.Value.{Value}
use coredis.Resp.Nodes.{Node, append, close_nodes}
use coredis.Resp.Buffer.{first_line}
use coredis.Resp.Parser.{
  Parser, Runtime, Read, Step, waits, continues, breaks, raises, finish, settle, after_read,
  ends_crlf, read_item, body, pass, parse_loop, parse, resume, out_of_fuel, Outcome,
  UnpackedResponse, not_enough_data,
}
use coredis.Resp.Lines.{Ready, advance}
use coredis.Resp.Settle.{with_nodes}
use coredis.Resp.Extend.{
  extend, map_step, drop-append_le, settle-extend, first_line_complete, ends_lf_of_crlf,
  length-first_line-le,
}
use coredis.Resp.InStep.{in_step, in_steps}
use coredis.Resp.Tracks.{
  Onward, Spent, Below, Tracks, on_item, on_opened, on_short, on_fault, on_below, on_below_fault,
  Tracks-read_item,
}
use coredis.Resp.Containers.{advance-advance}
use coredis.Resp.Leaves.{Ready-with_nodes}

-- A step that goes on has changed the nodes only, and one that ends the loop has left none.
abbrev pub Keeps : Parser → Step → Type 0
Keeps q (continues p) = p ≡ with_nodes p.nodes q
Keeps q (breaks m v p) = p ≡ with_nodes [] q
Keeps q _ = Unit {0}

finish-Keeps : (m : ℕ) (v : Value) (nodes : List Node) (q : Parser) → Keeps q (finish m v nodes q)
unfolding finish
finish-Keeps m v [] q = refl
finish-Keeps m v (top ∷ []) q = elim (Bool-cases (top.depth == 0)) [
  | inl e ↦ rw e refl
  | inr e ↦ rw e refl
]
finish-Keeps m v (top ∷ below ∷ rest) q = refl

Keeps-if :
    (b : Bool) (q : Parser) (s t : Step) → Keeps q s → Keeps q t → Keeps q (if b then s else t)
Keeps-if true q s t h k = h
Keeps-if false q s t h k = k

pub settle-Keeps :
    (m : ℕ) (v : Value) (nodes : List Node) (q : Parser) → Keeps q (settle m v nodes q)
unfolding settle
settle-Keeps m v [] q = finish-Keeps m v [] q
settle-Keeps m v (top ∷ rest) q =
    let filled = append top v in
    Keeps-if (ltb 0 top.depth) q _ _
      (Keeps-if (ltb 1 filled.depth) q (continues (with_nodes (filled ∷ rest) q)) _ refl
        (finish-Keeps m v (close_nodes filled rest) q))
      (finish-Keeps m v (close_nodes top rest) q)

Keeps-continues : (q p : Parser) (s : Step) → Keeps q s → s ≡ continues p → p ≡ with_nodes p.nodes q
Keeps-continues q p (continues p') h e = let same : p' ≡ p = ground arith in rw same at h
Keeps-continues q p (waits p') h e = cc
Keeps-continues q p (breaks m v p') h e = cc
Keeps-continues q p (raises x p') h e = cc

-- What comes of a step with more bytes behind it, if it did not wait for them.
abbrev pub Extends : List ℕ → Step → Step → Type 0
Extends d (waits p) t = Unit {0}
Extends d s t = t ≡ map_step (extend d) s

Extends-same : (d : List ℕ) (s t : Step) → t ≡ map_step (extend d) s → Extends d s t
Extends-same d (waits p) t e = tt
Extends-same d (continues p) t e = e
Extends-same d (breaks m v p) t e = e
Extends-same d (raises x p) t e = e

finish-in_step :
    (m : ℕ) (v : Value) (nodes : List Node) (q : Parser) → in_steps (finish m v nodes q) ≡ in_step q
unfolding finish in_steps in_step
finish-in_step m v [] q = refl
finish-in_step m v (top ∷ []) q = elim (Bool-cases (top.depth == 0)) [
  | inl e ↦ rw e refl
  | inr e ↦ rw e refl
]
finish-in_step m v (top ∷ below ∷ rest) q = refl

if_in_steps :
    (b : Bool) (s t : Step) (x : Bool)
    → in_steps s ≡ x
    → in_steps t ≡ x
    → in_steps (if b then s else t) ≡ x
if_in_steps true s t x h k = h
if_in_steps false s t x h k = k

pub settle-in_step :
    (m : ℕ) (v : Value) (nodes : List Node) (q : Parser) → in_steps (settle m v nodes q) ≡ in_step q
unfolding settle in_steps in_step
settle-in_step m v [] q = finish-in_step m v [] q
settle-in_step m v (top ∷ rest) q =
    let filled = append top v in
    if_in_steps (ltb 0 top.depth) _ _ (in_step q)
      (if_in_steps (ltb 1 filled.depth) (continues (with_nodes (filled ∷ rest) q)) _ (in_step q)
        refl (finish-in_step m v (close_nodes filled rest) q))
      (finish-in_step m v (close_nodes top rest) q)

module _ (d : List ℕ) (base : Parser) (room m : ℕ) where
  after_read-Extends :
      (r r' : Read)
      → Tracks d base room r r'
      → in_steps (after_read m r) ≡ true
      → Extends d (after_read m r) (after_read m r')
  unfolding after_read in_steps
  after_read-Extends r r' (on_item v q o) i =
      Extends-same d (settle m v q.nodes q) _ (settle-extend d m v q.nodes q)
  after_read-Extends r r' (on_opened q o) i = refl
  after_read-Extends r r' (on_short q x) i = tt
  after_read-Extends r r' (on_fault x q) i = refl
  after_read-Extends r r' (on_below v q x (out, spent)) i =
      let never : true ≡ false = sym i ∙ settle-in_step m v q.nodes q ∙ out in cc
  after_read-Extends r r' (on_below_fault e q x (out, spent)) i =
      let never : true ≡ false = sym i ∙ out in cc

  after_read-Onward :
      (r r' : Read) (p : Parser)
      → Tracks d base room r r'
      → after_read m r ≡ continues p
      → Onward base room p ⊎ Below p
  unfolding after_read in_step
  after_read-Onward r r' p (on_item v q (n, small, e)) h =
      let kept = Keeps-continues q p (settle m v q.nodes q) (settle-Keeps m v q.nodes q) h in
      inl (n, small, kept ∙ ap (with_nodes p.nodes) e)
  after_read-Onward r r' p (on_opened q o) h =
      let same : q ≡ p = ground arith in inl (subst (Onward base room) same o)
  after_read-Onward r r' p (on_short q x) h = cc
  after_read-Onward r r' p (on_fault x q) h = cc
  after_read-Onward r r' p (on_below v q x b) h =
      let kept = Keeps-continues q p (settle m v q.nodes q) (settle-Keeps m v q.nodes q) h in
      inr (subst Below (sym kept) b)
  after_read-Onward r r' p (on_below_fault x q y b) h = cc

length-line_pos : (line : List ℕ) → ends_crlf line ≡ true → 0 < length line
unfolding ends_crlf
length-line_pos [] e = cc
length-line_pos (c ∷ line) e = omega arith

pub Ready-onward :
    (p : Parser) (u : List ℕ) (n : ℕ) → n ≤ length u → Ready p u → Ready (advance n p) (drop n u)
Ready-onward p u n h r = record {
  ahead = drop-add p.localbuffer.position n p.localbuffer.contents ∙ ap (drop n) r.ahead;
  synced = ap (λ k. k + n) r.synced;
  counted = omega (arith, r.counted, length-drop n u);
  whole = r.whole;
  not_below = r.not_below;
}

-- The parser `q` is ready for what a pass over `u` has left.
abbrev pub Next : Parser → Parser → List ℕ → Type 0
Next p q u =
    (n : ℕ) × (0 < n)
    × (n ≤ length u)
    × Ready q (drop n u)
    × (q.localbuffer.contents ≡ p.localbuffer.contents)

module _ (py : Runtime) (decode_bytes : Bool) (encoding : Option (List ℕ)) where
  -- A pass over a line that has all its bytes, and over the same with more behind.
  pub pass-Tracks :
      (d : List ℕ) (p : Parser) (u : List ℕ)
      → Ready p u
      → ((q : Parser) × (pass py decode_bytes encoding p ≡ waits q))
        ⊎ ((m : ℕ) × (r : Read) × (r' : Read) × (width : ℕ) × (0 < width)
            × (width ≤ length u)
            × (pass py decode_bytes encoding p ≡ after_read m r)
            × (pass py decode_bytes encoding (extend d p) ≡ after_read m r')
            × Tracks d (advance width p) (length (drop width u)) r r')
  unfolding pass
  pass-Tracks d p u r =
      let old = p.localbuffer.contents in
      let line = first_line (drop p.localbuffer.position old) in
      let m = get_or line 0 0 in
      let width = length line in
      let fits : width ≤ length u =
        rw (← r.ahead) (length-first_line-le (drop p.localbuffer.position old)) in
      let base = advance width p in
      let read = λ (q : Parser). read_item py decode_bytes encoding m (body line) width q in
      elim (Bool-cases (ends_crlf line)) [
        | inl e ↦
            let same : first_line (drop p.localbuffer.position (old ++ d)) ≡ line =
              ap first_line (
                drop-append_le p.localbuffer.position old d
                  (omega (arith, r.synced, r.counted, r.whole)))
              ∙ first_line_complete (drop p.localbuffer.position old) d (ends_lf_of_crlf line e) in
            inr (
              m,
              read base,
              read (extend d base),
              width,
              length-line_pos line e,
              fits,
              rw e,
              rw (same, e),
              Tracks-read_item py decode_bytes encoding d base (drop width u) m (body line) width
                  (Ready-onward p u width fits r),
            )
        | inr e ↦ inl (
          record p {
            localbuffer = record p.localbuffer { position = p.localbuffer.position + width };
          },
          rw e,
        )
      ]

  pub pass-Extends :
      (d : List ℕ) (p : Parser) (u : List ℕ)
      → Ready p u
      → in_steps (pass py decode_bytes encoding p) ≡ true
      → Extends d (pass py decode_bytes encoding p) (pass py decode_bytes encoding (extend d p))
  pass-Extends d p u r i = elim (pass-Tracks d p u r) [
    | inl (q, e) ↦ rw e tt
    | inr (m, x, y, width, some_read, fits, e, f, t) ↦
        rw (e, f) (after_read-Extends d (advance width p) _ m x y t (rw (← e) i))
  ]

  -- A pass that goes on has taken bytes, or all of them with a length below -2.
  pub Ready-or_Below :
      (p q : Parser) (u : List ℕ)
      → Ready p u
      → pass py decode_bytes encoding p ≡ continues q
      → Next p q u ⊎ ((0 < length u) × Below q)
  Ready-or_Below p q u r h = elim (pass-Tracks [] p u r) [
    | inl (w, e) ↦ cc
    | inr (m, x, y, width, some_read, fits, e, f, t) ↦
        elim (after_read-Onward [] (advance width p) _ m x y q t (sym e ∙ h)) [
          | inr below ↦ inr (omega arith, below)
          | inl (k, small, same) ↦
              let n = width + k in
              let taken : n ≤ length u = omega (arith, length-drop width u) in
              let there : q ≡ with_nodes q.nodes (advance n p) =
                same ∙ ap (with_nodes q.nodes) (advance-advance width k p) in
              inl (
                n,
                omega arith,
                taken,
                rw there (
                    Ready-with_nodes (advance n p) q.nodes (drop n u) (Ready-onward p u n taken r)),
                ap (λ (x : Parser). x.localbuffer.contents) there,
              )
        ]
  ]

  pub Ready-next :
      (p q : Parser) (u : List ℕ)
      → Ready p u
      → pass py decode_bytes encoding p ≡ continues q
      → in_step q ≡ true
      → Next p q u
  Ready-next p q u r h i = elim (Ready-or_Below p q u r h) [
    | inl next ↦ next
    | inr (some_read, below) ↦ let never : true ≡ false = sym i ∙ below.0 in cc
  ]

  pub pass-waits :
      (p : Parser) → Spent p → (w : Parser) × (pass py decode_bytes encoding p ≡ waits w)
  unfolding pass ends_crlf first_line
  pass-waits p spent =
      let line = first_line (drop p.localbuffer.position p.localbuffer.contents) in
      let short : ends_crlf line ≡ false = rw spent in
      (
        record p {
          localbuffer = record p.localbuffer { position = p.localbuffer.position + length line };
        },
        rw short,
      )

  pub loop-Spent :
      (n : ℕ) (p : Parser)
      → Spent p
      → (w : Parser) × (parse_loop py decode_bytes encoding (suc n) p ≡ not_enough_data w)
  unfolding parse_loop resume
  loop-Spent n p spent = let (w, e) = pass-waits p spent in (w, rw (pass-waits p spent).1)

  resume-total :
      (again : Parser → Outcome UnpackedResponse) (s : Step)
      → ((q : Parser) → s ≡ continues q → again q ≢ out_of_fuel)
      → resume again s ≢ out_of_fuel
  unfolding resume
  resume-total again (waits q) h e = cc
  resume-total again (breaks m v q) h e = cc
  resume-total again (raises x q) h e = cc
  resume-total again (continues q) h e = h q refl e

  Spent-total :
      (n : ℕ) (q : Parser) → 0 < n → Spent q → parse_loop py decode_bytes encoding n q ≢ out_of_fuel
  Spent-total zero q some_fuel spent e = absurd (omega arith)
  Spent-total (suc n) q some_fuel spent e =
      let (w, h) = loop-Spent n q spent in
      let never : not_enough_data w ≡ out_of_fuel = sym h ∙ e in cc

  pub loop-total :
      (n : ℕ) (p : Parser) (u : List ℕ)
      → Ready p u
      → length u < n
      → parse_loop py decode_bytes encoding n p ≢ out_of_fuel
  unfolding parse_loop
  loop-total zero p u r h = absurd (omega arith)
  loop-total (suc n) p u r h =
      resume-total (parse_loop py decode_bytes encoding n) (pass py decode_bytes encoding p) (λ q e.
        elim (Ready-or_Below p q u r e) [
          | inl (k, some_read, fits, next, whole) ↦
              loop-total n q (drop k u) next (omega (arith, length-drop k u))
          | inr (some_read, below) ↦ Spent-total n q (omega arith) below.1
        ])

  -- `parse` comes to an end whatever bytes it was fed.
  pub parse-total :
      (p : Parser) (u : List ℕ) → Ready p u → parse py decode_bytes encoding p ≢ out_of_fuel
  unfolding parse
  parse-total p u r =
      loop-total (suc (length p.localbuffer.contents)) p u r (omega (arith, r.counted, r.whole))
