-- ===== src/Resp/Extend.antt =====
-- A parser with more bytes behind those that it has: what does not change, up to one line and one
-- settled value.
use mathlib.Core.List.{append-nil}
use coredis.Prelude.{
  ℕ, zero, suc, ◌+◌, ◌-◌, ◌≤◌, ◌≡◌, refl, ap, ◌∙◌, Bool, true, false, List, [], ◌∷◌, ◌++◌, ◌==◌,
  arith, length, length-append, Bool-cases, inl, inr, drop, drop-ge, take-ge,
}
use coredis.Resp.Value.{Value}
use coredis.Resp.Nodes.{Node, append, close_nodes}
use coredis.Resp.Buffer.{first_line}
use coredis.Resp.Parser.{
  Parser, Step, waits, continues, breaks, raises, feed, seek_read, seek_fails, finish, settle,
  ends_crlf,
}
use coredis.Resp.Lines.{Ready}

-- The parser with more bytes at the end of its buffer.
abbrev pub extend : List ℕ → Parser → Parser
extend d p = record p {
  localbuffer = record p.localbuffer { contents = p.localbuffer.contents ++ d };
  bytes_written = p.bytes_written + length d;
}

-- `feed` appends, wherever the last call of `parse` has left the position, and takes it back to
-- what has not been read.
pub feed-eq-extend :
    (d : List ℕ) (p : Parser)
    → p.bytes_written ≡ length p.localbuffer.contents
    → p.below_zero ≡ 0
    → feed d p
      ≡ extend d (record p { localbuffer = record p.localbuffer { position = p.bytes_read } })
unfolding feed seek_read seek_fails
feed-eq-extend d p h above =
    let old = p.localbuffer.contents in
    let no_gap : p.bytes_written - length old ≡ 0 = omega arith in
    rw (
      above,
      take-ge p.bytes_written old (omega arith),
      no_gap,
      drop-ge (p.bytes_written + length d) old (omega arith),
      append-nil old,
      append-nil (old ++ d),
    )

pub drop-append_le : (n : ℕ) (xs ys : List ℕ) → n ≤ length xs → drop n (xs ++ ys) ≡ drop n xs ++ ys
drop-append_le zero xs ys h = refl
drop-append_le (suc n) [] ys h = absurd (omega arith)
drop-append_le (suc n) (x ∷ xs) ys h = drop-append_le n xs ys (omega arith)

pub Ready-extend : (d : List ℕ) (p : Parser) (u : List ℕ) → Ready p u → Ready (extend d p) (u ++ d)
Ready-extend d p u r = record {
  ahead =
      drop-append_le p.localbuffer.position p.localbuffer.contents d
        (omega (arith, r.synced, r.counted, r.whole))
      ∙ ap (λ (x : List ℕ). x ++ d) r.ahead;
  synced = r.synced;
  counted = omega (arith, r.counted, length-append u d);
  whole = omega (arith, r.whole, length-append p.localbuffer.contents d);
  not_below = r.not_below;
}

pub ends_lf : List ℕ → Bool
ends_lf [] = false
ends_lf (c ∷ []) = c == 10
ends_lf (c ∷ e ∷ rest) = ends_lf (e ∷ rest)

pub ends_lf_of_crlf : (line : List ℕ) → ends_crlf line ≡ true → ends_lf line ≡ true
unfolding ends_crlf ends_lf
ends_lf_of_crlf [] h = cc
ends_lf_of_crlf (c ∷ []) h = cc
ends_lf_of_crlf (c ∷ e ∷ []) h = ground arith
ends_lf_of_crlf (c ∷ e ∷ f ∷ rest) h = ends_lf_of_crlf (e ∷ f ∷ rest) h

ends_lf-tail :
    (c : ℕ) (line : List ℕ) → (c == 10) ≡ false → ends_lf (c ∷ line) ≡ true → ends_lf line ≡ true
unfolding ends_lf
ends_lf-tail c [] e h = cc
ends_lf-tail c (x ∷ line) e h = h

-- A line that is complete does not change with what comes after it.
pub first_line_complete :
    (u d : List ℕ) → ends_lf (first_line u) ≡ true → first_line (u ++ d) ≡ first_line u
unfolding first_line
first_line_complete [] d h = unfold ends_lf in cc
first_line_complete (c ∷ u) d h = elim (Bool-cases (c == 10)) [
  | inl e ↦ rw e
  | inr e ↦ rw e (
      ap (λ (t : List ℕ). c ∷ t)
        (first_line_complete u d (ends_lf-tail c (first_line u) e (rw e at h))))
]

pub length-first_line-le : (u : List ℕ) → length (first_line u) ≤ length u
unfolding first_line
length-first_line-le [] = omega arith
length-first_line-le (c ∷ u) = ground (arith, length-first_line-le u)

-- What a step does with `extend d` of its parser.
abbrev pub map_step : (Parser → Parser) → Step → Step
map_step f (waits p) = waits (f p)
map_step f (continues p) = continues (f p)
map_step f (breaks m v p) = breaks m v (f p)
map_step f (raises e p) = raises e (f p)

pub finish-extend :
    (d : List ℕ) (m : ℕ) (v : Value) (nodes : List Node) (p : Parser)
    → finish m v nodes (extend d p) ≡ map_step (extend d) (finish m v nodes p)
unfolding finish
finish-extend d m v [] p = refl
finish-extend d m v (top ∷ []) p = ground arith
finish-extend d m v (top ∷ below ∷ rest) p = refl

pub settle-extend :
    (d : List ℕ) (m : ℕ) (v : Value) (nodes : List Node) (p : Parser)
    → settle m v nodes (extend d p) ≡ map_step (extend d) (settle m v nodes p)
unfolding settle
settle-extend d m v [] p = finish-extend d m v [] p
settle-extend d m v (top ∷ rest) p = ground (
  arith,
  finish-extend d m v (close_nodes (append top v) rest) p,
  finish-extend d m v (close_nodes top rest) p,
)
