-- ===== src/Resp/Lines.antt =====
-- Where a parser stands in its buffer, and what a pass of the loop reads there.
use coredis.Prelude.{
  ℕ, suc, ◌+◌, ◌-◌, ◌≡◌, refl, ap, ◌∙◌, ◌≢◌, Bool, true, Option, List, [], ◌∷◌, ◌++◌, arith, length,
  length-append, drop, drop-add, take-length-append, drop-length-append,
}
use coredis.Resp.Buffer.{first_line}
use coredis.Resp.Parser.{Parser, Runtime, ends_crlf, body, pass, read_item, after_read}

-- No line feed.
abbrev pub OneLine : List ℕ → Type 0
OneLine [] = Unit {0}
OneLine (c ∷ rest) = (c ≢ b'\n') × OneLine rest

-- The parser is about to read `unread`, and its counters and its buffer agree.
pub record Ready (p : Parser) (unread : List ℕ) : Type 0 where
  pub ahead : drop p.localbuffer.position p.localbuffer.contents ≡ unread
  pub synced : p.localbuffer.position ≡ p.bytes_read
  pub counted : p.bytes_written ≡ p.bytes_read + length unread
  pub whole : p.bytes_written ≡ length p.localbuffer.contents
  pub not_below : p.below_zero ≡ 0

-- The parser after `n` bytes more.
abbrev pub advance : ℕ → Parser → Parser
advance n p = record p {
  localbuffer = record p.localbuffer { position = p.localbuffer.position + n };
  bytes_read = p.bytes_read + n;
}

pub Ready-advance :
    (p : Parser) (front back : List ℕ)
    → Ready p (front ++ back)
    → Ready (advance (length front) p) back
Ready-advance p front back r = record {
  ahead =
      drop-add p.localbuffer.position (length front) p.localbuffer.contents
      ∙ ap (drop (length front)) r.ahead
      ∙ drop-length-append front back;
  synced = ap (λ n. n + length front) r.synced;
  counted = omega (arith, r.counted, length-append front back);
  whole = r.whole;
  not_below = r.not_below;
}

abbrev pub crlf : List ℕ
crlf = 13 ∷ 10 ∷ []

first_line-crlf :
    (line rest : List ℕ) → OneLine line → first_line (line ++ 13 ∷ 10 ∷ rest) ≡ line ++ crlf
unfolding first_line
first_line-crlf [] rest h = refl
first_line-crlf (c ∷ line) rest h = ground (arith, first_line-crlf line rest h.1)

ends_crlf-crlf : (line : List ℕ) → ends_crlf (line ++ crlf) ≡ true
unfolding ends_crlf
ends_crlf-crlf [] = refl
ends_crlf-crlf (c ∷ []) = refl
ends_crlf-crlf (c ∷ d ∷ []) = refl
ends_crlf-crlf (c ∷ d ∷ e ∷ line) = ends_crlf-crlf (d ∷ e ∷ line)

body-crlf : (marker : ℕ) (chunk : List ℕ) → body (marker ∷ chunk ++ crlf) ≡ chunk
unfolding body
body-crlf marker chunk =
    let width : suc (length (chunk ++ crlf)) - 3 ≡ length chunk =
      omega (arith, length-append chunk crlf) in
    rw width (take-length-append chunk crlf)

module _ (py : Runtime) (decode_bytes : Bool) (encoding : Option (List ℕ)) where
  -- A pass over a line that is there in whole.
  pub pass_line :
      (p : Parser) (marker : ℕ) (chunk rest : List ℕ)
      → marker ≢ b'\n'
      → OneLine chunk
      → Ready p (marker ∷ chunk ++ 13 ∷ 10 ∷ rest)
      → pass py decode_bytes encoding p
        ≡ after_read marker (
            read_item py decode_bytes encoding marker chunk
              (length chunk + 3)
              (advance (length chunk + 3) p))
  unfolding pass
  pass_line p marker chunk rest no_lf one_line r =
      let line = marker ∷ chunk ++ crlf in
      let found : first_line (drop p.localbuffer.position p.localbuffer.contents) ≡ line =
        ap first_line r.ahead ∙ first_line-crlf (marker ∷ chunk) rest (no_lf, one_line) in
      let width : length line ≡ length chunk + 3 = omega (arith, length-append chunk crlf) in
      rw (found, ends_crlf-crlf (marker ∷ chunk), body-crlf marker chunk, width)
