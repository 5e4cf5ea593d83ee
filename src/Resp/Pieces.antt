-- ===== src/Resp/Pieces.antt =====
-- How the bytes are cut into pieces does not matter to `parse`, as long as no bulk length is below -2.
use native.Mathlib.Nat.{add_comm, zero-add, add-zero, add_assoc}
use Prim.Native.Nat.add
use mathlib.Core.List.{append-nil, append_assoc}
use coredis.Prelude.{
  ℕ, zero, suc, ◌+◌, ◌≡◌, ◌≢◌, refl, ap, sym, ◌∙◌, Bool, true, ◌&&◌, Option, List, [], ◌∷◌, ◌++◌,
  arith, length, length-append, ◌⊎◌, inl, inr, drop, join,
}
use coredis.Resp.Parser.{
  Parser, Runtime, Step, waits, continues, breaks, raises, feed, init, pass, parse_loop, parse,
  resume, Outcome, not_enough_data, parsed, raised, out_of_fuel, UnpackedResponse,
}
use coredis.Resp.Lines.{Ready}
use coredis.Resp.Extend.{extend, feed-eq-extend, Ready-extend}
use coredis.Resp.Chunks.{Extends, pass-Extends, Ready-next, parse-total}
use coredis.Resp.Waits.{feed-waits}
use coredis.Resp.Fuel.{loop-more}
use coredis.Resp.RoundTrip.{Between}
use coredis.Resp.InStep.{in_step, in_steps, in_step_after, in_step_loop, stays_in_step}
use coredis.Resp.Lengths.{no_length_below, no_length_below-stays_in_step, both_left, both_right}

-- What a call says, without the parser that it leaves.
unfoldable pub forget {ℓ} : {A : Type ℓ} → Outcome A → Outcome A
forget (not_enough_data p) = not_enough_data init
forget (parsed r p) = parsed r init
forget (raised e p) = raised e init
forget out_of_fuel = out_of_fuel

Step-cases :
    (s : Step)
    → ((p : Parser) × (s ≡ continues p))
      ⊎ ((p : Parser) × (s ≡ waits p))
      ⊎ ((p : Parser) → s ≢ continues p) × ((p : Parser) → s ≢ waits p)
Step-cases (continues p) = inl (p, refl)
Step-cases (waits p) = inr (inl (p, refl))
Step-cases (breaks m v p) = inr (inr (λ q e. cc, λ q e. cc))
Step-cases (raises x p) = inr (inr (λ q e. cc, λ q e. cc))

pub feed-Ready : (p : Parser) (u d : List ℕ) → Ready p u → feed d p ≡ extend d p
feed-Ready p u d r =
    let back : record p { localbuffer = record p.localbuffer { position = p.bytes_read } } ≡ p =
      cc (r.synced) in
    feed-eq-extend d p r.whole r.not_below ∙ ap (extend d) back

ends_of_forget :
    (o o' : Outcome UnpackedResponse) → forget o ≡ forget o' → o' ≢ out_of_fuel → o ≢ out_of_fuel
unfolding forget
ends_of_forget o (not_enough_data p) h e f = cc
ends_of_forget o (parsed r p) h e f = cc
ends_of_forget o (raised x p) h e f = cc
ends_of_forget o out_of_fuel h e f = e refl

no_wait :
    (again : Parser → Outcome UnpackedResponse) (s : Step) (q : Parser)
    → ((p : Parser) → s ≢ continues p)
    → ((p : Parser) → s ≢ waits p)
    → resume again s ≢ not_enough_data q
unfolding resume
no_wait again (continues p) q c w h = c p refl
no_wait again (waits p) q c w h = w p refl
no_wait again (breaks m v p) q c w h = cc
no_wait again (raises x p) q c w h = cc

-- A new parser, fed once.
pub feed-init : (d : List ℕ) → Between (feed d init) d
feed-init d =
    let ready : Ready init [] = record {
      ahead = refl;
      synced = refl;
      counted = refl;
      whole = refl;
      not_below = refl;
    } in
    rw (feed-Ready init [] d ready) (record { ready = Ready-extend d init [] ready; idle = refl })

feed-join : (p : Parser) (u d e : List ℕ) → Ready p u → feed (d ++ e) p ≡ feed e (feed d p)
feed-join p u d e r =
    let there = feed-Ready p u d r in
    let ready : Ready (feed d p) (u ++ d) = rw there (Ready-extend d p u r) in
    let both : extend (d ++ e) p ≡ extend e (extend d p) = cc (
      append_assoc p.localbuffer.contents d e,
      length-append d e,
      add_assoc p.bytes_written (length d) (length e),
    ) in
    feed-Ready p u (d ++ e) r
    ∙ both
    ∙ sym (feed-Ready (feed d p) (u ++ d) e ready ∙ ap (extend e) there)

waits_or_not :
    (o : Outcome UnpackedResponse)
    → ((q : Parser) × (o ≡ not_enough_data q)) ⊎ ((q : Parser) → o ≢ not_enough_data q)
waits_or_not (not_enough_data q) = inl (q, refl)
waits_or_not (parsed r q) = inr (λ p e. cc)
waits_or_not (raised x q) = inr (λ p e. cc)
waits_or_not out_of_fuel = inr (λ p e. cc)

ended_same :
    (o : Outcome UnpackedResponse) (more : Parser → Outcome UnpackedResponse)
    → ((q : Parser) → o ≢ not_enough_data q)
    → elim o [
      | not_enough_data q ↦ more q
      | parsed r q ↦ parsed r q
      | raised e q ↦ raised e q
      | out_of_fuel ↦ out_of_fuel
    ]
      ≡ o
ended_same (not_enough_data q) more h = absurd (h q refl)
ended_same (parsed r q) more h = refl
ended_same (raised x q) more h = refl
ended_same out_of_fuel more h = refl

module _ (py : Runtime) (decode_bytes : Bool) (encoding : Option (List ℕ)) where
  abbrev run : ℕ → Parser → Outcome UnpackedResponse
  run = parse_loop py decode_bytes encoding

  ended :
      (d : List ℕ) (s t : Step) (again again' : Parser → Outcome UnpackedResponse)
      → ((p : Parser) → s ≢ continues p)
      → ((p : Parser) → s ≢ waits p)
      → Extends d s t
      → forget (resume again' t) ≡ forget (resume again s)
  unfolding forget resume
  ended d (continues p) t again again' c w x = absurd (c p refl)
  ended d (waits p) t again again' c w x = absurd (w p refl)
  ended d (breaks m v p) t again again' c w x = rw x
  ended d (raises e p) t again again' c w x = rw x

  Extends-continues :
      (d : List ℕ) (s t : Step) (q : Parser)
      → s ≡ continues q
      → Extends d s t
      → t ≡ continues (extend d q)
  Extends-continues d s t q e x = rw e at x

  in_step-pass :
      (n : ℕ) (p : Parser)
      → in_step_loop py decode_bytes encoding (suc n) p ≡ true
      → in_steps (pass py decode_bytes encoding p) ≡ true
  unfolding in_step_loop
  in_step-pass n p i = both_left _ _ i

  in_step-continues :
      (n : ℕ) (p w : Parser)
      → in_step_loop py decode_bytes encoding (suc n) p ≡ true
      → pass py decode_bytes encoding p ≡ continues w
      → (in_step w ≡ true) × (in_step_loop py decode_bytes encoding n w ≡ true)
  unfolding in_step_loop in_steps in_step_after
  in_step-continues n p w i e =
      let said : (in_step w && in_step_loop py decode_bytes encoding n w) ≡ true = rw e at i in
      (both_left _ _ said, both_right _ _ said)

  -- A call that finds too little stops where more bytes take it on.
  loop-waits :
      (n : ℕ) (p q : Parser) (u d : List ℕ)
      → Ready p u
      → in_step_loop py decode_bytes encoding n p ≡ true
      → parse_loop py decode_bytes encoding n p ≡ not_enough_data q
      → (k : ℕ) × ((m : ℕ)
          → parse_loop py decode_bytes encoding (k + m) (extend d p)
            ≡ parse_loop py decode_bytes encoding m (feed d q))
        × (length (feed d q).localbuffer.contents ≡ length (extend d p).localbuffer.contents)
  unfolding parse_loop resume
  loop-waits zero p q u d r i h = cc
  loop-waits (suc n) p q u d r i h = elim (Step-cases (pass py decode_bytes encoding p)) [
    | inr (inl (w, e)) ↦
        let same : w ≡ q = ground (arith, e) in
        let there : feed d q ≡ extend d p =
          feed-waits py decode_bytes encoding p q u d r (e ∙ ap waits same) in
        (0, λ m. rw (zero-add m, there) refl, rw there refl)
    | inl (w, e) ↦
        let (stays, then_stays) = in_step-continues n p w i e in
        let (j, small, fits, next, same) = Ready-next py decode_bytes encoding p w u r e stays in
        let (k, goes, whole) = loop-waits n w q (drop j u) d next then_stays (rw e at h) in
        let step : pass py decode_bytes encoding (extend d p) ≡ continues (extend d w) =
          Extends-continues d _ _ w e
            (pass-Extends py decode_bytes encoding d p u r (in_step-pass n p i)) in
        (suc k, λ m. rw (add.suc k m, step) (goes m), rw (← same) whole)
    | inr (inr (c, w)) ↦
        absurd (
          no_wait (parse_loop py decode_bytes encoding n) (pass py decode_bytes encoding p) q c w h)
  ]

  loop-extend :
      (n : ℕ) (p : Parser) (u d : List ℕ)
      → Ready p u
      → in_step_loop py decode_bytes encoding n p ≡ true
      → ((q : Parser) → parse_loop py decode_bytes encoding n p ≢ not_enough_data q)
      → forget (parse_loop py decode_bytes encoding n (extend d p))
        ≡ forget (parse_loop py decode_bytes encoding n p)
  unfolding parse_loop resume
  loop-extend zero p u d r i h = refl
  loop-extend (suc n) p u d r i h = elim (Step-cases (pass py decode_bytes encoding p)) [
    | inr (inl (w, e)) ↦ absurd (h w (rw e))
    | inl (w, e) ↦
        let (stays, then_stays) = in_step-continues n p w i e in
        let (j, small, fits, next, same) = Ready-next py decode_bytes encoding p w u r e stays in
        let step : pass py decode_bytes encoding (extend d p) ≡ continues (extend d w) =
          Extends-continues d _ _ w e
            (pass-Extends py decode_bytes encoding d p u r (in_step-pass n p i)) in
        rw (e, step) (loop-extend n w (drop j u) d next then_stays (rw e at h))
    | inr (inr (c, w)) ↦
        ended d (pass py decode_bytes encoding p) (pass py decode_bytes encoding (extend d p)) _ _ c
          w (pass-Extends py decode_bytes encoding d p u r (in_step-pass n p i))
  ]

  parse-eq :
      (p : Parser) → parse py decode_bytes encoding p ≡ run (suc (length p.localbuffer.contents)) p
  unfolding parse
  parse-eq p = refl

  run-total :
      (p : Parser) (u : List ℕ)
      → Ready p u
      → run (suc (length p.localbuffer.contents)) p ≢ out_of_fuel
  run-total p u r = rw (← parse-eq p) (parse-total py decode_bytes encoding p u r)

  run_in_step :
      (p : Parser) (u : List ℕ)
      → Ready p u
      → no_length_below py decode_bytes encoding p ≡ true
      → in_step_loop py decode_bytes encoding (suc (length p.localbuffer.contents)) p ≡ true
  unfolding stays_in_step
  run_in_step p u r h = no_length_below-stays_in_step py decode_bytes encoding p u r h

  -- A call of `parse` that finds too little leaves a parser that, fed more, does the same as one
  -- that was fed all of it at once, provided that the call reads no bulk or
  -- verbatim length below -2.
  pub parse-waits :
      (p q : Parser) (u d : List ℕ)
      → Ready p u
      → no_length_below py decode_bytes encoding p ≡ true
      → parse py decode_bytes encoding p ≡ not_enough_data q
      → parse py decode_bytes encoding (feed d q) ≡ parse py decode_bytes encoding (feed d p)
  parse-waits p q u d r i h =
      let stays = run_in_step p u r i in
      let (k, goes, whole) =
        loop-waits (suc (length p.localbuffer.contents)) p q u d r stays (sym (parse-eq p) ∙ h) in
      let n = suc (length (extend d p).localbuffer.contents) in
      let total = run-total (extend d p) (u ++ d) (Ready-extend d p u r) in
      let there : feed d p ≡ extend d p = feed-Ready p u d r in
      let fuel : suc (length (feed d q).localbuffer.contents) ≡ n = ap suc whole in
      parse-eq (feed d q)
      ∙ ap (λ i. run i (feed d q)) fuel
      ∙ sym (goes n)
      ∙ ap (λ i. run i (extend d p)) (add_comm k n)
      ∙ loop-more py decode_bytes encoding n k (extend d p) total
      ∙ sym (ap (parse py decode_bytes encoding) there ∙ parse-eq (extend d p))

  -- A call of `parse` that ends, by a response or by an exception, ends in the same with more bytes behind those that were
  -- fed, provided that it reads no bulk or verbatim length below -2.
  pub parse-ends :
      (p : Parser) (u d : List ℕ)
      → Ready p u
      → no_length_below py decode_bytes encoding p ≡ true
      → ((q : Parser) → parse py decode_bytes encoding p ≢ not_enough_data q)
      → forget (parse py decode_bytes encoding (feed d p))
        ≡ forget (parse py decode_bytes encoding p)
  parse-ends p u d r i h =
      let stays = run_in_step p u r i in
      let n = suc (length p.localbuffer.contents) in
      let same : forget (run n (extend d p)) ≡ forget (run n p) =
        loop-extend n p u d r stays (λ q e. h q (parse-eq p ∙ e)) in
      let fuel : suc (length (p.localbuffer.contents ++ d)) ≡ n + length d =
        omega (arith, length-append p.localbuffer.contents d) in
      let total : run n (extend d p) ≢ out_of_fuel = ends_of_forget _ _ same (run-total p u r) in
      ap forget (
        ap (parse py decode_bytes encoding) (feed-Ready p u d r)
        ∙ parse-eq (extend d p)
        ∙ ap (λ i. run i (extend d p)) fuel
        ∙ loop-more py decode_bytes encoding n (length d) (extend d p) total)
      ∙ same
      ∙ sym (ap forget (parse-eq p))

  -- `feed` and `parse` by turns, piece by piece, up to the first response.
  unfoldable pub parse_pieces : List (List ℕ) → Parser → Outcome UnpackedResponse
  parse_pieces [] p = parse py decode_bytes encoding p
  parse_pieces (d ∷ ds) p = elim (parse py decode_bytes encoding p) [
    | not_enough_data q ↦ parse_pieces ds (feed d q)
    | parsed r q ↦ parsed r q
    | raised e q ↦ raised e q
    | out_of_fuel ↦ out_of_fuel
  ]

  pieces-same :
      (ds : List (List ℕ)) (p q : Parser)
      → parse py decode_bytes encoding p ≡ parse py decode_bytes encoding q
      → parse_pieces ds p ≡ parse_pieces ds q
  unfolding parse_pieces
  pieces-same [] p q e = e
  pieces-same (d ∷ ds) p q e = rw (parse_pieces, e)

  pieces-ended :
      (d : List ℕ) (ds : List (List ℕ)) (p : Parser)
      → ((q : Parser) → parse py decode_bytes encoding p ≢ not_enough_data q)
      → parse_pieces (d ∷ ds) p ≡ parse py decode_bytes encoding p
  unfolding parse_pieces
  pieces-ended d ds p h =
      ended_same (parse py decode_bytes encoding p) (λ q. parse_pieces ds (feed d q)) h

  -- No call of `parse` over what is there before a piece, fed at once, reads a length below -2.
  unfoldable pub no_piece_below : List (List ℕ) → Parser → Bool
  no_piece_below [] p = true
  no_piece_below (d ∷ ds) p =
      no_length_below py decode_bytes encoding p && no_piece_below ds (feed d p)

  -- Whatever the bytes are and however they are cut, the call that ends says what it says when all of them are there at
  -- once, provided that a call over what is there before each piece, fed at once, reads no bulk or verbatim length below -2.
  pub parse_pieces-join :
      (ds : List (List ℕ)) (p : Parser) (u : List ℕ)
      → Ready p u
      → no_piece_below ds p ≡ true
      → forget (parse_pieces ds p) ≡ forget (parse py decode_bytes encoding (feed (join ds) p))
  unfolding parse_pieces no_piece_below
  parse_pieces-join [] p u r i =
      let same : feed [] p ≡ p =
        feed-Ready p u [] r ∙ cc (append-nil p.localbuffer.contents, add-zero p.bytes_written) in
      rw same
  parse_pieces-join (d ∷ ds) p u r i = elim (waits_or_not (parse py decode_bytes encoding p)) [
    | inl (q, e) ↦
        let there = feed-Ready p u d r in
        let ready : Ready (feed d p) (u ++ d) = rw there (Ready-extend d p u r) in
        rw (parse_pieces, e, feed-join p u d (join ds) r)
          (ap forget
              (pieces-same ds (feed d q) (feed d p) (parse-waits p q u d r (both_left _ _ i) e))
            ∙ parse_pieces-join ds (feed d p) (u ++ d) ready (both_right _ _ i))
    | inr h ↦
        ap forget (pieces-ended d ds p h)
        ∙ sym (parse-ends p u (d ++ join ds) r (both_left _ _ i) h)
  ]
