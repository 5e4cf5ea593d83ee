-- ===== src/Resp/Respond.antt =====
-- `get_response` comes to an end: each response that `parse` gives has taken bytes.
use coredis.Prelude.{
  ℕ, zero, suc, ◌+◌, ◌≤◌, ◌<◌, ◌≡◌, ◌≢◌, refl, ap, sym, ◌∙◌, ◌⊎◌, inl, inr, Bool, Bool-cases,
  Option, some, List, [], arith, length, length-drop, drop, ◌==◌,
}
use coredis.Resp.Value.{Value}
use coredis.Resp.Parser.{
  Parser, Runtime, Read, Step, waits, continues, breaks, raises, settle, after_read, pass, rewind,
  parse_loop, parse, resume, consumed, Outcome, not_enough_data, parsed, raised, out_of_fuel,
  UnpackedResponse, Routed, returned, queued, refused, hand_over, answer, get_loop, get_response,
}
use coredis.Resp.Lines.{Ready, advance}
use coredis.Resp.Settle.{with_nodes}
use coredis.Resp.Leaves.{Ready-with_nodes}
use mathlib.Core.Path.{subst}
use coredis.Resp.Buffer.{seek, truncate}
use coredis.Resp.Tracks.{
  Spent, Tracks, on_item, on_opened, on_short, on_fault, on_below, on_below_fault,
}
use coredis.Resp.Containers.{advance-advance}
use coredis.Resp.RoundTrip.{Between, consumed-Between}
use coredis.Resp.Chunks.{
  Keeps, settle-Keeps, pass-Tracks, Ready-onward, Ready-or_Below, loop-Spent, parse-total,
}

Keeps-breaks :
    (q p : Parser) (m : ℕ) (v : Value) (s : Step)
    → Keeps q s
    → s ≡ breaks m v p
    → p ≡ with_nodes [] q
Keeps-breaks q p m v (continues p') h e = cc
Keeps-breaks q p m v (waits p') h e = cc
Keeps-breaks q p m v (breaks n w p') h e = let same : p' ≡ p = ground arith in rw same at h
Keeps-breaks q p m v (raises x p') h e = cc

-- What a response that was read from `u` leaves.
abbrev pub Taken : Parser → List ℕ → Type 0
Taken q u =
    ((rest : List ℕ) × Between q rest × (length rest < length u)) ⊎ ((0 < length u) × Spent q)

module _ (d : List ℕ) (base : Parser) (room m : ℕ) where
  after_read-breaks :
      (r r' : Read) (p : Parser) (k : ℕ) (v : Value)
      → Tracks d base room r r'
      → after_read m r ≡ breaks k v p
      → ((n : ℕ) × (n ≤ room) × (p ≡ with_nodes [] (advance n base))) ⊎ Spent p
  unfolding after_read
  after_read-breaks r r' p k v (on_item w q (n, small, e)) h = inl (
    n,
    small,
    Keeps-breaks q p k v (settle m w q.nodes q) (settle-Keeps m w q.nodes q) h
        ∙ ap (with_nodes []) e,
  )
  after_read-breaks r r' p k v (on_opened q o) h = cc
  after_read-breaks r r' p k v (on_short q x) h = cc
  after_read-breaks r r' p k v (on_fault x q) h = cc
  after_read-breaks r r' p k v (on_below w q x (out, spent)) h =
      let same = Keeps-breaks q p k v (settle m w q.nodes q) (settle-Keeps m w q.nodes q) h in
      inr (subst Spent (sym same) spent)
  after_read-breaks r r' p k v (on_below_fault x q y b) h = cc

Step-cases :
    (s : Step)
    → ((p : Parser) × (s ≡ continues p))
      ⊎ ((m : ℕ) × (v : Value) × (p : Parser) × (s ≡ breaks m v p))
      ⊎ ((again : Parser → Outcome UnpackedResponse) (r : UnpackedResponse) (q : Parser)
          → resume again s ≢ parsed r q)
unfolding resume
Step-cases (continues p) = inl (p, refl)
Step-cases (breaks m v p) = inr (inl (m, v, p, refl))
Step-cases (waits p) = inr (inr (λ again' r q e. cc))
Step-cases (raises x p) = inr (inr (λ again' r q e. cc))

resumed :
    (again : Parser → Outcome UnpackedResponse) (s : Step) (w : Parser) (r : UnpackedResponse)
    (q : Parser)
    → s ≡ continues w
    → resume again s ≡ parsed r q
    → again w ≡ parsed r q
unfolding resume
resumed again s w r q e h = rw e at h

broken :
    (again : Parser → Outcome UnpackedResponse) (s : Step) (w : Parser) (r : UnpackedResponse)
    (q : Parser) (m : ℕ) (v : Value)
    → s ≡ breaks m v w
    → resume again s ≡ parsed r q
    → consumed w ≡ q
unfolding resume
broken again s w r q m v e h =
    let said : parsed (record { response_type = m; response = v }) (consumed w) ≡ parsed r q =
      rw e at h in
    cc

module _ (py : Runtime) (decode_bytes : Bool) (encoding : Option (List ℕ)) where
  Between-breaks :
      (p q : Parser) (u : List ℕ) (k : ℕ) (v : Value)
      → Ready p u
      → pass py decode_bytes encoding p ≡ breaks k v q
      → ((n : ℕ) × (0 < n) × (n ≤ length u) × Between q (drop n u)) ⊎ ((0 < length u) × Spent q)
  Between-breaks p q u k v r h = elim (pass-Tracks py decode_bytes encoding [] p u r) [
    | inl (w, e) ↦ cc
    | inr (m, x, y, width, some_read, fits, e, f, t) ↦
        elim (after_read-breaks [] (advance width p) _ m x y q k v t (sym e ∙ h)) [
          | inr spent ↦ inr (omega arith, spent)
          | inl (j, small, same) ↦
              let n = width + j in
              let taken : n ≤ length u = omega (arith, length-drop width u) in
              let there : q ≡ with_nodes [] (advance n p) =
                same ∙ ap (with_nodes []) (advance-advance width j p) in
              let between : Between (with_nodes [] (advance n p)) (drop n u) = record {
                ready = Ready-with_nodes (advance n p) [] (drop n u) (Ready-onward p u n taken r);
                idle = refl;
              } in
              inl (n, omega arith, taken, rw there between)
        ]
  ]

  consumed-Spent : (q : Parser) → Spent q → Spent (consumed q)
  unfolding consumed rewind seek truncate
  consumed-Spent q spent = elim (Bool-cases (q.bytes_read == q.bytes_written)) [
    | inl e ↦ rw e refl
    | inr e ↦ rw e spent
  ]

  not_parsed :
      (n : ℕ) (w q : Parser) (r : UnpackedResponse)
      → Spent w
      → parse_loop py decode_bytes encoding n w ≢ parsed r q
  unfolding parse_loop
  not_parsed zero w q r spent e = cc
  not_parsed (suc n) w q r spent e =
      let (x, h) = loop-Spent py decode_bytes encoding n w spent in
      let never : not_enough_data x ≡ parsed r q = sym h ∙ e in cc

  -- A response has taken at least one byte, and the parser stands before what is left, or behind all that there is.
  pub parse_loop-Between :
      (k : ℕ) (p q : Parser) (u : List ℕ) (r : UnpackedResponse)
      → Ready p u
      → parse_loop py decode_bytes encoding k p ≡ parsed r q
      → Taken q u
  unfolding parse_loop
  parse_loop-Between zero p q u r ready h = cc
  parse_loop-Between (suc k) p q u r ready h = elim (Step-cases (pass py decode_bytes encoding p)) [
    | inl (w, e) ↦
        let later = resumed (parse_loop py decode_bytes encoding k) _ w r q e h in
        elim (Ready-or_Below py decode_bytes encoding p w u ready e) [
          | inr (some_read, below) ↦ absurd (not_parsed k w q r below.1 later)
          | inl (n, some_read, fits, next, whole) ↦
              elim (parse_loop-Between k w q (drop n u) r next later) [
                | inl (rest, between, shorter) ↦ inl (rest, between, omega (arith, length-drop n u))
                | inr (some_left, spent) ↦ inr (omega (arith, length-drop n u), spent)
              ]
        ]
    | inr (inl (m, v, w, e)) ↦
        let same : consumed w ≡ q =
          broken (parse_loop py decode_bytes encoding k) _ w r q m v e h in
        elim (Between-breaks p w u m v ready e) [
          | inr (some_read, spent) ↦ inr (some_read, subst Spent same (consumed-Spent w spent))
          | inl (n, some_read, fits, between) ↦ inl (
            drop n u,
            rw (← same) (consumed-Between w (drop n u) between),
            omega (arith, length-drop n u),
          )
        ]
    | inr (inr never) ↦ absurd (never (parse_loop py decode_bytes encoding k) r q h)
  ]

  hand_over-total :
      (again : Parser → Outcome Value) (v : Value) (q : Parser) (to : Routed)
      → ((queue : List Value) → again (record q { push_messages = some queue }) ≢ out_of_fuel)
      → hand_over py decode_bytes encoding again v q to ≢ out_of_fuel
  unfolding hand_over
  hand_over-total again v q returned h e = cc
  hand_over-total again v q (refused x) h e = cc
  hand_over-total again v q (queued queue) h e = h queue e

  answer-total :
      (types : List (List ℕ)) (again : Parser → Outcome Value) (o : Outcome UnpackedResponse)
      → o ≢ out_of_fuel
      → ((r : UnpackedResponse) (q : Parser) (queue : List Value)
          → o ≡ parsed r q
          → again (record q { push_messages = some queue }) ≢ out_of_fuel)
      → answer py decode_bytes encoding types again o ≢ out_of_fuel
  unfolding answer
  answer-total types again (not_enough_data q) some_end h e = cc
  answer-total types again (raised x q) some_end h e = cc
  answer-total types again out_of_fuel some_end h e = some_end refl
  answer-total types again (parsed r q) some_end h e = elim (Bool-cases (r.response_type == b'>')) [
    | inl push ↦ hand_over-total again r.response q _ (λ queue. h r q queue refl) (rw push at e)
    | inr other ↦ let stays : parsed r.response q ≡ out_of_fuel = rw other at e in cc
  ]

  parse-Between :
      (p q : Parser) (u : List ℕ) (r : UnpackedResponse)
      → Ready p u
      → parse py decode_bytes encoding p ≡ parsed r q
      → Taken q u
  unfolding parse
  parse-Between p q u r ready h =
      parse_loop-Between (suc (length p.localbuffer.contents)) p q u r ready h

  get-Spent :
      (types : List (List ℕ)) (n : ℕ) (q : Parser)
      → 0 < n
      → Spent q
      → get_loop py decode_bytes encoding types n q ≢ out_of_fuel
  unfolding get_loop parse answer
  get-Spent types zero q some_fuel spent e = absurd (omega arith)
  get-Spent types (suc n) q some_fuel spent e =
      let (x, h) = loop-Spent py decode_bytes encoding (length q.localbuffer.contents) q spent in
      let never : not_enough_data x ≡ out_of_fuel =
        sym (
          ap
            (answer py decode_bytes encoding types
              (λ p. get_loop py decode_bytes encoding types n p))
            h)
        ∙ e in
      cc

  get_loop-total :
      (types : List (List ℕ)) (n : ℕ) (p : Parser) (u : List ℕ)
      → Ready p u
      → length u < n
      → get_loop py decode_bytes encoding types n p ≢ out_of_fuel
  unfolding get_loop
  get_loop-total types zero p u r h = absurd (omega arith)
  get_loop-total types (suc n) p u r h =
      answer-total types (λ q. get_loop py decode_bytes encoding types n q)
        (parse py decode_bytes encoding p) (parse-total py decode_bytes encoding p u r)
        (λ response q queue e. elim (parse-Between p q u response r e) [
          | inr (some_read, spent) ↦
              get-Spent types n (record q { push_messages = some queue }) (omega arith) spent
          | inl (rest, between, shorter) ↦
              get_loop-total types n (record q { push_messages = some queue }) rest
                (record {
                  ahead = between.ready.ahead;
                  synced = between.ready.synced;
                  not_below = between.ready.not_below;
                  counted = between.ready.counted;
                  whole = between.ready.whole;
                })
                (omega arith)
        ])

  -- `get_response` comes to an end whatever bytes it was fed, push messages included.
  pub get_response-total :
      (types : List (List ℕ)) (p : Parser) (u : List ℕ)
      → Ready p u
      → get_response py decode_bytes encoding types p ≢ out_of_fuel
  unfolding get_response
  get_response-total types p u r =
      get_loop-total types (suc (length p.localbuffer.contents)) p u r
        (omega (arith, r.counted, r.whole))
