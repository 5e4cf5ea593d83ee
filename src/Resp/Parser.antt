-- ===== src/Resp/Parser.antt =====
-- `Parser` of coredis/parser.py. `List.[]` of `nodes` has Python's `nodes[-1]` at its head.
use coredis.Prelude.{
  ℕ, zero, suc, ◌+◌, ◌-◌, Bool, false, ◌&&◌, ◌||◌, Option, none, some, List, [], ◌∷◌, ◌++◌, ◌==◌,
  ltb, if◌then◌else◌, length, take, drop, get_or,
}
use coredis.Prelude.Int.{ℤ, pos, negsuc}
use coredis.Prelude.Partial.{◌>>=◌}
use coredis.Resp.Buffer
use coredis.Resp.Buffer.{Buffer}
use coredis.Resp.Value.{Value, null, bool, int, float, bytes, str, list, nil, cons, same_codes}
use coredis.Resp.Number.{parse_int}
use coredis.Resp.Errors.{codes, parse_error}
use coredis.Resp.Nodes.{Node, list_node, dict_node, set_node, to_value, append, close_nodes}

-- What the parser calls of Python: `float(chunk)`, as a bit pattern, or a ValueError;
-- `data.decode(encoding)`, or a ValueError; `str(x).encode()` of a value that is not bytes.
pub record Runtime : Type 0 where
  pub to_float : List ℕ → Option ℕ
  pub decode : List ℕ → List ℕ → Option (List ℕ)
  pub encode_text : Value → List ℕ

pub data Exception : Type 0 where
  value_error index_error assertion_error invalid_response : Exception

-- `push_messages` is None until `on_connect`; the queue has its oldest message first. The `bytes_read` of the code is
-- `bytes_read - below_zero`: a bulk length below -2 moves it back, behind 0 too. One of the two is 0 then, and nothing is
-- left to read from there on, so that nothing is added to it before `rewind`.
pub record Parser : Type 0 where
  pub push_messages : Option (List Value)
  pub localbuffer : Buffer
  pub bytes_read : ℕ
  pub below_zero : ℕ
  pub bytes_written : ℕ
  pub nodes : List Node

abbrev pub init : Parser
init = record {
  push_messages = none;
  localbuffer = Buffer.empty;
  bytes_read = 0;
  below_zero = 0;
  bytes_written = 0;
  nodes = [];
}

-- Whether `seek(bytes_read)` raises a ValueError.
unfoldable pub seek_fails : Parser → Bool
seek_fails p = ltb 0 p.below_zero

-- `seek(bytes_read)`, which leaves the buffer as it is where it raises.
unfoldable pub seek_read : Parser → Buffer → Buffer
unfolding Buffer.seek seek_fails
seek_read p buffer = if seek_fails p then buffer else Buffer.seek p.bytes_read buffer

-- What `feed` makes of the parser, also where it raises the ValueError of its last `seek`.
unfoldable pub feed : List ℕ → Parser → Parser
unfolding Buffer.seek Buffer.write seek_read
feed input p = record p {
  localbuffer = seek_read p (Buffer.write input (Buffer.seek p.bytes_written p.localbuffer));
  bytes_written = p.bytes_written + length input;
}

unfoldable pub on_connect : List Value → Parser → Parser
on_connect queue p = record p { push_messages = some queue }

-- `seek(0)`, `truncate()` and the two counters
unfoldable pub rewind : Parser → Parser
unfolding Buffer.seek Buffer.truncate
rewind p = record p {
  localbuffer = Buffer.truncate (Buffer.seek 0 p.localbuffer);
  bytes_read = 0;
  below_zero = 0;
  bytes_written = 0;
}

unfoldable pub on_disconnect : Parser → Parser
unfolding rewind
on_disconnect p = record (rewind p) { nodes = [] }

unfoldable pub can_read : Parser → Bool
can_read p = ltb 0 (p.bytes_written + p.below_zero - p.bytes_read)

-- `bytes_read -= n`
unfoldable pub move_back : ℕ → Parser → Parser
move_back n p = record p {
  bytes_read = p.bytes_read - n;
  below_zero = p.below_zero + (n - p.bytes_read);
}

-- `data[-2::] == b"\r\n"`
unfoldable pub ends_crlf : List ℕ → Bool
ends_crlf [] = false
ends_crlf (c ∷ []) = false
ends_crlf (c ∷ d ∷ []) = c == 13 && d == 10
ends_crlf (c ∷ d ∷ e ∷ rest) = ends_crlf (d ∷ e ∷ rest)

-- `line[1:-2]`
unfoldable pub body : List ℕ → List ℕ
body line = take (length line - 3) (drop 1 line)

-- How the reading of one item ends.
pub data Read : Type 0 where
  item : Value → Parser → Read
  opened : Parser → Read
  short : Parser → Read
  fault : Exception → Parser → Read

-- How a pass of the loop ends: by `return NOT_ENOUGH_DATA`, `continue`, `break` or an exception.
pub data Step : Type 0 where
  waits : Parser → Step
  continues : Parser → Step
  breaks : ℕ → Value → Parser → Step
  raises : Exception → Parser → Step

unfoldable pub new_node : ℕ → ℕ → Node
unfolding list_node dict_node set_node
new_node marker size =
    if marker == b'*' || marker == b'>'
    then list_node size marker
    else if marker == b'%'
    then dict_node size
    else set_node size

unfoldable pub push_node : ℕ → ℕ → Parser → Parser
unfolding new_node
push_node marker size p = record p { nodes = new_node marker size ∷ p.nodes }

unfoldable pub aggregate : ℕ → Option ℤ → Parser → Read
unfolding push_node
aggregate marker none p = fault value_error p
aggregate marker (some (negsuc n)) p = item null p
aggregate marker (some (pos zero)) p = item null (push_node marker 0 p)
aggregate marker (some (pos (suc n))) p = opened (push_node marker (suc n) p)

unfoldable pub number : Option ℤ → Parser → Read
number none p = fault value_error p
number (some n) p = item (int n) p

unfoldable pub double : Option ℕ → Parser → Read
double none p = fault value_error p
double (some f) p = item (float f) p

-- `chunk[0] == ord(b"t")`
unfoldable pub boolean : List ℕ → Parser → Read
boolean [] p = fault index_error p
boolean (c ∷ chunk) p = item (bool (c == b't')) p

unfoldable pub error_item : Option Value → Parser → Read
error_item none p = fault value_error p
error_item (some e) p = item e p

module _ (py : Runtime) (decode_bytes : Bool) (encoding : Option (List ℕ)) where
  -- `if decode_bytes and encoding: try_decode(...)`; an encoding that is "" is false too.
  unfoldable pub try_decode : List ℕ → Value
  try_decode raw = elim encoding [
    | none ↦ bytes raw
    | some [] ↦ bytes raw
    | some (c ∷ name) ↦
        if decode_bytes
        then elim (py.decode (c ∷ name) raw) [ none ↦ bytes raw | some text ↦ str text ]
        else bytes raw
  ]

  -- A payload without its line end; a verbatim string drops its format.
  unfoldable pub payload : ℕ → List ℕ → Parser → Read
  unfolding try_decode same_codes
  payload marker raw p =
      if marker == b'='
      then (if same_codes (take 3 raw) (codes "txt")
          then item (try_decode (drop 4 raw)) p
          else fault invalid_response p)
      else item (try_decode raw) p

  unfoldable pub read_bulk : ℕ → ℕ → ℕ → Parser → Read
  unfolding Buffer.read
  read_bulk marker size data_len p =
      if ltb (p.bytes_written - p.bytes_read) (size + 2)
      then short (record p { bytes_read = p.bytes_read - data_len })
      else (let (piece, rest) = Buffer.read (size + 2) p.localbuffer in
          payload marker (take (length piece - 2) piece)
            (record p { localbuffer = rest; bytes_read = p.bytes_read + (size + 2) }))

  -- The test for enough data passes, and `read` takes all that is there; `bytes_read` moves back by `n`.
  unfoldable pub read_negative : ℕ → ℕ → Parser → Read
  unfolding Buffer.read_rest move_back
  read_negative marker n p =
      let (piece, rest) = Buffer.read_rest p.localbuffer in
      payload marker (take (length piece - 2) piece) (move_back n (record p { localbuffer = rest }))

  -- A bulk or verbatim string by its length. At -2 the test for enough data passes and `read(0)`
  -- gives nothing.
  unfoldable pub bulk : ℕ → Option ℤ → ℕ → Parser → Read
  unfolding read_negative
  bulk marker none data_len p = fault value_error p
  bulk marker (some (pos size)) data_len p = read_bulk marker size data_len p
  bulk marker (some (negsuc zero)) data_len p = item null p
  bulk marker (some (negsuc (suc zero))) data_len p = payload marker [] p
  bulk marker (some (negsuc (suc (suc n)))) data_len p = read_negative marker (suc n) p

  -- The chain of tests on the marker, over the line without its marker and its line end.
  unfoldable pub read_item : ℕ → List ℕ → ℕ → Parser → Read
  unfolding payload read_bulk read_negative bulk aggregate number double boolean error_item
      parse_int parse_error
  read_item marker chunk data_len p =
      if marker == b'+'
      then item (try_decode chunk) p
      else if marker == b'$' || marker == b'='
      then bulk marker (parse_int chunk) data_len p
      else if marker == b':' || marker == b'('
      then number (parse_int chunk) p
      else if marker == b','
      then double (py.to_float chunk) p
      else if marker == b'_'
      then item null p
      else if marker == b'#'
      then boolean chunk p
      else if marker == b'*' || (marker == b'>' || (marker == b'%' || marker == b'~'))
      then aggregate marker (parse_int chunk) p
      else if marker == b'-'
      then error_item (py.decode (codes "utf-8") chunk >>= λ text. parse_error text) p
      else fault invalid_response p

-- The pass's end: a complete top container is returned, and so is a value outside of any.
unfoldable pub finish : ℕ → Value → List Node → Parser → Step
unfolding to_value
finish marker response [] p = breaks marker response (record p { nodes = [] })
finish marker response (top ∷ []) p =
    if top.depth == 0
    then breaks top.node_type (to_value top.container) (record p { nodes = [] })
    else continues (record p { nodes = top ∷ [] })
finish marker response (top ∷ below ∷ rest) p = continues (record p { nodes = top ∷ below ∷ rest })

-- From `if self.nodes:` on. An item goes to the open container, unless that is the empty container
-- that was opened by this very pass; then the containers that are full go to those around them.
unfoldable pub settle : ℕ → Value → List Node → Parser → Step
settle marker response [] p = finish marker response [] p
settle marker response (top ∷ rest) p =
    let filled = append top response in
    if ltb 0 top.depth
    then (if ltb 1 filled.depth
        then continues (record p { nodes = filled ∷ rest })
        else finish marker response (close_nodes filled rest) p)
    else finish marker response (close_nodes top rest) p

unfoldable pub after_read : ℕ → Read → Step
unfolding settle append close_nodes finish
after_read marker (item response p) = settle marker response p.nodes p
after_read marker (opened p) = continues p
after_read marker (short p) = waits p
after_read marker (fault e p) = raises e p

unfoldable pub consumed : Parser → Parser
unfolding rewind
consumed p = if p.bytes_read == p.bytes_written then rewind p else p

-- `parse` and `get_response` return NOT_ENOUGH_DATA or a response, or raise; a run of the model may
-- also end with its fuel.
pub data Outcome {ℓ} (A : Type ℓ) : Type ℓ where
  not_enough_data : Parser → Outcome A
  parsed : A → Parser → Outcome A
  raised : Exception → Parser → Outcome A
  out_of_fuel : Outcome A

pub record UnpackedResponse : Type 0 where
  pub response_type : ℕ
  pub response : Value

-- `again` is the rest of the loop.
unfoldable pub resume : (Parser → Outcome UnpackedResponse) → Step → Outcome UnpackedResponse
unfolding consumed
resume again (waits p) = not_enough_data p
resume again (continues p) = again p
resume again (breaks response_type response p) =
    parsed (record { response_type = response_type; response = response }) (consumed p)
resume again (raises e p) = raised e p

-- What becomes of a push message: it is the response, or it goes to the queue.
pub data Routed : Type 0 where
  returned : Routed
  queued : List Value → Routed
  refused : Exception → Routed

module _ (py : Runtime) (decode_bytes : Bool) (encoding : Option (List ℕ)) where
  -- One pass of `while True`. The line is not empty where its first byte is taken.
  unfoldable pub pass : Parser → Step
  unfolding Buffer.readline ends_crlf body read_item after_read
  pass p =
      let (line, rest) = Buffer.readline p.localbuffer in
      let moved = record p { localbuffer = rest } in
      let marker = get_or line 0 0 in
      if ends_crlf line
      then after_read marker (
          read_item py decode_bytes encoding marker (body line) (length line)
            (record moved { bytes_read = p.bytes_read + length line }))
      else waits moved

  unfoldable pub parse_loop : ℕ → Parser → Outcome UnpackedResponse
  unfolding pass resume
  parse_loop zero p = out_of_fuel
  parse_loop (suc fuel) p = resume (parse_loop fuel) (pass p)

  -- A pass that goes on has taken a line, so the bytes that are left bound the passes.
  unfoldable pub parse : Parser → Outcome UnpackedResponse
  unfolding parse_loop
  parse p = parse_loop (suc (length p.localbuffer.contents)) p

  -- `b(x)`
  unfoldable pub b : Value → List ℕ
  b (bytes raw) = raw
  b v = py.encode_text v

  unfoldable pub is_wanted : List ℕ → List (List ℕ) → Bool
  unfolding same_codes
  is_wanted name [] = false
  is_wanted name (t ∷ types) = same_codes t name || is_wanted name types

  -- `if not push_message_types or b(response.response[0]) not in push_message_types`
  unfoldable pub route : List (List ℕ) → Option (List Value) → Value → Routed
  unfolding b is_wanted
  route [] (some queue) (list vs) = queued (queue ++ list vs ∷ [])
  route (t ∷ types) (some queue) (list nil) = refused index_error
  route (t ∷ types) (some queue) (list (cons v vs)) =
      if is_wanted (b v) (t ∷ types) then returned else queued (queue ++ list (cons v vs) ∷ [])
  route types queue v = refused assertion_error

  -- What becomes of a response; `again` is the rest of the loop.
  unfoldable pub hand_over : (Parser → Outcome Value) → Value → Parser → Routed → Outcome Value
  hand_over again response q returned = parsed response q
  hand_over again response q (refused e) = raised e q
  hand_over again response q (queued queue) = again (record q { push_messages = some queue })

  unfoldable pub answer :
      List (List ℕ) → (Parser → Outcome Value) → Outcome UnpackedResponse → Outcome Value
  unfolding hand_over
  answer types again (not_enough_data q) = not_enough_data q
  answer types again (raised e q) = raised e q
  answer types again out_of_fuel = out_of_fuel
  answer types again (parsed r q) =
      if r.response_type == b'>'
      then hand_over again r.response q (route types q.push_messages r.response)
      else parsed r.response q

  -- `get_response`; `push_message_types` of None and of the empty set are the same to it.
  unfoldable pub get_loop : List (List ℕ) → ℕ → Parser → Outcome Value
  get_loop types zero p = out_of_fuel
  get_loop types (suc fuel) p = answer types (λ q. get_loop types fuel q) (parse p)

  unfoldable pub get_response : List (List ℕ) → Parser → Outcome Value
  get_response types p = get_loop types (suc (length p.localbuffer.contents)) p
