-- ===== src/Connection.antt =====
-- `Request` and the requests of `BaseConnection` of coredis/connection.py. A future is a number; the
-- clock, the transport and the event loop are left out, but for what they make the connection do.
pub mod Write
pub mod Replies
pub mod Owed
pub mod Sound
pub mod Uses
pub mod Tests
use coredis.Prelude.{
  ℕ, zero, suc, ◌+◌, Bool, true, false, not, ◌&&◌, Option, none, some, List, [], ◌∷◌, ◌++◌,
  if◌then◌else◌, ℕ_discrete,
}
use coredis.Dict.{find, set_item}
use coredis.Resp.Value.{Value, error}
use coredis.Resp.Parser
use coredis.Resp.Parser.{
  Parser, Runtime, Exception, Outcome, value_error, seek_fails, feed, on_disconnect, get_response,
  not_enough_data, parsed, out_of_fuel, raised,
}

pub record Request : Type 0 where
  pub future : ℕ
  pub decode : Bool
  pub encoding : Option (List ℕ)
  pub raise_exceptions : Bool

-- What a future that is done holds; `lost` has `_last_error`, or none for "Connection lost".
pub data Settled : Type 0 where
  result : Value → Settled
  exception : Value → Settled
  timed_out cancelled : Settled
  lost : Option (List ℕ) → Settled

-- `connected` is that there is a transport, `failed` that there is a `_connection_error`, and
-- `next_future` the number that the next future gets.
pub record Connection : Type 0 where
  pub parser : Parser
  pub requests : List Request
  pub futures : List (ℕ × Settled)
  pub written : List (List ℕ)
  pub requests_processed : ℕ
  pub next_future : ℕ
  pub connected : Bool
  pub failed : Bool
  pub needs_handshake : Bool
  pub noreply : Bool
  pub noreply_set : Bool
  pub read_flag : Bool
  pub last_error : Option (List ℕ)
  pub decode_responses : Bool
  pub encoding : List ℕ

-- What `__init__` makes.
abbrev pub new_connection : Bool → Bool → List ℕ → Connection
new_connection noreply decode_responses encoding = record {
  parser = Parser.init;
  requests = [];
  futures = [];
  written = [];
  requests_processed = 0;
  next_future = 0;
  connected = false;
  failed = false;
  needs_handshake = true;
  noreply = noreply;
  noreply_set = false;
  read_flag = false;
  last_error = none;
  decode_responses = decode_responses;
  encoding = encoding;
}

unfoldable pub is_connected : Connection → Bool
is_connected c = c.connected && not c.failed

unfoldable pub is_some : Option Settled → Bool
is_some none = false
is_some (some s) = true

unfoldable pub is_done : ℕ → List (ℕ × Settled) → Bool
unfolding is_some
is_done f futures = is_some (find ℕ_discrete f futures)

-- A future that is done already keeps what it has.
unfoldable pub settle : ℕ → Settled → List (ℕ × Settled) → List (ℕ × Settled)
unfolding is_done
settle f s futures = if is_done f futures then futures else set_item ℕ_discrete f s futures

unfoldable pub is_error : Value → Bool
is_error (error cls text) = true
is_error _ = false

-- What a reply makes of the future of its request.
unfoldable pub outcome_of : Request → Value → Settled
unfolding is_error
outcome_of r v = if r.raise_exceptions && is_error v then exception v else result v

-- How `data_received` ends: it returns, or the parser raises.
pub data Served : Type 0 where
  served : Connection → Served
  broken : Exception → Connection → Served
  endless : Served

abbrev pub answered : Request → List Request → Value → Parser → Connection → Connection
answered r rs v q c = record c {
  parser = q;
  requests = rs;
  futures = settle r.future (outcome_of r v) c.futures;
  requests_processed = suc c.requests_processed;
}

module _ (py : Runtime) where
  -- What follows the response to the request `r`; `again` is the rest of the loop.
  unfoldable pub after_response :
      (Connection → Served) → Request → List Request → Connection → Outcome Value → Served
  unfolding settle outcome_of
  after_response again r rs c (not_enough_data q) =
      served (record c { parser = q; requests = r ∷ rs })
  after_response again r rs c (parsed v q) = again (answered r rs v q c)
  after_response again r rs c (raised e q) = broken e (record c { parser = q; requests = rs })
  after_response again r rs c out_of_fuel = endless

  -- The loop of `data_received`, over the requests that are queued.
  unfoldable pub serve : List Request → Connection → Served
  unfolding after_response
  serve [] c = served c
  serve (r ∷ rs) c =
      after_response (λ d. serve rs d) r rs c (get_response py r.decode r.encoding [] c.parser)

  -- `feed` may raise, and then nothing else is done.
  unfoldable pub data_received : List ℕ → Connection → Served
  unfolding serve
  data_received input c =
      if seek_fails c.parser
      then broken value_error (record c { parser = feed input c.parser })
      else serve c.requests (record c { parser = feed input c.parser; read_flag = true })

-- `disconnect`: what it does to the futures of the requests that are queued, and the rest.
unfoldable pub fail_all : Option (List ℕ) → List Request → List (ℕ × Settled) → List (ℕ × Settled)
unfolding settle
fail_all last_error [] futures = futures
fail_all last_error (r ∷ rs) futures =
    fail_all last_error rs (settle r.future (lost last_error) futures)

unfoldable pub disconnect : Connection → Connection
unfolding fail_all
disconnect c = record c {
  needs_handshake = true;
  noreply_set = false;
  parser = on_disconnect c.parser;
  futures = fail_all c.last_error c.requests c.futures;
  requests = [];
  connected = false;
}

-- `connection_made`, and what `connect` does around `_connect`.
unfoldable pub connection_made : Connection → Connection
connection_made c = record c { connected = true }

unfoldable pub set_connection_error : Bool → Connection → Connection
set_connection_error failed c = record c { failed = failed }

unfoldable pub connection_lost : Option (List ℕ) → Connection → Connection
unfolding disconnect
connection_lost none c = disconnect c
connection_lost (some exc) c = disconnect (record c { last_error = some exc })

-- `Request.enforce_deadline`
unfoldable pub enforce_deadline : ℕ → Connection → Connection
unfolding settle
enforce_deadline f c = record c { futures = settle f timed_out c.futures }

-- `future.cancel()`, and `Request.cleanup`, which the event loop calls when the future is done.
unfoldable pub cancel : ℕ → Connection → Connection
unfolding settle
cancel f c = record c { futures = settle f cancelled c.futures }

unfoldable pub is_cancelled : Option Settled → Bool
is_cancelled (some cancelled) = true
is_cancelled _ = false

unfoldable pub cleanup : ℕ → Connection → Connection
unfolding disconnect is_connected is_cancelled
cleanup f c =
    if is_cancelled (find ℕ_discrete f c.futures) && is_connected c then disconnect c else c
