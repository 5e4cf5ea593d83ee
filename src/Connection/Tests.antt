-- ===== src/Connection/Tests.antt =====
-- Connections of coredis/connection.py at some inputs.
use coredis.Prelude.{
  ℕ_discrete, ℕ, ◌<◌, ◌≡◌, refl, Bool, true, false, not, ◌&&◌, ◌||◌, Option, none, some, List, [],
  ◌∷◌, ◌++◌, arith,
}
use coredis.Prelude.Int.{pos}
use coredis.Resp.Errors.{codes}
use coredis.Resp.Parser
use coredis.Dict.{same, find}
use coredis.Resp.Parser.{get_response, get_loop, answer, parse, Parser, Runtime, feed}
use coredis.Resp.Packer.{Codec, pack_command, pack_args, cleaned_args, encode}
use coredis.Resp.Frame.{Frame, bulk, number}
use coredis.Connection.{
  Request, Connection, new_connection, connection_made, connection_lost, is_connected, Served,
  broken, data_received, is_done,
}
use coredis.Connection.Write.{create_request}
use coredis.Connection.Replies.{requests_of}
use coredis.Connection.Owed.{is_queued}
use coredis.Connection.Uses.{
  at_rest, then_step, made_connection, requested, lost_connection, Steps-accounted,
}

-- Text is ASCII, and no float is read.
abbrev ascii : Runtime
ascii = record { to_float = λ chunk. none; decode = λ name raw. some raw; encode_text = λ v. [] }

abbrev codec : Codec
codec = record { encode_text = λ text. some text; format_float = λ f. [] }

abbrev request : ℕ → Request
request f = record { future = f; decode = false; encoding = none; raise_exceptions = true }

abbrev answers : List (Request × Frame)
answers = (request 0, number (pos 42)) ∷ (request 1, bulk (104 ∷ 105 ∷ [])) ∷ []

-- Two requests that are answered, and one that waits on.
abbrev busy : Connection
busy = record (new_connection false false (codes "utf-8")) {
  parser = feed [] Parser.init;
  requests = requests_of answers ++ request 2 ∷ [];
  next_future = 3;
  connected = true;
}

abbrev unable : Connection → Option (List ℕ) × Connection
unable c = (some [], c)

abbrev open_connection : Connection
open_connection = connection_made (new_connection false false (codes "utf-8"))

abbrev pinged : Connection
pinged = (create_request codec unable (codes "PING") [] none none none true true open_connection).1

open_is_connected : is_connected open_connection ≡ true
unfolding is_connected connection_made
open_is_connected = refl

one_future : 0 < (connection_lost none pinged).next_future
unfolding connection_lost create_request connection_made is_connected pack_command pack_args
    cleaned_args encode
one_future = omega arith

Steps-accounted_example :
    (((connection_lost none pinged).connected && is_queued 0 (connection_lost none pinged).requests)
      || is_done 0 (connection_lost none pinged).futures)
    ≡ true
Steps-accounted_example =
    Steps-accounted ascii codec false false (codes "utf-8") (connection_lost none pinged)
      (then_step (new_connection false false (codes "utf-8")) pinged (connection_lost none pinged)
        (then_step (new_connection false false (codes "utf-8")) open_connection pinged
          (then_step (new_connection false false (codes "utf-8"))
            (new_connection false false (codes "utf-8")) open_connection
            (at_rest (new_connection false false (codes "utf-8")))
            (made_connection (new_connection false false (codes "utf-8"))))
          (requested unable (codes "PING") [] none none none true true open_connection
            open_is_connected))
        (lost_connection none pinged))
      0 one_future

-- Whether the request 0 is forgotten: it is not queued any more, and its future is not done.
abbrev forgotten : Served → Bool
forgotten (broken e c) = not (is_queued 0 c.requests || is_done 0 c.futures)
forgotten _ = false

-- A byte that is no marker: the parser raises after the request was taken from the queue.
request_forgotten : forgotten (data_received ascii (codes "?\r\n") busy) ≡ true
unfolding data_received is_queued is_done requests_of get_response get_loop answer parse feed same
    ℕ_discrete find
request_forgotten = refl
