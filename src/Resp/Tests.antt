-- ===== src/Resp/Tests.antt =====
-- The parser and the packer at some inputs.
use mathlib.Core.Option
use coredis.Prelude.{
  drop, take, true, ℕ, ◌-◌, ◌≡◌, ◌≢◌, refl, false, none, some, List, [], ◌∷◌, ◌++◌, join,
}
use coredis.Prelude.Int.{pos, negsuc}
use coredis.Resp.Value.{int, bytes, list, is_truthy, ensure_hashable}
use coredis.Resp.Nodes.{dict_node, append}
use coredis.Resp.Number.{parse_int, show_int}
use coredis.Resp.Number.Decimal.{parse_int-show_int}
use coredis.Resp.Parser.{
  Parser, Runtime, pass, init, feed, parse, get_response, parsed, not_enough_data, out_of_fuel,
}
use coredis.Resp.Frame.{
  Frame, array, bulk, number, map_frame, closed, entry, done, frame, encode, marker_of, value,
}
use coredis.Resp.InStep.{stays_in_step}
use coredis.Resp.Lengths.{no_length_below}
use coredis.Resp.RoundTrip.{Between, parse-encode}
use coredis.Resp.Chunks.{parse-total}
use coredis.Resp.Pieces.{
  forget, feed-init, parse-waits, parse-ends, parse_pieces, parse_pieces-join, no_piece_below,
}
use coredis.Resp.Falsy.{append-falsy}
use coredis.Resp.Packer
use coredis.Resp.Packer.{Argument, Codec, text, integer, pack_command, pack_commands, cleaned_args}
use coredis.Resp.Packer.Join.{encode_each, commands_bytes, pack_commands-join}
use coredis.Resp.Packer.Echo.{byte_strings, parse-pack_command}
use coredis.Resp.Respond.{get_response-total}

-- Text is ASCII, and no float is read.
abbrev ascii : Runtime
ascii = record { to_float = λ chunk. none; decode = λ name raw. some raw; encode_text = λ v. [] }

abbrev codec : Codec
codec = record { encode_text = λ codes. some codes; format_float = λ f. [] }

-- `[b"hi", 42, {b"k": None}]`
abbrev sample : Frame
sample = array (
    frame (bulk (104 ∷ 105 ∷ [])) (
      frame (number (pos 42))
        (frame (map_frame (entry (bulk (107 ∷ [])) Frame.nothing closed)) done)))

parse-encode_example :
    (q : Parser) × (parse ascii false none (feed (encode sample ++ (43 ∷ [])) init)
      ≡ parsed
          (record { response_type = marker_of sample; response = value ascii false none sample })
          q)
    × Between q (43 ∷ [])
    × (q.push_messages ≡ (feed (encode sample ++ (43 ∷ [])) init).push_messages)
unfolding value is_truthy ensure_hashable
parse-encode_example =
    parse-encode ascii false none sample (feed (encode sample ++ (43 ∷ [])) init) (43 ∷ [])
      (tt, (tt, ((tt, tt, tt), tt))) (tt, (tt, ((tt, refl, tt, tt), tt)))
      (feed-init (encode sample ++ (43 ∷ [])))

parse-total_example : parse ascii false none (feed (36 ∷ 13 ∷ 10 ∷ []) init) ≢ out_of_fuel
parse-total_example =
    parse-total ascii false none (feed (36 ∷ 13 ∷ 10 ∷ []) init) (36 ∷ 13 ∷ 10 ∷ [])
      (feed-init (36 ∷ 13 ∷ 10 ∷ [])).ready

-- `$2\r\nh` and `i\r\n`
abbrev front : List ℕ
front = 36 ∷ 50 ∷ 13 ∷ 10 ∷ 104 ∷ []

abbrev back : List ℕ
back = 105 ∷ 13 ∷ 10 ∷ []

abbrev halfway : Parser
halfway = record {
  push_messages = none;
  localbuffer = record { contents = front; position = 4 };
  bytes_read = 0;
  below_zero = 0;
  bytes_written = 5;
  nodes = [];
}

front_waits : parse ascii false none (feed front init) ≡ not_enough_data halfway
unfolding parse feed
front_waits = refl

front_not_below : no_length_below ascii false none (feed front init) ≡ true
unfolding feed no_length_below pass
front_not_below = refl

pieces_not_below : no_piece_below ascii false none (front ∷ back ∷ []) init ≡ true
unfolding feed no_piece_below no_length_below pass
pieces_not_below = refl

whole_not_below : no_length_below ascii false none (feed (front ++ back) init) ≡ true
unfolding feed no_length_below pass
whole_not_below = refl

-- `$-3\r\nab\r\n`, whose first call takes all of it: the content is what two bytes less leave of the rest.
abbrev minus_three : List ℕ
minus_three = 36 ∷ 45 ∷ 51 ∷ 13 ∷ 10 ∷ 97 ∷ 98 ∷ 13 ∷ 10 ∷ []

below_minus_two : stays_in_step ascii false none (feed minus_three init) ≡ false
unfolding feed stays_in_step pass
below_minus_two = refl

-- Cut behind its first line, the same bytes give nothing.
cut_behind_line :
    forget
      (parse_pieces ascii false none (drop 5 minus_three ∷ []) (feed (take 5 minus_three) init))
    ≡ parsed (record { response_type = b'$'; response = bytes [] }) init
unfolding feed parse forget parse_pieces
cut_behind_line = refl

rest_taken :
    forget (parse ascii false none (feed minus_three init))
    ≡ parsed (record { response_type = b'$'; response = bytes (97 ∷ 98 ∷ []) }) init
unfolding feed parse forget
rest_taken = refl

parse-waits_example :
    parse ascii false none (feed back halfway)
    ≡ parse ascii false none (feed back (feed front init))
parse-waits_example =
    parse-waits ascii false none (feed front init) halfway front back (feed-init front).ready
      front_not_below front_waits

parse_pieces-join_example :
    forget (parse_pieces ascii false none (front ∷ back ∷ []) init)
    ≡ forget (parse ascii false none (feed (join (front ∷ back ∷ [])) init))
parse_pieces-join_example =
    parse_pieces-join ascii false none (front ∷ back ∷ []) init []
      (record { ahead = refl; synced = refl; counted = refl; whole = refl; not_below = refl })
      pieces_not_below

whole_frame : (q : Parser) → parse ascii false none (feed (front ++ back) init) ≢ not_enough_data q
unfolding parse feed
whole_frame q e = cc

parse-ends_example :
    forget (parse ascii false none (feed front (feed (front ++ back) init)))
    ≡ forget (parse ascii false none (feed (front ++ back) init))
parse-ends_example =
    parse-ends ascii false none (feed (front ++ back) init) (front ++ back) front
      (feed-init (front ++ back)).ready whole_not_below whole_frame

-- The key 0
append-falsy_example :
    append (append (dict_node 1) (int (pos 0))) (bytes back) ≡ record (dict_node 1) {
      depth = (dict_node 1).depth - 1 - 1;
      key = ensure_hashable (bytes back);
    }
unfolding append dict_node ensure_hashable
append-falsy_example = append-falsy (dict_node 1) _ (int (pos 0)) (bytes back) refl refl refl

parse_int-show_int_example : parse_int (show_int (negsuc 41)) ≡ some (negsuc 41)
parse_int-show_int_example = parse_int-show_int (negsuc 41)

-- `GET GET`, a command of two words, and a number
abbrev command : List ℕ
command = 71 ∷ 69 ∷ 84 ∷ 32 ∷ 71 ∷ 69 ∷ 84 ∷ []

abbrev chunks : List (List ℕ)
chunks =
    (42 ∷ 51 ∷ 13 ∷ 10 ∷ 36 ∷ 51 ∷ 13 ∷ 10 ∷ 71 ∷ 69 ∷ 84 ∷ 13 ∷ 10 ∷ 36 ∷ 51 ∷ 13 ∷ 10 ∷ 71 ∷ 69
      ∷ 84 ∷ 13 ∷ 10 ∷ 36 ∷ 49 ∷ 13 ∷ 10 ∷ 55 ∷ 13 ∷ 10 ∷ [])
    ∷ []

command_packed : pack_command codec command (integer (pos 7) ∷ []) ≡ some chunks
unfolding pack_command Packer.pack_args Packer.encode Packer.next_buff Packer.add_chunks
    cleaned_args Packer.header show_int
command_packed = refl

pack_commands-join_example :
    Option.map join
      (pack_commands codec ((text command, integer (pos 7) ∷ []) ∷ (text back, []) ∷ []))
    ≡ commands_bytes codec ((text command, integer (pos 7) ∷ []) ∷ (text back, []) ∷ [])
pack_commands-join_example =
    pack_commands-join codec ((text command, integer (pos 7) ∷ []) ∷ (text back, []) ∷ [])

parse-pack_command_example :
    (raws : List (List ℕ)) × (q : Parser) × (encode_each codec
        (cleaned_args command (integer (pos 7) ∷ []))
      ≡ some raws)
    × (parse ascii false none (feed (join chunks ++ []) init)
        ≡ parsed (record { response_type = b'*'; response = list (byte_strings raws) }) q)
    × Between q []
parse-pack_command_example =
    parse-pack_command ascii none codec command (integer (pos 7) ∷ []) chunks
      (feed (join chunks ++ []) init) [] command_packed (feed-init (join chunks ++ []))

-- `>1\r\n:1\r\n`
abbrev message : List ℕ
message = 62 ∷ 49 ∷ 13 ∷ 10 ∷ 58 ∷ 49 ∷ 13 ∷ 10 ∷ []

get_response-total_example : get_response ascii false none [] (feed message init) ≢ out_of_fuel
get_response-total_example =
    get_response-total ascii false none [] (feed message init) message (feed-init message).ready
