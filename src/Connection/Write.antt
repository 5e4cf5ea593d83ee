-- ===== src/Connection/Write.antt =====
-- `create_request` and `create_requests` of `BaseConnection` of coredis/connection.py. `connect` and
-- whether the transport can be written to before the timeout are parameters.
use coredis.Prelude.{
  ℕ, suc, Bool, false, not, ◌&&◌, ◌||◌, Option, none, some, List, [], ◌∷◌, ◌++◌, if◌then◌else◌,
  ℕ_discrete, map,
}
use coredis.Dict.{set_item}
use coredis.Resp.Errors.{codes}
use coredis.Resp.Value.{null}
use coredis.Resp.Packer.{Argument, raw, Codec, pack_command, pack_commands}
use coredis.Connection.{Request, Connection, is_connected, result, disconnect}

-- How a call ends; `connect_error` has the exception of `connect`.
pub data Made (A : Type 0) : Type 0 where
  made : A → Made A
  encode_error : Made A
  write_timeout : Made A
  connect_error : List ℕ → Made A

-- `CommandInvocation`
pub record CommandInvocation : Type 0 where
  pub command : Argument
  pub args : List Argument
  pub decode : Option Bool
  pub encoding : Option (List ℕ)

unfoldable pub or_default : {A : Type 0} → Option A → A → A
or_default none a = a
or_default (some b) a = b

-- `encoding or self.encoding`
unfoldable pub or_encoding : Option (List ℕ) → List ℕ → List ℕ
or_encoding (some (k ∷ ks)) own = k ∷ ks
or_encoding _ own = own

-- A new request, at the end of the queue.
unfoldable pub enqueue : Option Bool → Option (List ℕ) → Bool → Connection → ℕ × Connection
unfolding or_default or_encoding
enqueue decode encoding raise_exceptions c =
    let request : Request = record {
      future = c.next_future;
      decode = or_default decode c.decode_responses;
      encoding = some (or_encoding encoding c.encoding);
      raise_exceptions = raise_exceptions;
    } in
    (
      c.next_future,
      record c { requests = c.requests ++ request ∷ []; next_future = suc c.next_future },
    )

-- A future that is done from the start.
unfoldable pub done_future : Connection → ℕ × Connection
done_future c = (
  c.next_future,
  record c {
    futures = set_item ℕ_discrete c.next_future (result null) c.futures;
    next_future = suc c.next_future;
  },
)

unfoldable pub enqueue_all : List CommandInvocation → Bool → Connection → List ℕ × Connection
unfolding enqueue
enqueue_all [] raise_exceptions c = ([], c)
enqueue_all (cmd ∷ cmds) raise_exceptions c =
    let (f, d) = enqueue cmd.decode cmd.encoding raise_exceptions c in
    let (fs, e) = enqueue_all cmds raise_exceptions d in (f ∷ fs, e)

abbrev pub with_made : {A : Type 0} → A × Connection → Made A × Connection
with_made (a, c) = (made a, c)

module _ (codec : Codec) where
  -- The bytes of a command, behind `CLIENT REPLY SKIP` where no reply is wanted.
  unfoldable pub request_bytes :
      List ℕ → List Argument → Option Bool → Connection → Option (List (List ℕ))
  unfolding or_default
  request_bytes command args noreply c =
      let skip : Bool = is_connected c && or_default noreply false && not c.noreply in
      let prefix : Option (List (List ℕ)) =
        if skip
        then pack_command codec (codes "CLIENT REPLY") (raw (codes "SKIP") ∷ [])
        else some [] in
      elim prefix [
        | none ↦ none
        | some front ↦ elim (pack_command codec command args) [
          | none ↦ none
          | some chunks ↦ some (front ++ chunks)
        ]
      ]

-- `_send_packed_command`, where the writing may start in time or not.
unfoldable pub send_packed : Bool → List (List ℕ) → Connection → Option Connection × Connection
send_packed writable chunks c =
    if writable
    then (some (record c { written = c.written ++ chunks }), c)
    else (none, if c.connected then disconnect c else c)

unfoldable pub after_send :
    {A : Type 0}
    → (Connection → A × Connection)
    → Option (List (List ℕ))
    → Bool
    → Connection
    → Made A × Connection
unfolding send_packed
after_send request none writable c = (encode_error, c)
after_send request (some chunks) writable c =
    let (sent, d) = send_packed writable chunks c in
    elim sent [ none ↦ (write_timeout, d) | some e ↦ with_made (request e) ]

-- `if not (self.noreply_set or noreply)`
unfoldable pub request_future :
    Option Bool → Option Bool → Option (List ℕ) → Bool → Connection → ℕ × Connection
unfolding or_default enqueue done_future
request_future noreply decode encoding raise_exceptions c =
    if c.noreply_set || or_default noreply false
    then done_future c
    else enqueue decode encoding raise_exceptions c

unfoldable pub once_connected :
    {A : Type 0}
    → (Connection → Option (List ℕ) × Connection)
    → (Connection → Made A × Connection)
    → Connection
    → Made A × Connection
once_connected connect next c =
    let (failure, d) = connect c in
    let connected : Made _ × Connection = elim failure [
      | none ↦ next d
      | some exc ↦ (connect_error exc, d)
    ] in
    if is_connected c then next c else connected

module _ (codec : Codec) (connect : Connection → Option (List ℕ) × Connection) where
  unfoldable pub create_request :
      List ℕ
      → List Argument
      → Option Bool
      → Option Bool
      → Option (List ℕ)
      → Bool
      → Bool
      → Connection
      → Made ℕ × Connection
  unfolding once_connected after_send request_bytes request_future
  create_request command args noreply decode encoding raise_exceptions writable c =
      once_connected connect
        (λ d.
          after_send (request_future noreply decode encoding raise_exceptions)
            (request_bytes codec command args noreply d) writable d)
        c

  unfoldable pub create_requests :
      List CommandInvocation → Bool → Bool → Connection → Made (List ℕ) × Connection
  unfolding once_connected after_send enqueue_all
  create_requests commands raise_exceptions writable c =
      once_connected connect
        (λ d.
          after_send (enqueue_all commands raise_exceptions)
            (pack_commands codec (map (λ cmd. (cmd.command, cmd.args)) commands)) writable d)
        c
