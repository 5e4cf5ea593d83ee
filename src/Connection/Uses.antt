-- ===== src/Connection/Uses.antt =====
-- The uses of a `BaseConnection` of coredis/connection.py, in any order.
use coredis.Prelude.{
  if◌then◌else◌, ℕ, ◌<◌, ◌≡◌, refl, sym, ap, ◌∙◌, arith, Bool, true, false, Bool-cases, inl, inr,
  ◌&&◌, ◌||◌, Option, List, map, [], ◌∷◌,
}
use mathlib.Core.Path.{subst}
use coredis.Resp.Value.{Value}
use coredis.Resp.Packer.{Argument, Codec, pack_commands}
use coredis.Resp.Parser.{
  Parser, Runtime, Outcome, get_response, not_enough_data, parsed, raised, out_of_fuel, feed,
  seek_fails,
}
use coredis.Connection.{
  Request, Connection, timed_out, cancelled, is_connected, is_done, Served, served, broken, endless,
  answered, after_response, serve, data_received, new_connection, connection_made,
  set_connection_error, connection_lost, enforce_deadline, cancel, cleanup, outcome_of,
}
use coredis.Connection.Write.{
  CommandInvocation, create_request, create_requests, request_future, enqueue_all, request_bytes,
  once_connected,
}
use coredis.Connection.Owed.{is_queued, accounted, accounted-served}
use coredis.Connection.Sound.{
  IsSound, connection_lost-IsSound, settle-IsSound, cleanup-IsSound, enqueue_all-IsSound,
  request_future-IsSound, after_send-IsSound,
}

-- The event loop calls the protocol's methods and the callbacks; a request is made on a connection that is there,
-- in a call that need not wait, or that times out; and what was received is served without an exception.
pub data Step (py : Runtime) (codec : Codec) : Connection → Connection → Type 0 where
  made_connection : (c : Connection) → Step py codec c (connection_made c)
  noted : (failed : Bool) (c : Connection) → Step py codec c (set_connection_error failed c)
  requested :
      (connect : Connection → Option (List ℕ) × Connection) (command : List ℕ)
      (args : List Argument) (noreply decode : Option Bool) (encoding : Option (List ℕ))
      (raise_exceptions writable : Bool) (c : Connection)
      → is_connected c ≡ true
      → Step py codec c
          (create_request codec connect command args noreply decode encoding raise_exceptions
            writable c).1
  requested_all :
      (connect : Connection → Option (List ℕ) × Connection) (commands : List CommandInvocation)
      (raise_exceptions writable : Bool) (c : Connection)
      → is_connected c ≡ true
      → Step py codec c (create_requests codec connect commands raise_exceptions writable c).1
  received :
      (input : List ℕ) (c d : Connection) → data_received py input c ≡ served d → Step py codec c d
  lost_connection :
      (exc : Option (List ℕ)) (c : Connection) → Step py codec c (connection_lost exc c)
  met_deadline : (f : ℕ) (c : Connection) → Step py codec c (enforce_deadline f c)
  cancelled_future : (f : ℕ) (c : Connection) → Step py codec c (cancel f c)
  cleaned_up : (f : ℕ) (c : Connection) → Step py codec c (cleanup f c)

pub data Steps (py : Runtime) (codec : Codec) : Connection → Connection → Type 0 where
  at_rest : (c : Connection) → Steps py codec c c
  then_step : (c d e : Connection) → Steps py codec c d → Step py codec d e → Steps py codec c e

-- What holds of the connection where `data_received` returns.
abbrev SoundServed : Served → Type 0
SoundServed (served c) = IsSound c
SoundServed (broken e c) = Unit
SoundServed endless = Unit

answered-IsSound :
    (r : Request) (rs : List Request) (v : Value) (q : Parser) (c : Connection)
    → c.requests ≡ r ∷ rs
    → IsSound c
    → IsSound (answered r rs v q c)
answered-IsSound r rs v q c e h = record {
  owed = λ f below.
      accounted-served f r (outcome_of r v) rs c.futures
        (ap (λ queue. accounted f queue c.futures) (sym e) ∙ h.owed f below);
  closed = λ off. let never : r ∷ rs ≡ [] = sym e ∙ h.closed off in cc;
}

module _ (py : Runtime) where
  after_response-SoundServed :
      (again : Connection → Served) (r : Request) (rs : List Request) (c : Connection)
      (o : Outcome Value)
      → ((d : Connection) → d.requests ≡ rs → IsSound d → SoundServed (again d))
      → c.requests ≡ r ∷ rs
      → IsSound c
      → SoundServed (after_response py again r rs c o)
  unfolding after_response
  after_response-SoundServed again r rs c (not_enough_data q) k e h = record {
    owed = λ f below. ap (λ queue. accounted f queue c.futures) (sym e) ∙ h.owed f below;
    closed = λ off. sym e ∙ h.closed off;
  }
  after_response-SoundServed again r rs c (parsed v q) k e h =
      k (answered r rs v q c) refl (answered-IsSound r rs v q c e h)
  after_response-SoundServed again r rs c (raised x q) k e h = tt
  after_response-SoundServed again r rs c out_of_fuel k e h = tt

  serve-SoundServed :
      (rs : List Request) (c : Connection)
      → c.requests ≡ rs
      → IsSound c
      → SoundServed (serve py rs c)
  unfolding serve
  serve-SoundServed [] c e h = h
  serve-SoundServed (r ∷ rs) c e h =
      after_response-SoundServed (λ d. serve py rs d) r rs c
        (get_response py r.decode r.encoding [] c.parser) (λ d. serve-SoundServed rs d) e h

  if_SoundServed :
      (b : Bool) (x y : Served) → SoundServed x → SoundServed y → SoundServed (if b then x else y)
  if_SoundServed true x y h k = h
  if_SoundServed false x y h k = k

  data_received-SoundServed :
      (input : List ℕ) (c : Connection) → IsSound c → SoundServed (data_received py input c)
  unfolding data_received
  data_received-SoundServed input c h = if_SoundServed (seek_fails c.parser) _ _ tt (
      serve-SoundServed c.requests (record c { parser = feed input c.parser; read_flag = true })
        refl (record { owed = h.owed; closed = h.closed }))

is_connected-connected : (c : Connection) → is_connected c ≡ true → c.connected ≡ true
unfolding is_connected
is_connected-connected c h = ground arith

module _ (py : Runtime) (codec : Codec) where
  Step-IsSound : (c d : Connection) → Step py codec c d → IsSound c → IsSound d
  unfolding connection_made set_connection_error enforce_deadline cancel create_request
      create_requests once_connected
  Step-IsSound x y (made_connection c) h = record {
    owed = h.owed;
    closed = λ e. let never : true ≡ false = e in cc;
  }
  Step-IsSound x y (noted failed c) h = record { owed = h.owed; closed = h.closed }
  Step-IsSound x y
        (requested connect command args noreply decode encoding raise_exceptions writable c on) h =
      rw on (
        after_send-IsSound (request_future noreply decode encoding raise_exceptions)
          (request_bytes codec command args noreply c) writable c
          (request_future-IsSound noreply decode encoding raise_exceptions)
          (is_connected-connected c on) h)
  Step-IsSound x y (requested_all connect commands raise_exceptions writable c on) h = rw on (
      after_send-IsSound (enqueue_all commands raise_exceptions)
        (pack_commands codec (map (λ cmd. (cmd.command, cmd.args)) commands)) writable c
        (enqueue_all-IsSound commands raise_exceptions) (is_connected-connected c on) h)
  Step-IsSound x y (received input c d e) h =
      subst SoundServed e (data_received-SoundServed py input c h)
  Step-IsSound x y (lost_connection exc c) h = connection_lost-IsSound exc c h
  Step-IsSound x y (met_deadline f c) h = settle-IsSound f timed_out c h
  Step-IsSound x y (cancelled_future f c) h = settle-IsSound f cancelled c h
  Step-IsSound x y (cleaned_up f c) h = cleanup-IsSound f c h

  Steps-IsSound : (c d : Connection) → Steps py codec c d → IsSound c → IsSound d
  Steps-IsSound x y (at_rest c) h = h
  Steps-IsSound x y (then_step c d e steps step) h =
      Step-IsSound d e step (Steps-IsSound c d steps h)

new_connection-IsSound :
    (noreply decode_responses : Bool) (encoding : List ℕ)
    → IsSound (new_connection noreply decode_responses encoding)
new_connection-IsSound noreply decode_responses encoding = record {
  owed = λ f below. absurd (omega arith);
  closed = λ e. refl;
}

-- Whatever a new connection is used for by these steps, each future that it made is done, or it is that of a
-- request in the queue and the connection has a transport.
pub Steps-accounted :
    (py : Runtime) (codec : Codec) (noreply decode_responses : Bool) (encoding : List ℕ)
    (c : Connection)
    → Steps py codec (new_connection noreply decode_responses encoding) c
    → (f : ℕ) → f < c.next_future
    → ((c.connected && is_queued f c.requests) || is_done f c.futures) ≡ true
unfolding accounted is_queued
Steps-accounted py codec noreply decode_responses encoding c steps f below =
    let h =
      Steps-IsSound py codec (new_connection noreply decode_responses encoding) c steps
        (new_connection-IsSound noreply decode_responses encoding) in
    elim (Bool-cases c.connected) [
      | inl e ↦ rw e (h.owed f below)
      | inr e ↦ rw e (ap (λ queue. accounted f queue c.futures) (sym (h.closed e)) ∙ h.owed f below)
    ]
