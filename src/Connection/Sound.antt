-- ===== src/Connection/Sound.antt =====
-- The futures of coredis/connection.py that are owed a result, under each operation of a connection.
use Prim.{yes, no}
use coredis.Prelude.{
  ℕ, suc, ◌<◌, ◌≡◌, refl, sym, ap, ◌∙◌, Bool, true, false, ◌||◌, ◌&&◌, Option, none, some, List, [],
  ◌∷◌, ◌++◌, if◌then◌else◌, arith, Bool-cases, inl, inr, ℕ_discrete, dec_lt,
}
use coredis.Dict.{find, same, same_refl}
use coredis.Resp.Value.{null}
use coredis.Connection.{
  Connection, Settled, result, is_connected, is_cancelled, is_done, settle, disconnect,
  connection_lost, cleanup,
}
use coredis.Connection.Write.{
  CommandInvocation, or_default, or_encoding, enqueue, enqueue_all, done_future, request_future,
  after_send, send_packed,
}
use coredis.Connection.Owed.{
  is_queued, accounted, is_done-set_item, accounted-settle, accounted-queue, accounted-fail_all,
}

-- Each future that was made waits in the queue, or it is done; without a transport none waits.
pub record IsSound (c : Connection) : Type 0 where
  pub owed : (f : ℕ) → f < c.next_future → accounted f c.requests c.futures ≡ true
  pub closed : c.connected ≡ false → c.requests ≡ []

disconnect-IsSound : (c : Connection) → IsSound c → IsSound (disconnect c)
unfolding disconnect
disconnect-IsSound c h = record {
  owed = λ f below. accounted-fail_all f c.last_error c.requests c.futures (h.owed f below);
  closed = λ e. refl;
}

pub connection_lost-IsSound :
    (exc : Option (List ℕ)) (c : Connection) → IsSound c → IsSound (connection_lost exc c)
unfolding connection_lost
connection_lost-IsSound none c h = disconnect-IsSound c h
connection_lost-IsSound (some exc) c h =
    disconnect-IsSound (record c { last_error = some exc })
      (record { owed = h.owed; closed = h.closed })

pub settle-IsSound :
    (f : ℕ) (s : Settled) (c : Connection)
    → IsSound c
    → IsSound (record c { futures = settle f s c.futures })
settle-IsSound f s c h = record {
  owed = λ g below. accounted-settle g f s c.requests c.futures (h.owed g below);
  closed = h.closed;
}

if-IsSound : (b : Bool) (c d : Connection) → IsSound c → IsSound d → IsSound (if b then c else d)
if-IsSound true c d h k = h
if-IsSound false c d h k = k

pub cleanup-IsSound : (f : ℕ) (c : Connection) → IsSound c → IsSound (cleanup f c)
unfolding cleanup
cleanup-IsSound f c h =
    if-IsSound (is_cancelled (find ℕ_discrete f c.futures) && is_connected c) (disconnect c) c
      (disconnect-IsSound c h) h

or_true : (a : Bool) → (a || true) ≡ true
or_true true = refl
or_true false = refl

or_insert : (a b c : Bool) → (a || (b || c)) ≡ true → (b || (a || c)) ≡ true
or_insert true b c h = or_true b
or_insert false b c h = h

-- A new request waits, and a future that is done from the start is done.
same_below :
    (f n : ℕ) (b : Bool) → (f < n → b ≡ true) → f < suc n → (same ℕ_discrete f n || b) ≡ true
same_below f n b h below = elim (dec_lt f n) [
  | yes p ↦ rw (h p) (or_true (same ℕ_discrete f n))
  | no q ↦ let e : f ≡ n = omega arith in rw (e, same_refl ℕ_discrete n) refl
]

enqueue-IsSound :
    (decode : Option Bool) (encoding : Option (List ℕ)) (raise_exceptions : Bool) (c : Connection)
    → c.connected ≡ true
    → IsSound c
    → IsSound (enqueue decode encoding raise_exceptions c).1
unfolding enqueue
enqueue-IsSound decode encoding raise_exceptions c on h = record {
  owed = λ f below.
      accounted-queue f
        (record {
          future = c.next_future;
          decode = or_default decode c.decode_responses;
          encoding = some (or_encoding encoding c.encoding);
          raise_exceptions = raise_exceptions;
        })
        c.requests c.futures
      ∙ same_below f c.next_future (accounted f c.requests c.futures) (h.owed f) below;
  closed = λ e. let never : true ≡ false = sym on ∙ e in cc;
}

done_future-IsSound : (c : Connection) → c.connected ≡ true → IsSound c → IsSound (done_future c).1
unfolding done_future accounted
done_future-IsSound c on h = record {
  owed = λ f below.
      ap (λ b. is_queued f c.requests || b)
        (is_done-set_item f c.next_future (result null) c.futures)
      ∙ or_insert (same ℕ_discrete f c.next_future) (is_queued f c.requests) (is_done f c.futures)
          (same_below f c.next_future (accounted f c.requests c.futures) (h.owed f) below);
  closed = λ e. let never : true ≡ false = sym on ∙ e in cc;
}

pub enqueue_all-IsSound :
    (commands : List CommandInvocation) (raise_exceptions : Bool) (c : Connection)
    → c.connected ≡ true
    → IsSound c
    → IsSound (enqueue_all commands raise_exceptions c).1
unfolding enqueue_all
enqueue_all-IsSound [] raise_exceptions c on h = h
enqueue_all-IsSound (cmd ∷ cmds) raise_exceptions c on h =
    enqueue_all-IsSound cmds raise_exceptions (enqueue cmd.decode cmd.encoding raise_exceptions c).1
      (unfold enqueue in on) (enqueue-IsSound cmd.decode cmd.encoding raise_exceptions c on h)

pub request_future-IsSound :
    (noreply decode : Option Bool) (encoding : Option (List ℕ)) (raise_exceptions : Bool)
    (c : Connection)
    → c.connected ≡ true
    → IsSound c
    → IsSound (request_future noreply decode encoding raise_exceptions c).1
unfolding request_future
request_future-IsSound noreply decode encoding raise_exceptions c on h =
    elim (Bool-cases (c.noreply_set || or_default noreply false)) [
      | inl e ↦ rw e (done_future-IsSound c on h)
      | inr e ↦ rw e (enqueue-IsSound decode encoding raise_exceptions c on h)
    ]

-- What is sent leaves the connection sound where the requests that are made then do.
pub after_send-IsSound :
    {A : Type 0} (request : Connection → A × Connection) (chunks : Option (List (List ℕ)))
    (writable : Bool) (c : Connection)
    → ((d : Connection) → d.connected ≡ true → IsSound d → IsSound (request d).1)
    → c.connected ≡ true
    → IsSound c
    → IsSound (after_send request chunks writable c).1
unfolding after_send send_packed
after_send-IsSound request none writable c k on h = h
after_send-IsSound request (some chunks) true c k on h =
    k (record c { written = c.written ++ chunks }) on (record { owed = h.owed; closed = h.closed })
after_send-IsSound request (some chunks) false c k on h =
    if-IsSound c.connected (disconnect c) c (disconnect-IsSound c h) h
