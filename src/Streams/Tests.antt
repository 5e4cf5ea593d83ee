-- ===== src/Streams/Tests.antt =====
-- Runs of the consumer, and the theorems at them.
use coredis.Prelude.{
  ℕ, ◌≡◌, refl, Bool, true, false, none, some, List, [], ◌∷◌, ◌++◌, if◌then◌else◌, ℕ_discrete,
}
use coredis.Dict.{find, set_item, same, Distinct}
use coredis.Names.{names_equal}
use coredis.Resp.Errors.{codes}
use coredis.Streams.{Entry, Consumer, Client, done, init, info, entries, nothing}
use coredis.Streams.Get.{get_entry}
use coredis.Streams.Deliver.{entries_of}
use coredis.Streams.Asked.{server_gave}
use coredis.Streams.Calls.{no_calls, a_call, all_taken, all_entries, Calls-in_order}
use coredis.Streams.Identifier.{get_entry-identifier}

abbrev entry : List ℕ → Entry
entry identifier = record { identifier = identifier; field_values = [] }

-- A server that has two entries of one stream and one of another in its first reply.
abbrev server : Client Bool (Unit {0})
server = record {
  is_cluster = false;
  xinfo_stream = λ name s. (info none, s);
  xread = λ streams count block s. if s then (nothing, s) else (
    entries (
        (codes "a", entry (codes "1") ∷ entry (codes "2") ∷ [])
        ∷ (codes "b", entry (codes "5") ∷ [])
        ∷ []),
    true,
  );
}

abbrev fresh : Consumer
fresh = init (codes "a" ∷ codes "b" ∷ []) 1 none []

abbrev ready : Consumer
ready = record fresh { initialized = true }

abbrev first : Consumer
first = (get_entry server ready false).1

abbrev second : Consumer
second = (get_entry server first true).1

initializes : (get_entry server fresh false).0 ≡ done (some (codes "a", entry (codes "1")))
unfolding init get_entry find set_item names_equal ℕ_discrete
initializes = refl

first_call :
    get_entry server ready false ≡ (done (some (codes "a", entry (codes "1"))), first, true)
unfolding init get_entry find set_item names_equal ℕ_discrete
first_call = refl

second_call :
    get_entry server first true ≡ (done (some (codes "a", entry (codes "2"))), second, true)
unfolding init get_entry find set_item names_equal ℕ_discrete
second_call = refl

is_ready : ready.initialized ≡ true
is_ready = refl

nothing_buffered : Distinct names_equal ready.buffer
unfolding init
nothing_buffered = tt

Calls-in_order_example :
    all_taken
        (codes "b")
        (some (codes "a", entry (codes "1")) ∷ some (codes "a", entry (codes "2")) ∷ [])
      ++ entries_of (codes "b") second.buffer
    ≡ entries_of (codes "b") ready.buffer
      ++ all_entries
          (codes "b")
          (server_gave server ready false ∷ server_gave server first true ∷ [])
Calls-in_order_example =
    Calls-in_order server ready second
      (some (codes "a", entry (codes "1")) ∷ some (codes "a", entry (codes "2")) ∷ [])
      (server_gave server ready false ∷ server_gave server first true ∷ []) is_ready
      nothing_buffered
      (a_call ready first second false true _ _ _ first_call
        (a_call first second second true true _ _ _ second_call (no_calls second)))
      (codes "b")

get_entry-identifier_example : find names_equal (codes "b") first.state ≡ (
    if same names_equal (codes "b") (codes "a")
    then some (some (codes "1"))
    else find names_equal (codes "b") ready.state)
get_entry-identifier_example =
    get_entry-identifier server ready first false true 97 [] (entry (codes "1")) is_ready first_call
      (codes "b")
