-- ===== src/Streams/Get.antt =====
-- `get_entry`, `initialize` and `add_stream` of `Consumer` of coredis/stream.py.
use coredis.Prelude.{
  ℕ, ◌+◌, Bool, true, false, Option, none, some, List, [], ◌∷◌, if◌then◌else◌, map,
}
use mathlib.Core.Option
use coredis.Dict.{find, set_item, same}
use coredis.Names.{Names, names_equal}
use coredis.Streams.{
  Entry, Consumer, InfoAnswer, info, no_info, response_error, info_exception, ReadAnswer, entries,
  nothing, read_exception, Client, Outcome, done, key_error, raised, start_ids, default_id,
  take_buffered, distribute, update, block_of,
}

unfoldable pub contains_name : List ℕ → List (List ℕ) → Bool
unfolding same
contains_name s [] = false
contains_name s (k ∷ ks) =
    let later = contains_name s ks in if same names_equal s k then true else later

module _ {S E : Type 0} (client : Client S E) where
  -- `chunk_streams`
  unfoldable pub chunk_streams : Consumer → Option (List (Names (List ℕ)))
  unfolding start_ids
  chunk_streams c =
      Option.map (λ ids. if client.is_cluster then map (λ p. p ∷ []) ids else ids ∷ [])
        (start_ids c.streams c.state)

  unfoldable pub after_read :
      (Names (List Entry) → S → Outcome E (Names (List Entry)) × S)
      → Names (List Entry)
      → ReadAnswer E × S
      → Outcome E (Names (List Entry)) × S
  unfolding update
  after_read again consumed (entries more, s) = again (update more consumed) s
  after_read again consumed (nothing, s) = again consumed s
  after_read again consumed (read_exception e, s) = (raised e, s)

  -- `for chunk in self.chunk_streams()`
  unfoldable pub read_chunks :
      Consumer → List (Names (List ℕ)) → Names (List Entry) → S → Outcome E (Names (List Entry)) × S
  unfolding after_read block_of
  read_chunks c [] consumed s = (done consumed, s)
  read_chunks c (chunk ∷ chunks) consumed s =
      after_read (λ more t. read_chunks c chunks more t) consumed
        (client.xread chunk (c.buffer_size + 1) (block_of c.timeout) s)

  unfoldable pub fetch : Consumer → S → Outcome E (Names (List Entry)) × S
  unfolding chunk_streams read_chunks
  fetch c s = elim (chunk_streams c) [
    | none ↦ (key_error, s)
    | some chunks ↦ read_chunks c chunks [] s
  ]

  abbrev pub Result : Type 0 → Type 0
  Result A = Outcome E A × Consumer × S

  unfoldable pub set_initialized : List ℕ → Consumer → Consumer
  set_initialized stream c = record c {
    initialized_streams = set_item names_equal stream tt c.initialized_streams;
  }

  unfoldable pub note_last :
      List ℕ → Entry → Consumer → S → (Consumer → S → Result (Unit {0})) → Result (Unit {0})
  unfolding default_id set_initialized
  note_last stream e c s again = elim (default_id stream e.identifier c.state) [
    | none ↦ (key_error, c, s)
    | some state ↦ again (set_initialized stream (record c { state = state })) s
  ]

  unfoldable pub after_info :
      (Consumer → S → Result (Unit {0})) → List ℕ → Consumer → InfoAnswer E × S → Result (Unit {0})
  unfolding note_last set_initialized
  after_info again stream c (info (some e), s) = note_last stream e c s again
  after_info again stream c (info none, s) = again (set_initialized stream c) s
  after_info again stream c (no_info, s) = again (set_initialized stream c) s
  after_info again stream c (response_error, s) = again (set_initialized stream c) s
  after_info again stream c (info_exception e, s) = (raised e, c, s)

  unfoldable is_initialized : List ℕ → Consumer → Bool
  is_initialized stream c = elim (find names_equal stream c.initialized_streams) [
    | none ↦ false
    | some u ↦ true
  ]

  -- `for stream in self.streams`
  unfoldable pub initialize_streams : Bool → List (List ℕ) → Consumer → S → Result (Unit {0})
  unfolding after_info is_initialized
  initialize_streams partial [] c s = (done tt, record c { initialized = true }, s)
  initialize_streams partial (stream ∷ streams) c s =
      let rest : Consumer → S → Result (Unit {0}) = λ d t. initialize_streams partial streams d t in
      let skipped = rest c s in
      let asked = after_info rest stream c (client.xinfo_stream stream s) in
      if partial then (if is_initialized stream c then skipped else asked) else asked

  unfoldable pub initialize : Bool → Consumer → S → Result (Unit {0})
  unfolding initialize_streams
  initialize partial c s =
      let asked = initialize_streams partial c.streams c s in
      if partial then asked else if c.initialized then (done tt, c, s) else asked

  -- `if cur and cur_stream`
  unfoldable pub settle : List ℕ → Entry → Consumer → S → Result (Option (List ℕ × Entry))
  settle [] e c s = (done (some ([], e)), c, s)
  settle (k ∷ ks) e c s = elim (find names_equal (k ∷ ks) c.state) [
    | none ↦ (key_error, c, s)
    | some old ↦ (
      done (some (k ∷ ks, e)),
      record c { state = set_item names_equal (k ∷ ks) (some e.identifier) c.state },
      s,
    )
  ]

  unfoldable pub hand_over :
      Consumer → Option (List ℕ × Entry) × Names (List Entry) → S → Result (Option (List ℕ × Entry))
  unfolding settle
  hand_over c (none, buffer) s = (done none, record c { buffer = buffer }, s)
  hand_over c (some (stream, e), buffer) s = settle stream e (record c { buffer = buffer }) s

  unfoldable pub after_fetch :
      Consumer → Outcome E (Names (List Entry)) × S → Result (Option (List ℕ × Entry))
  unfolding hand_over distribute
  after_fetch c (done consumed, s) = hand_over c (distribute consumed none c.buffer) s
  after_fetch c (key_error, s) = (key_error, c, s)
  after_fetch c (raised e, s) = (raised e, c, s)

  -- `get_entry`, behind its call of `initialize`.
  unfoldable pub next_entry : Consumer → S → Result (Option (List ℕ × Entry))
  unfolding take_buffered hand_over fetch after_fetch
  next_entry c s = elim (take_buffered c.buffer) [
    | some (got, buffer) ↦ hand_over c (some got, buffer) s
    | none ↦ after_fetch c (fetch c s)
  ]

  unfoldable after_initialize :
      (Consumer → S → Result (Option (List ℕ × Entry)))
      → Result (Unit {0})
      → Result (Option (List ℕ × Entry))
  after_initialize next (done u, c, s) = next c s
  after_initialize next (key_error, c, s) = (key_error, c, s)
  after_initialize next (raised e, c, s) = (raised e, c, s)

  unfoldable pub get_entry : Consumer → S → Result (Option (List ℕ × Entry))
  unfolding initialize after_initialize next_entry
  get_entry c s = after_initialize next_entry (initialize false c s)

  -- `self.streams.add(stream)` and `self.state.setdefault(stream, ...)`
  unfoldable pub with_stream : List ℕ → Option (List ℕ) → Consumer → Consumer
  with_stream stream id c =
      let known : Bool = elim (find names_equal stream c.state) [
        | none ↦ false
        | some old ↦ true
      ] in
      let given : Option (List ℕ) = elim id [ some (k ∷ ks) ↦ some (k ∷ ks) | _ ↦ none ] in
      record c {
        streams = (if contains_name stream c.streams then c.streams else stream ∷ c.streams);
        state = (if known then c.state else set_item names_equal stream given c.state);
      }

  unfoldable report : List ℕ → Result (Unit {0}) → Result Bool
  unfolding is_initialized
  report stream (done u, c, s) = (done (is_initialized stream c), c, s)
  report stream (key_error, c, s) = (key_error, c, s)
  report stream (raised e, c, s) = (raised e, c, s)

  unfoldable pub add_stream : List ℕ → Option (List ℕ) → Consumer → S → Result Bool
  unfolding with_stream report initialize
  add_stream stream id c s = report stream (initialize true (with_stream stream id c) s)
