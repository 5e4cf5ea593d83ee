-- ===== src/Resp/Frame.antt =====
-- What a server sends, as a tree; its bytes; and the Python value that it stands for. This is the protocol's grammar, written
-- without reference to the parser's stack of nodes, and without blob errors, attributes, streamed types and the verbatim
-- strings that are not of the format txt.
use coredis.Prelude.{
  ℕ, suc, ◌≡◌, Bool, true, Option, some, List, [], ◌∷◌, ◌++◌, length, if◌then◌else◌,
}
use coredis.Prelude.Int.{ℤ}
use coredis.Prelude.Partial.{◌>>=◌}
use coredis.Resp.Value.{
  Value, Values, Pairs, null, bool, int, float, list, set, dict, nil, cons, end, is_truthy,
  dict_set, set_add, ensure_hashable,
}
use coredis.Resp.Number.{decimal, show_int}
use coredis.Resp.Errors.{codes, parse_error}
use coredis.Resp.Parser.{Runtime, try_decode}
use coredis.Resp.Lines.{OneLine}

mutual
  -- `double` has the float that its text stands for, `failure` the exception that its text gives.
  pub data Frame : Type 0 where
    simple bulk verbatim : List ℕ → Frame
    null_bulk null_array nothing : Frame
    number big_number : ℤ → Frame
    double : List ℕ → ℕ → Frame
    boolean : Bool → Frame
    failure : List ℕ → Value → Frame
    array push set_frame : Frames → Frame
    map_frame : Entries → Frame

  pub data Frames : Type 0 where
    done : Frames
    frame : Frame → Frames → Frames

  pub data Entries : Type 0 where
    closed : Entries
    entry : Frame → Frame → Entries → Entries

unfoldable pub count : Frames → ℕ
count done = 0
count (frame f fs) = suc (count fs)

unfoldable pub count_entries : Entries → ℕ
count_entries closed = 0
count_entries (entry k v es) = suc (count_entries es)

-- A marker, a text and the line end.
unfoldable pub line : ℕ → List ℕ → List ℕ
line marker chunk = marker ∷ chunk ++ 13 ∷ 10 ∷ []

unfoldable pub blob : ℕ → List ℕ → List ℕ
blob marker raw = line marker (decimal (length raw)) ++ (raw ++ 13 ∷ 10 ∷ [])

unfoldable mutual
  pub encode : Frame → List ℕ
  encode (simple chunk) = line b'+' chunk
  encode (bulk raw) = blob b'$' raw
  encode (verbatim raw) = blob b'=' (codes "txt:" ++ raw)
  encode null_bulk = line b'$' (codes "-1")
  encode null_array = line b'*' (codes "-1")
  encode nothing = line b'_' []
  encode (number n) = line b':' (show_int n)
  encode (big_number n) = line b'(' (show_int n)
  encode (double chunk f) = line b',' chunk
  encode (boolean b) = line b'#' (if b then codes "t" else codes "f")
  encode (failure chunk e) = line b'-' chunk
  encode (array fs) = line b'*' (decimal (count fs)) ++ encode_all fs
  encode (push fs) = line b'>' (decimal (count fs)) ++ encode_all fs
  encode (set_frame fs) = line b'~' (decimal (count fs)) ++ encode_all fs
  encode (map_frame es) = line b'%' (decimal (count_entries es)) ++ encode_entries es

  pub encode_all : Frames → List ℕ
  encode_all done = []
  encode_all (frame f fs) = encode f ++ encode_all fs

  pub encode_entries : Entries → List ℕ
  encode_entries closed = []
  encode_entries (entry k v es) = encode k ++ (encode v ++ encode_entries es)

unfoldable pub marker_of : Frame → ℕ
marker_of (simple chunk) = b'+'
marker_of (bulk raw) = b'$'
marker_of (verbatim raw) = b'='
marker_of null_bulk = b'$'
marker_of null_array = b'*'
marker_of nothing = b'_'
marker_of (number n) = b':'
marker_of (big_number n) = b'('
marker_of (double chunk f) = b','
marker_of (boolean b) = b'#'
marker_of (failure chunk e) = b'-'
marker_of (array fs) = b'*'
marker_of (push fs) = b'>'
marker_of (set_frame fs) = b'~'
marker_of (map_frame es) = b'%'

module _ (py : Runtime) (decode_bytes : Bool) (encoding : Option (List ℕ)) where
  unfoldable mutual
    unfolding try_decode

    pub value : Frame → Value
    value (simple chunk) = try_decode py decode_bytes encoding chunk
    value (bulk raw) = try_decode py decode_bytes encoding raw
    value (verbatim raw) = try_decode py decode_bytes encoding raw
    value null_bulk = null
    value null_array = null
    value nothing = null
    value (number n) = int n
    value (big_number n) = int n
    value (double chunk f) = float f
    value (boolean b) = bool b
    value (failure chunk e) = e
    value (array fs) = list (values fs)
    value (push fs) = list (values fs)
    value (set_frame fs) = set (elements fs nil)
    value (map_frame es) = dict (items es end)

    pub values : Frames → Values
    values done = nil
    values (frame f fs) = cons (value f) (values fs)

    -- Each element is added to those before it.
    pub elements : Frames → Values → Values
    elements done before = before
    elements (frame f fs) before = elements fs (set_add before (ensure_hashable (value f)))

    -- Each entry is set after those before it.
    pub items : Entries → Pairs → Pairs
    items closed before = before
    items (entry k v es) before = items es (dict_set before (ensure_hashable (value k)) (value v))

  -- A frame that a server can send: a line has no line feed in it, a double is one that `float` reads, and an error is one
  -- that `parse_error` makes the exception of.
  abbrev mutual
    pub IsWellFormed : Frame → Type 0
    IsWellFormed (simple chunk) = OneLine chunk
    IsWellFormed (double chunk f) = OneLine chunk × (py.to_float chunk ≡ some f)
    IsWellFormed (failure chunk e) =
        OneLine chunk × ((py.decode (codes "utf-8") chunk >>= λ text. parse_error text) ≡ some e)
    IsWellFormed (array fs) = AllWellFormed fs
    IsWellFormed (push fs) = AllWellFormed fs
    IsWellFormed (set_frame fs) = AllWellFormed fs
    IsWellFormed (map_frame es) = EntriesWellFormed es
    IsWellFormed _ = Unit

    pub AllWellFormed : Frames → Type 0
    AllWellFormed done = Unit
    AllWellFormed (frame f fs) = IsWellFormed f × AllWellFormed fs

    pub EntriesWellFormed : Entries → Type 0
    EntriesWellFormed closed = Unit
    EntriesWellFormed (entry k v es) = IsWellFormed k × IsWellFormed v × EntriesWellFormed es

  -- Each key of each of its maps is true as Python tests it: not 0, null, false, or empty. Any other key the parser takes for
  -- no key yet.
  abbrev mutual
    pub HasTrueKeys : Frame → Type 0
    HasTrueKeys (array fs) = AllTrueKeys fs
    HasTrueKeys (push fs) = AllTrueKeys fs
    HasTrueKeys (set_frame fs) = AllTrueKeys fs
    HasTrueKeys (map_frame es) = EntriesTrueKeys es
    HasTrueKeys _ = Unit

    pub AllTrueKeys : Frames → Type 0
    AllTrueKeys done = Unit
    AllTrueKeys (frame f fs) = HasTrueKeys f × AllTrueKeys fs

    pub EntriesTrueKeys : Entries → Type 0
    EntriesTrueKeys closed = Unit
    EntriesTrueKeys (entry k v es) =
        HasTrueKeys k
        × (is_truthy (ensure_hashable (value k)) ≡ true)
        × HasTrueKeys v
        × EntriesTrueKeys es

  -- Both of a frame.
  abbrev mutual
    pub IsReadable : Frame → Type 0
    IsReadable (simple chunk) = OneLine chunk
    IsReadable (double chunk f) = OneLine chunk × (py.to_float chunk ≡ some f)
    IsReadable (failure chunk e) =
        OneLine chunk × ((py.decode (codes "utf-8") chunk >>= λ text. parse_error text) ≡ some e)
    IsReadable (array fs) = AllReadable fs
    IsReadable (push fs) = AllReadable fs
    IsReadable (set_frame fs) = AllReadable fs
    IsReadable (map_frame es) = EntriesReadable es
    IsReadable _ = Unit

    pub AllReadable : Frames → Type 0
    AllReadable done = Unit
    AllReadable (frame f fs) = IsReadable f × AllReadable fs

    pub EntriesReadable : Entries → Type 0
    EntriesReadable closed = Unit
    EntriesReadable (entry k v es) =
        IsReadable k
        × (is_truthy (ensure_hashable (value k)) ≡ true)
        × IsReadable v
        × EntriesReadable es

  mutual
    pub both-IsReadable : (f : Frame) → IsWellFormed f → HasTrueKeys f → IsReadable f
    both-IsReadable (simple chunk) w k = w
    both-IsReadable (bulk raw) w k = tt
    both-IsReadable (verbatim raw) w k = tt
    both-IsReadable null_bulk w k = tt
    both-IsReadable null_array w k = tt
    both-IsReadable nothing w k = tt
    both-IsReadable (number n) w k = tt
    both-IsReadable (big_number n) w k = tt
    both-IsReadable (double chunk f) w k = w
    both-IsReadable (boolean b) w k = tt
    both-IsReadable (failure chunk e) w k = w
    both-IsReadable (array fs) w k = both-AllReadable fs w k
    both-IsReadable (push fs) w k = both-AllReadable fs w k
    both-IsReadable (set_frame fs) w k = both-AllReadable fs w k
    both-IsReadable (map_frame es) w k = both-EntriesReadable es w k

    both-AllReadable : (fs : Frames) → AllWellFormed fs → AllTrueKeys fs → AllReadable fs
    both-AllReadable done w k = tt
    both-AllReadable (frame f fs) w k = (both-IsReadable f w.0 k.0, both-AllReadable fs w.1 k.1)

    both-EntriesReadable :
        (es : Entries) → EntriesWellFormed es → EntriesTrueKeys es → EntriesReadable es
    both-EntriesReadable closed w k = tt
    both-EntriesReadable (entry key v es) w k = (
      both-IsReadable key w.0 k.0,
      k.1,
      both-IsReadable v w.1 k.2,
      both-EntriesReadable es w.2 k.3,
    )
