-- ===== src/Connection/Replies.antt =====
-- That `data_received` of coredis/connection.py gives each request the reply to it.
use coredis.Prelude.{ℕ, ◌+◌, ◌≡◌, false, List, [], ◌∷◌, ◌++◌, ◌==◌, length}
use coredis.Resp.Parser.{Parser, Runtime}
use coredis.Resp.Frame.{Frame, encode, marker_of, value, IsWellFormed, HasTrueKeys}
use coredis.Resp.RoundTrip.{Between}
use coredis.Connection.{Request, Connection, Settled, settle, outcome_of}

module _ (py : Runtime) where
  -- A request and the frame that answers it: well formed as the request reads it, and no push message.
  abbrev pub Answer : Type 0
  Answer = Request × Frame

  abbrev pub IsAnswer : Answer → Type 0
  IsAnswer (r, f) = IsWellFormed py r.decode r.encoding f × ((marker_of f == b'>') ≡ false)

  abbrev pub AllAnswers : List Answer → Type 0
  AllAnswers [] = Unit
  AllAnswers (a ∷ more) = IsAnswer a × AllAnswers more

  -- The keys of the maps are true in every reply, as its request reads them.
  abbrev pub AllTrueKeys : List Answer → Type 0
  AllTrueKeys [] = Unit
  AllTrueKeys ((r, f) ∷ more) = HasTrueKeys py r.decode r.encoding f × AllTrueKeys more

-- What a server sends for them, and the requests.
unfoldable pub encode_answers : List (Request × Frame) → List ℕ
encode_answers [] = []
encode_answers ((r, f) ∷ more) = encode f ++ encode_answers more

unfoldable pub requests_of : List (Request × Frame) → List Request
requests_of [] = []
requests_of ((r, f) ∷ more) = r ∷ requests_of more

module _ (py : Runtime) where
  -- Each future that is not done yet gets the value of its frame, more a result or more an exception.
  unfoldable pub settle_answers : List (Request × Frame) → List (ℕ × Settled) → List (ℕ × Settled)
  settle_answers [] futures = futures
  settle_answers ((r, f) ∷ more) futures =
      settle_answers more (settle r.future (outcome_of r (value py r.decode r.encoding f)) futures)

module _ (py : Runtime) where
  -- The loop where all the replies are there: it ends before the requests that have none.
  abbrev Answered : List (Request × Frame) → List Request → Connection → Connection → Type 0
  Answered more later c d =
      (d.requests ≡ later)
      × Between d.parser []
      × (d.futures ≡ settle_answers py more c.futures)
      × (d.requests_processed ≡ c.requests_processed + length more)
