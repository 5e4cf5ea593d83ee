-- ===== src/Resp/Buffer.antt =====
-- `io.BytesIO`, as far as coredis/parser.py uses it.
use coredis.Prelude.{
  ℕ, ◌+◌, ◌-◌, List, [], ◌∷◌, ◌++◌, ◌==◌, if◌then◌else◌, length, take, drop, replicate,
}

pub record Buffer : Type 0 where
  pub contents : List ℕ
  pub position : ℕ

abbrev pub empty : Buffer
empty = record { contents = []; position = 0 }

unfoldable pub seek : ℕ → Buffer → Buffer
seek p b = record b { position = p }

-- `truncate()`, at the position
unfoldable pub truncate : Buffer → Buffer
truncate b = record b { contents = take b.position b.contents }

-- `write`: over what stands at the position, with zeros up to a position past the end.
unfoldable pub write : List ℕ → Buffer → Buffer
write bytes b = record {
  contents =
      (take b.position b.contents ++ replicate (b.position - length b.contents) 0)
      ++ bytes
      ++ drop (b.position + length bytes) b.contents;
  position = b.position + length bytes;
}

-- The bytes up to and with the first line feed, or all of them.
unfoldable pub first_line : List ℕ → List ℕ
first_line [] = []
first_line (c ∷ rest) = c ∷ (let more = first_line rest in if c == b'\n' then [] else more)

unfoldable pub readline : Buffer → List ℕ × Buffer
unfolding first_line
readline b =
    let line = first_line (drop b.position b.contents) in
    (line, record b { position = b.position + length line })

-- `read(n)` of a negative n: all the bytes that are there
unfoldable pub read_rest : Buffer → List ℕ × Buffer
read_rest b =
    let piece = drop b.position b.contents in
    (piece, record b { position = b.position + length piece })

-- `read(n)`, of at most the bytes that are there
unfoldable pub read : ℕ → Buffer → List ℕ × Buffer
read n b =
    let piece = take n (drop b.position b.contents) in
    (piece, record b { position = b.position + length piece })
