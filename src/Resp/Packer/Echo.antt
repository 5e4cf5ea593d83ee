-- ===== src/Resp/Packer/Echo.antt =====
-- A packed command, read by the parser.
use coredis.Prelude.{
  ℕ, ◌≡◌, refl, ◌∙◌, false, Option, none, some, List, [], ◌∷◌, ◌++◌, join, Option-cases, inl, inr,
}
use coredis.Resp.Value.{Values, bytes, list, nil, cons}
use coredis.Resp.Frame.{Frames, Frame, array, AllWellFormed, AllTrueKeys, values, value, marker_of}
use coredis.Resp.Frame
use coredis.Resp.Parser.{Parser, Runtime, parse, parsed, try_decode}
use coredis.Resp.RoundTrip.{Between, parse-encode}
use coredis.Resp.Packer.{Argument, Codec, pack_command, cleaned_args}
use coredis.Resp.Packer.Join.{bulks, encode_each, command_bytes, pack_command-join}

-- A list of `bytes` objects.
unfoldable pub byte_strings : List (List ℕ) → Values
byte_strings [] = nil
byte_strings (arg ∷ args) = cons (bytes arg) (byte_strings args)

module _ (py : Runtime) (encoding : Option (List ℕ)) where
  bulks-AllWellFormed : (raws : List (List ℕ)) → AllWellFormed py false encoding (bulks raws)
  unfolding bulks
  bulks-AllWellFormed [] = tt
  bulks-AllWellFormed (arg ∷ args) = (tt, bulks-AllWellFormed args)

  bulks-AllTrueKeys : (raws : List (List ℕ)) → AllTrueKeys py false encoding (bulks raws)
  unfolding bulks
  bulks-AllTrueKeys [] = tt
  bulks-AllTrueKeys (arg ∷ args) = (tt, bulks-AllTrueKeys args)

  undecoded : (raw : List ℕ) (name : Option (List ℕ)) → try_decode py false name raw ≡ bytes raw
  unfolding try_decode
  undecoded raw none = refl
  undecoded raw (some []) = refl
  undecoded raw (some (c ∷ name)) = refl

  values-bulks : (raws : List (List ℕ)) → values py false encoding (bulks raws) ≡ byte_strings raws
  unfolding bulks values byte_strings
  values-bulks [] = refl
  values-bulks (arg ∷ args) = rw (undecoded arg encoding, values-bulks args)

  -- A parser that does not decode gets, of a packed command, the list of its encoded words and
  -- arguments, and takes exactly the packed bytes.
  pub parse-pack_command :
      (codec : Codec) (command : List ℕ) (args : List Argument) (chunks : List (List ℕ))
      (p : Parser) (rest : List ℕ)
      → pack_command codec command args ≡ some chunks
      → Between p (join chunks ++ rest)
      → (raws : List (List ℕ)) × (q : Parser) × (encode_each codec (cleaned_args command args)
          ≡ some raws)
        × (parse py false encoding p
            ≡ parsed (record { response_type = b'*'; response = list (byte_strings raws) }) q)
        × Between q rest
  unfolding command_bytes
  parse-pack_command codec command args chunks p rest packed b =
      let sent : some (join chunks) ≡ command_bytes codec command args =
        rw packed at (pack_command-join codec command args) in
      elim (Option-cases (encode_each codec (cleaned_args command args))) [
        | inl e ↦ let no : some (join chunks) ≡ none = rw e at sent in cc
        | inr (raws, e) ↦
            let frame = array (bulks raws) in
            let said : some (join chunks) ≡ some (Frame.encode frame) = rw e at sent in
            let same : join chunks ≡ Frame.encode frame = cc in
            let (q, read, between, queue) =
              parse-encode py false encoding frame p rest (bulks-AllWellFormed raws)
                (bulks-AllTrueKeys raws) (rw same at b) in
            (raws, q, e, read ∙ (unfold marker_of value in rw (values-bulks raws) refl), between)
      ]
