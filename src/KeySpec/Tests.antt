-- ===== src/KeySpec/Tests.antt =====
-- `extract_keys` at some commands.
use coredis.Prelude.{ℕ, ◌≡◌, refl, true, false, some, List, [], ◌∷◌, ◌++◌}
use coredis.Resp.Errors.{codes}
use coredis.Resp.Packer.{Argument, raw}
use coredis.KeySpec.Slices.{Within}
use coredis.KeySpec.Spec.{
  extracted, range, counted, is_keyword, eval, item, resolve, failed, index_error,
}
use coredis.KeySpec.Readonly.{readonly}
use coredis.KeySpec.All.{all_keys, all_keys_second, all_keys_third}
use coredis.KeySpec.Extract.{extract_keys, find_spec, choose_spec, command_name, apply_spec}
use coredis.KeySpec.Within.{extract_keys-Within}
use coredis.KeySpec.Agree.{readonly-Within}
use coredis.KeySpec.Counted.{extract_keys_streams}

abbrev no_name : Argument → List ℕ
no_name a = []

abbrev a : Argument
a = raw (codes "a")

abbrev b : Argument
b = raw (codes "b")

abbrev copy : Argument
copy = raw (codes "COPY")

copy_keys : extract_keys no_name (copy ∷ a ∷ b ∷ []) false ≡ extracted (a ∷ b ∷ [])
unfolding extract_keys find_spec readonly all_keys all_keys_second all_keys_third choose_spec
    command_name apply_spec eval item resolve
copy_keys = refl

copy_reads : extract_keys no_name (copy ∷ a ∷ b ∷ []) true ≡ extracted (a ∷ [])
unfolding extract_keys find_spec readonly all_keys all_keys_second all_keys_third choose_spec
    command_name apply_spec eval item resolve
copy_reads = refl

-- Only a KeyError is caught.
copy_short : extract_keys no_name (copy ∷ a ∷ []) false ≡ failed index_error
unfolding extract_keys find_spec readonly all_keys all_keys_second all_keys_third choose_spec
    command_name apply_spec eval item resolve
copy_short = refl

extract_keys-Within_example : Within (a ∷ b ∷ []) (a ∷ b ∷ [])
extract_keys-Within_example =
    extract_keys-Within no_name copy (a ∷ b ∷ []) (a ∷ b ∷ []) false copy_keys

readonly-Within_example : Within (a ∷ []) (a ∷ b ∷ [])
readonly-Within_example =
    readonly-Within no_name (copy ∷ a ∷ b ∷ []) (a ∷ []) (a ∷ b ∷ []) copy_reads copy_keys

abbrev script : Argument
script = raw (codes "EVAL")

eval_entry : find_spec (command_name no_name script) all_keys ≡ some (range 3 (counted 2))
unfolding find_spec all_keys all_keys_second all_keys_third command_name
eval_entry = refl

abbrev word : Argument
word = raw (codes "STREAMS")

extract_keys_streams_example :
    (extract_keys no_name
        (raw (codes "XREAD") ∷ ((copy ∷ []) ++ word ∷ ((a ∷ b ∷ []) ++ (a ∷ a ∷ []))))
        false
      ≡ extracted (a ∷ b ∷ []))
    × (extract_keys no_name
          (raw (codes "XREADGROUP")
            ∷ copy
            ∷ a
            ∷ b
            ∷ ((copy ∷ []) ++ word ∷ ((a ∷ b ∷ []) ++ (a ∷ a ∷ []))))
          false
        ≡ extracted (a ∷ b ∷ []))
unfolding is_keyword
extract_keys_streams_example =
    extract_keys_streams no_name copy a b (copy ∷ []) word (a ∷ b ∷ []) (a ∷ a ∷ []) refl (refl, tt)
      refl
