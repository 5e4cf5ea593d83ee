-- ===== src/KeySpec/Extract.antt =====
-- `KeySpec.extract_keys` of coredis/commands/_key_spec.py.
use coredis.Prelude.{
  ℕ, Bool, true, false, Option, none, some, List, [], ◌∷◌, ◌≡◌, refl, if◌then◌else◌, Bool-cases,
  inl, inr, ◌<◌, ap, length, arith,
}
use coredis.Resp.Value.{same_codes}
use coredis.Resp.Packer.{Argument, raw}
use coredis.KeySpec.Spec.{Spec, Extraction, extracted, eval}
use coredis.KeySpec.Readonly.{readonly}
use coredis.KeySpec.All.{all_keys}

unfoldable pub find_spec : List ℕ → List (List ℕ × Spec) → Option Spec
unfolding same_codes
find_spec name [] = none
find_spec name ((key, spec) ∷ table) =
    let later = find_spec name table in if same_codes key name then some spec else later

-- A KeyError gives no keys.
unfoldable pub apply_spec : Option Spec → List Argument → Extraction (List Argument)
apply_spec none args = extracted []
apply_spec (some spec) args = eval spec args

unfoldable pub choose_spec : Option Spec → Bool → Option Spec → Option Spec
choose_spec (some spec) true other = some spec
choose_spec _ _ other = other

-- `b(arguments[0])`; `encode_name` is what it makes of a name that is not bytes.
module _ (encode_name : Argument → List ℕ) where
  unfoldable pub command_name : Argument → List ℕ
  command_name (raw bytes) = bytes
  command_name a = encode_name a

  unfoldable pub extract_keys : List Argument → Bool → Extraction (List Argument)
  extract_keys [] readonly_command = extracted []
  extract_keys (name ∷ []) readonly_command = extracted []
  extract_keys (name ∷ arg ∷ args) readonly_command =
      apply_spec
        (choose_spec (find_spec (command_name name) readonly) readonly_command
          (find_spec (command_name name) all_keys))
        (name ∷ arg ∷ args)

-- A test that every entry of a table passes, and so the one that is found.
unfoldable pub every_entry : (List ℕ × Spec → Bool) → List (List ℕ × Spec) → Bool
every_entry test [] = true
every_entry test (entry ∷ table) =
    let later = every_entry test table in if test entry then later else false

pub found_entry :
    (test : List ℕ × Spec → Bool) (name : List ℕ) (spec : Spec) (table : List (List ℕ × Spec))
    → every_entry test table ≡ true
    → find_spec name table ≡ some spec
    → (key : List ℕ) × (test (key, spec) ≡ true) × (same_codes key name ≡ true)
unfolding every_entry find_spec
found_entry test name spec [] h f = cc
found_entry test name spec ((key, s) ∷ table) h f = elim (Bool-cases (test (key, s))) [
  | inr no_pass ↦ let never : false ≡ true = rw no_pass at h in cc
  | inl pass ↦ elim (Bool-cases (same_codes key name)) [
    | inl e ↦
        let same : some s ≡ some spec = rw e at f in
        let as_spec : s ≡ spec = cc in (key, rw (← as_spec) pass, e)
    | inr e ↦ found_entry test name spec table (rw pass at h) (rw e at f)
  ]
]

choose_all : (found other : Option Spec) → choose_spec found false other ≡ other
unfolding choose_spec
choose_all none other = refl
choose_all (some s) other = refl

module _ (encode_name : Argument → List ℕ) where
  -- A command that is not read only goes by the table of all commands.
  pub extract_keys_all :
      (name : Argument) (args : List Argument)
      → 0 < length args
      → extract_keys encode_name (name ∷ args) false
        ≡ apply_spec (find_spec (command_name encode_name name) all_keys) (name ∷ args)
  unfolding extract_keys
  extract_keys_all name [] h = absurd (omega arith)
  extract_keys_all name (arg ∷ args) h =
      ap (λ spec. apply_spec spec (name ∷ arg ∷ args))
        (choose_all (find_spec (command_name encode_name name) readonly) _)
