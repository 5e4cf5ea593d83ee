-- ===== src/Resp/InStep.antt =====
-- Whether the position of the buffer is the parser's `bytes_read` in the passes of a call of `parse`. A bulk length below -2
-- takes the whole buffer and moves `bytes_read` back.
use coredis.Prelude.{ℕ, zero, suc, Bool, true, ◌&&◌, Option, List, ◌==◌, length}
use coredis.Resp.Parser.{Parser, Runtime, Step, waits, continues, breaks, raises, pass}

unfoldable pub in_step : Parser → Bool
in_step p = p.localbuffer.position == p.bytes_read && p.below_zero == 0

-- A pass that waits leaves the position behind what it has looked at.
unfoldable pub in_steps : Step → Bool
unfolding in_step
in_steps (waits p) = true
in_steps (continues p) = in_step p
in_steps (breaks m v p) = in_step p
in_steps (raises e p) = in_step p

-- The same of the rest of the loop.
unfoldable pub in_step_after : (Parser → Bool) → Step → Bool
in_step_after again (continues p) = again p
in_step_after again _ = true

module _ (py : Runtime) (decode_bytes : Bool) (encoding : Option (List ℕ)) where
  unfoldable pub in_step_loop : ℕ → Parser → Bool
  unfolding in_steps in_step_after
  in_step_loop zero p = true
  in_step_loop (suc fuel) p =
      in_steps (pass py decode_bytes encoding p)
      && in_step_after (in_step_loop fuel) (pass py decode_bytes encoding p)

  -- Every pass of a call of `parse`.
  unfoldable pub stays_in_step : Parser → Bool
  unfolding in_step_loop
  stays_in_step p = in_step_loop (suc (length p.localbuffer.contents)) p
