-- ===== src/Interp/Step/Decoded.antt =====
-- A round of the interpreter runs what the fields of the opcode say.
use advanced_slop.Base.{ℕ, ◌/◌, ◌^◌, ◌<◌, ◌≡◌, ap, true, false, if◌then◌else◌, some}
use advanced_slop.Interp.{Ctx, continue, cpsr}
use advanced_slop.Interp.Condition.{runs}
use advanced_slop.Interp.Run.{run_arm}
use advanced_slop.Interp.Run.Thumb.{run_thumb}
use advanced_slop.Interp.Step.{execute}
use advanced_slop.Bios.{BulkBus}
use advanced_slop.Bios.Calls.{Host}
use advanced_slop.Decode.Fields.{arm_fields}
use advanced_slop.Decode.ThumbFields.{thumb_fields}
use advanced_slop.Decode.Index.{hi_of, lo_of, arm_fn-arm_fields, thumb_tables_agree}

module _ {R : Type 0} (m : BulkBus R) (host : Host) where
  -- For a word, the ARM half runs the handler of the opcode's fields if the condition holds and
  -- else only counts a cycle; for a halfword, the thumb half runs the handler of its fields.
  pub execute_decoded :
      (opcode : ℕ) (ctx : Ctx R)
      → opcode < 2 ^ 16
      → (execute m host true opcode ctx
          ≡ run_thumb m host (thumb_fields (opcode / 2 ^ 6)) opcode ctx)
  unfolding execute
  execute_decoded opcode ctx h =
      ap (λ f. run_thumb m host f opcode ctx) ((thumb_tables_agree opcode h).0)

  pub execute_arm_decoded :
      (opcode : ℕ) (ctx : Ctx R)
      → execute m host false opcode ctx ≡ (
          if runs opcode (cpsr ctx)
          then run_arm m host (arm_fields (hi_of opcode) (lo_of opcode)) opcode ctx
          else some (ctx, continue 1))
  unfolding execute
  execute_arm_decoded opcode ctx =
      ap
        (λ f.
          if runs opcode (cpsr ctx) then run_arm m host f opcode ctx else some (ctx, continue 1))
        ((arm_fn-arm_fields opcode).0)
