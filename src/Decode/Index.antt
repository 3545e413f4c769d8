-- ===== src/Decode/Index.antt =====
-- The lookups: `arm_index` of src/jit/interpreter/mod.rs, `lookup_opcode` of
-- src/jit/disassembler/lookup_table.rs and `lookup_thumb_opcode` of
-- src/jit/disassembler/thumb/lookup_table_thumb.rs.
use advanced_slop.Base.{
  ℕ, ◌+◌, ◌*◌, ◌/◌, ◌%◌, ◌^◌, ◌<◌, bit_and, bit_or, ◌≡◌, sym, ap, ap₂, ◌∙◌, arith, get_or,
}
use advanced_slop.Base.Digits.{bit_and-shl, bit_and-low_mask, bit_or-shl}
use advanced_slop.Decode.Op.{Op, unk_arm, unk_thumb}
use advanced_slop.Decode.Handlers.{ArmFn, inst_undefined}
use advanced_slop.Decode.ThumbHandlers.{ThumbFn, inst_undefined_t}
use advanced_slop.Decode.Fields.{arm_fields}
use advanced_slop.Decode.ThumbFields.{thumb_fields, thumb_op_of}
use advanced_slop.Decode.Ops.{op_of}
use advanced_slop.Decode.ArmTable.{arm_table}
use advanced_slop.Decode.ThumbTable.{thumb_table}
use advanced_slop.Decode.Lookup.{lookup_table}
use advanced_slop.Decode.ThumbLookup.{thumb_lookup_table}
use advanced_slop.Decode.Entries.{
  get_or-tabulate_zero, arm_entry, lookup_entry, thumb_entry, arm_table-tabulate,
  lookup_table-tabulate, thumb_table-tabulate, thumb_lookup_table-tabulate,
}

unfoldable pub arm_index : ℕ → ℕ
arm_index opcode = bit_or (bit_and (opcode / 2 ^ 16) 0xff0) (bit_and (opcode / 2 ^ 4) 0xf)

-- `ARM_TABLE[arm_index(opcode)]`
unfoldable pub arm_fn : ℕ → ArmFn
arm_fn opcode = get_or arm_table (arm_index opcode) inst_undefined

unfoldable pub lookup_opcode : ℕ → Op × ArmFn
lookup_opcode opcode =
    get_or lookup_table (bit_or (bit_and (opcode / 2 ^ 16) 0xff0) (bit_and (opcode / 2 ^ 4) 0xf))
      (unk_arm, inst_undefined)

-- `THUMB_TABLE[(opcode >> 6) as usize]`
unfoldable pub thumb_fn : ℕ → ThumbFn
thumb_fn opcode = get_or thumb_table (opcode / 2 ^ 6) inst_undefined_t

unfoldable pub lookup_thumb_opcode : ℕ → Op × ThumbFn
lookup_thumb_opcode opcode =
    get_or thumb_lookup_table (bit_and (opcode / 2 ^ 6) 0x3ff) (unk_thumb, inst_undefined_t)

-- Bits 27 to 20 and bits 7 to 4.
abbrev pub hi_of : ℕ → ℕ
hi_of opcode = opcode / 2 ^ 20 % 2 ^ 8

abbrev pub lo_of : ℕ → ℕ
lo_of opcode = opcode / 2 ^ 4 % 2 ^ 4

bit_and-middle : (x : ℕ) → bit_and x 0xff0 ≡ x / 2 ^ 4 % 2 ^ 8 * 2 ^ 4
bit_and-middle x = bit_and-shl x 0xff 4 ∙ ap (λ (t : ℕ). t * 2 ^ 4) (bit_and-low_mask (x / 2 ^ 4) 8)

arm_index_lem : (opcode : ℕ) → arm_index opcode ≡ hi_of opcode * 2 ^ 4 + lo_of opcode
unfolding arm_index
arm_index_lem opcode =
    ap₂ (λ (s t : ℕ). bit_or s t)
      (bit_and-middle (opcode / 2 ^ 16) ∙ ap (λ (t : ℕ). t % 2 ^ 8 * 2 ^ 4) shifted)
      (bit_and-low_mask (opcode / 2 ^ 4) 4)
    ∙ bit_or-shl 4 (hi_of opcode) (lo_of opcode) (omega arith)
  where
    shifted : opcode / 2 ^ 16 / 2 ^ 4 ≡ opcode / 2 ^ 20
    shifted = omega arith

arm_index-lt : (opcode : ℕ) → arm_index opcode < 4096
arm_index-lt opcode = omega (arith, arm_index_lem opcode)

-- The index has the fields of the opcode.
arm_entry-arm_index :
    (opcode : ℕ) → arm_entry (arm_index opcode) ≡ arm_fields (hi_of opcode) (lo_of opcode)
arm_entry-arm_index opcode = ap₂ (λ (h l : ℕ). arm_fields h l) high low
  where
    high : arm_index opcode / 16 ≡ hi_of opcode
    high = omega (arith, arm_index_lem opcode)

    low : arm_index opcode % 16 ≡ lo_of opcode
    low = omega (arith, arm_index_lem opcode)

-- The interpreter's handler of every ARM opcode is the one that the fields of the opcode give, and
-- the index is within the table.
pub arm_fn-arm_fields :
    (opcode : ℕ)
    → (arm_fn opcode ≡ arm_fields (hi_of opcode) (lo_of opcode)) × (arm_index opcode < 4096)
unfolding arm_fn
arm_fn-arm_fields opcode = (
  ap (λ t. get_or t (arm_index opcode) inst_undefined) arm_table-tabulate
      ∙ get_or-tabulate_zero arm_entry 4096 (arm_index opcode) inst_undefined (arm_index-lt opcode)
      ∙ arm_entry-arm_index opcode,
  arm_index-lt opcode,
)

-- The disassembler looks every ARM opcode up as the handler that the interpreter runs, with the
-- operation that belongs to this handler.
pub lookup_opcode-arm_fn :
    (opcode : ℕ) → lookup_opcode opcode ≡ (op_of (arm_fn opcode), arm_fn opcode)
unfolding lookup_opcode arm_index
lookup_opcode-arm_fn opcode =
    ap (λ t. get_or t (arm_index opcode) (unk_arm, inst_undefined)) lookup_table-tabulate
    ∙ get_or-tabulate_zero lookup_entry 4096 (arm_index opcode) (unk_arm, inst_undefined)
        (arm_index-lt opcode)
    ∙ ap (λ f. (op_of f, f)) (arm_entry-arm_index opcode ∙ sym ((arm_fn-arm_fields opcode).0))

-- For a halfword, the interpreter's thumb handler is the one that bits 15 to 6 give, and the
-- disassembler looks up this handler and its operation.
pub thumb_tables_agree :
    (opcode : ℕ)
    → opcode < 2 ^ 16
    → (thumb_fn opcode ≡ thumb_fields (opcode / 2 ^ 6))
      × (lookup_thumb_opcode opcode ≡ (thumb_op_of (thumb_fn opcode), thumb_fn opcode))
unfolding thumb_fn lookup_thumb_opcode
thumb_tables_agree opcode h = (fn, looked ∙ ap (λ f. (thumb_op_of f, f)) (sym fn))
  where
    fn : get_or thumb_table (opcode / 2 ^ 6) inst_undefined_t ≡ thumb_fields (opcode / 2 ^ 6)
    fn =
        ap (λ t. get_or t (opcode / 2 ^ 6) inst_undefined_t) thumb_table-tabulate
        ∙ get_or-tabulate_zero thumb_fields 1024 (opcode / 2 ^ 6) inst_undefined_t (omega arith)

    masked : bit_and (opcode / 2 ^ 6) 0x3ff ≡ opcode / 2 ^ 6
    masked = omega (arith, bit_and-low_mask (opcode / 2 ^ 6) 10)

    looked :
        get_or thumb_lookup_table (bit_and (opcode / 2 ^ 6) 0x3ff) (unk_thumb, inst_undefined_t)
        ≡ (thumb_op_of (thumb_fields (opcode / 2 ^ 6)), thumb_fields (opcode / 2 ^ 6))
    looked =
        ap (λ t. get_or thumb_lookup_table t (unk_thumb, inst_undefined_t)) masked
        ∙ ap (λ t. get_or t (opcode / 2 ^ 6) (unk_thumb, inst_undefined_t))
            thumb_lookup_table-tabulate
        ∙ get_or-tabulate_zero thumb_entry 1024 (opcode / 2 ^ 6) (unk_thumb, inst_undefined_t)
            (omega arith)
