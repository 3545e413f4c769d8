-- ===== src/Decode/Lookup/Postindexed.antt =====
-- src/jit/disassembler/lookup_table.rs: the entries of
-- transfers with a register offset applied afterwards, 128 to a chunk.
use advanced_slop.Base.{List, ◌++◌, true, false, replicate}
use advanced_slop.Decode.Lines.{line2}
use advanced_slop.Decode.Op.{Op, single, ldr, str, unk_arm}
use advanced_slop.Decode.Handlers.{
  ArmFn, ldr, str, ldrb, strb, inst_undefined, ptrpll, ptrplr, ptrpar, ptrprr, ptrmll, ptrmlr,
  ptrmar, ptrmrr,
}

abbrev pub lookup_chunk12 : List (Op × ArmFn)
lookup_chunk12 =
    line2 (str (single false true false false 2), str ptrmll) (unk_arm, inst_undefined)
    ++ line2 (str (single false true false false 2), str ptrmlr) (unk_arm, inst_undefined)
    ++ line2 (str (single false true false false 2), str ptrmar) (unk_arm, inst_undefined)
    ++ line2 (str (single false true false false 2), str ptrmrr) (unk_arm, inst_undefined)
    ++ line2 (str (single false true false false 2), str ptrmll) (unk_arm, inst_undefined)
    ++ line2 (str (single false true false false 2), str ptrmlr) (unk_arm, inst_undefined)
    ++ line2 (str (single false true false false 2), str ptrmar) (unk_arm, inst_undefined)
    ++ line2 (str (single false true false false 2), str ptrmrr) (unk_arm, inst_undefined)
    ++ line2 (ldr (single false true false false 2), ldr ptrmll) (unk_arm, inst_undefined)
    ++ line2 (ldr (single false true false false 2), ldr ptrmlr) (unk_arm, inst_undefined)
    ++ line2 (ldr (single false true false false 2), ldr ptrmar) (unk_arm, inst_undefined)
    ++ line2 (ldr (single false true false false 2), ldr ptrmrr) (unk_arm, inst_undefined)
    ++ line2 (ldr (single false true false false 2), ldr ptrmll) (unk_arm, inst_undefined)
    ++ line2 (ldr (single false true false false 2), ldr ptrmlr) (unk_arm, inst_undefined)
    ++ line2 (ldr (single false true false false 2), ldr ptrmar) (unk_arm, inst_undefined)
    ++ line2 (ldr (single false true false false 2), ldr ptrmrr) (unk_arm, inst_undefined)
    ++ replicate 32 (unk_arm, inst_undefined)
    ++ line2 (str (single false true false false 0), strb ptrmll) (unk_arm, inst_undefined)
    ++ line2 (str (single false true false false 0), strb ptrmlr) (unk_arm, inst_undefined)
    ++ line2 (str (single false true false false 0), strb ptrmar) (unk_arm, inst_undefined)
    ++ line2 (str (single false true false false 0), strb ptrmrr) (unk_arm, inst_undefined)
    ++ line2 (str (single false true false false 0), strb ptrmll) (unk_arm, inst_undefined)
    ++ line2 (str (single false true false false 0), strb ptrmlr) (unk_arm, inst_undefined)
    ++ line2 (str (single false true false false 0), strb ptrmar) (unk_arm, inst_undefined)
    ++ line2 (str (single false true false false 0), strb ptrmrr) (unk_arm, inst_undefined)
    ++ line2 (ldr (single false true false false 0), ldrb ptrmll) (unk_arm, inst_undefined)
    ++ line2 (ldr (single false true false false 0), ldrb ptrmlr) (unk_arm, inst_undefined)
    ++ line2 (ldr (single false true false false 0), ldrb ptrmar) (unk_arm, inst_undefined)
    ++ line2 (ldr (single false true false false 0), ldrb ptrmrr) (unk_arm, inst_undefined)
    ++ line2 (ldr (single false true false false 0), ldrb ptrmll) (unk_arm, inst_undefined)
    ++ line2 (ldr (single false true false false 0), ldrb ptrmlr) (unk_arm, inst_undefined)
    ++ line2 (ldr (single false true false false 0), ldrb ptrmar) (unk_arm, inst_undefined)
    ++ line2 (ldr (single false true false false 0), ldrb ptrmrr) (unk_arm, inst_undefined)
    ++ replicate 32 (unk_arm, inst_undefined)

abbrev pub lookup_chunk13 : List (Op × ArmFn)
lookup_chunk13 =
    line2 (str (single false true true false 2), str ptrpll) (unk_arm, inst_undefined)
    ++ line2 (str (single false true true false 2), str ptrplr) (unk_arm, inst_undefined)
    ++ line2 (str (single false true true false 2), str ptrpar) (unk_arm, inst_undefined)
    ++ line2 (str (single false true true false 2), str ptrprr) (unk_arm, inst_undefined)
    ++ line2 (str (single false true true false 2), str ptrpll) (unk_arm, inst_undefined)
    ++ line2 (str (single false true true false 2), str ptrplr) (unk_arm, inst_undefined)
    ++ line2 (str (single false true true false 2), str ptrpar) (unk_arm, inst_undefined)
    ++ line2 (str (single false true true false 2), str ptrprr) (unk_arm, inst_undefined)
    ++ line2 (ldr (single false true true false 2), ldr ptrpll) (unk_arm, inst_undefined)
    ++ line2 (ldr (single false true true false 2), ldr ptrplr) (unk_arm, inst_undefined)
    ++ line2 (ldr (single false true true false 2), ldr ptrpar) (unk_arm, inst_undefined)
    ++ line2 (ldr (single false true true false 2), ldr ptrprr) (unk_arm, inst_undefined)
    ++ line2 (ldr (single false true true false 2), ldr ptrpll) (unk_arm, inst_undefined)
    ++ line2 (ldr (single false true true false 2), ldr ptrplr) (unk_arm, inst_undefined)
    ++ line2 (ldr (single false true true false 2), ldr ptrpar) (unk_arm, inst_undefined)
    ++ line2 (ldr (single false true true false 2), ldr ptrprr) (unk_arm, inst_undefined)
    ++ replicate 32 (unk_arm, inst_undefined)
    ++ line2 (str (single false true true false 0), strb ptrpll) (unk_arm, inst_undefined)
    ++ line2 (str (single false true true false 0), strb ptrplr) (unk_arm, inst_undefined)
    ++ line2 (str (single false true true false 0), strb ptrpar) (unk_arm, inst_undefined)
    ++ line2 (str (single false true true false 0), strb ptrprr) (unk_arm, inst_undefined)
    ++ line2 (str (single false true true false 0), strb ptrpll) (unk_arm, inst_undefined)
    ++ line2 (str (single false true true false 0), strb ptrplr) (unk_arm, inst_undefined)
    ++ line2 (str (single false true true false 0), strb ptrpar) (unk_arm, inst_undefined)
    ++ line2 (str (single false true true false 0), strb ptrprr) (unk_arm, inst_undefined)
    ++ line2 (ldr (single false true true false 0), ldrb ptrpll) (unk_arm, inst_undefined)
    ++ line2 (ldr (single false true true false 0), ldrb ptrplr) (unk_arm, inst_undefined)
    ++ line2 (ldr (single false true true false 0), ldrb ptrpar) (unk_arm, inst_undefined)
    ++ line2 (ldr (single false true true false 0), ldrb ptrprr) (unk_arm, inst_undefined)
    ++ line2 (ldr (single false true true false 0), ldrb ptrpll) (unk_arm, inst_undefined)
    ++ line2 (ldr (single false true true false 0), ldrb ptrplr) (unk_arm, inst_undefined)
    ++ line2 (ldr (single false true true false 0), ldrb ptrpar) (unk_arm, inst_undefined)
    ++ line2 (ldr (single false true true false 0), ldrb ptrprr) (unk_arm, inst_undefined)
    ++ replicate 32 (unk_arm, inst_undefined)
