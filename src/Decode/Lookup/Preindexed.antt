-- ===== src/Decode/Lookup/Preindexed.antt =====
-- src/jit/disassembler/lookup_table.rs: the entries of
-- transfers with a register offset applied before, 128 to a chunk.
use advanced_slop.Base.{List, ◌++◌, true, false}
use advanced_slop.Decode.Lines.{line2}
use advanced_slop.Decode.Op.{Op, single, ldr, str, unk_arm}
use advanced_slop.Decode.Handlers.{
  ArmFn, ldr, str, ldrb, strb, inst_undefined, ofrpll, ofrplr, ofrpar, ofrprr, ofrmll, ofrmlr,
  ofrmar, ofrmrr, prrpll, prrplr, prrpar, prrprr, prrmll, prrmlr, prrmar, prrmrr,
}

abbrev pub lookup_chunk14 : List (Op × ArmFn)
lookup_chunk14 =
    line2 (str (single true false false false 2), str ofrmll) (unk_arm, inst_undefined)
    ++ line2 (str (single true false false false 2), str ofrmlr) (unk_arm, inst_undefined)
    ++ line2 (str (single true false false false 2), str ofrmar) (unk_arm, inst_undefined)
    ++ line2 (str (single true false false false 2), str ofrmrr) (unk_arm, inst_undefined)
    ++ line2 (str (single true false false false 2), str ofrmll) (unk_arm, inst_undefined)
    ++ line2 (str (single true false false false 2), str ofrmlr) (unk_arm, inst_undefined)
    ++ line2 (str (single true false false false 2), str ofrmar) (unk_arm, inst_undefined)
    ++ line2 (str (single true false false false 2), str ofrmrr) (unk_arm, inst_undefined)
    ++ line2 (ldr (single true false false false 2), ldr ofrmll) (unk_arm, inst_undefined)
    ++ line2 (ldr (single true false false false 2), ldr ofrmlr) (unk_arm, inst_undefined)
    ++ line2 (ldr (single true false false false 2), ldr ofrmar) (unk_arm, inst_undefined)
    ++ line2 (ldr (single true false false false 2), ldr ofrmrr) (unk_arm, inst_undefined)
    ++ line2 (ldr (single true false false false 2), ldr ofrmll) (unk_arm, inst_undefined)
    ++ line2 (ldr (single true false false false 2), ldr ofrmlr) (unk_arm, inst_undefined)
    ++ line2 (ldr (single true false false false 2), ldr ofrmar) (unk_arm, inst_undefined)
    ++ line2 (ldr (single true false false false 2), ldr ofrmrr) (unk_arm, inst_undefined)
    ++ line2 (str (single true true false false 2), str prrmll) (unk_arm, inst_undefined)
    ++ line2 (str (single true true false false 2), str prrmlr) (unk_arm, inst_undefined)
    ++ line2 (str (single true true false false 2), str prrmar) (unk_arm, inst_undefined)
    ++ line2 (str (single true true false false 2), str prrmrr) (unk_arm, inst_undefined)
    ++ line2 (str (single true true false false 2), str prrmll) (unk_arm, inst_undefined)
    ++ line2 (str (single true true false false 2), str prrmlr) (unk_arm, inst_undefined)
    ++ line2 (str (single true true false false 2), str prrmar) (unk_arm, inst_undefined)
    ++ line2 (str (single true true false false 2), str prrmrr) (unk_arm, inst_undefined)
    ++ line2 (ldr (single true true false false 2), ldr prrmll) (unk_arm, inst_undefined)
    ++ line2 (ldr (single true true false false 2), ldr prrmlr) (unk_arm, inst_undefined)
    ++ line2 (ldr (single true true false false 2), ldr prrmar) (unk_arm, inst_undefined)
    ++ line2 (ldr (single true true false false 2), ldr prrmrr) (unk_arm, inst_undefined)
    ++ line2 (ldr (single true true false false 2), ldr prrmll) (unk_arm, inst_undefined)
    ++ line2 (ldr (single true true false false 2), ldr prrmlr) (unk_arm, inst_undefined)
    ++ line2 (ldr (single true true false false 2), ldr prrmar) (unk_arm, inst_undefined)
    ++ line2 (ldr (single true true false false 2), ldr prrmrr) (unk_arm, inst_undefined)
    ++ line2 (str (single true false false false 0), strb ofrmll) (unk_arm, inst_undefined)
    ++ line2 (str (single true false false false 0), strb ofrmlr) (unk_arm, inst_undefined)
    ++ line2 (str (single true false false false 0), strb ofrmar) (unk_arm, inst_undefined)
    ++ line2 (str (single true false false false 0), strb ofrmrr) (unk_arm, inst_undefined)
    ++ line2 (str (single true false false false 0), strb ofrmll) (unk_arm, inst_undefined)
    ++ line2 (str (single true false false false 0), strb ofrmlr) (unk_arm, inst_undefined)
    ++ line2 (str (single true false false false 0), strb ofrmar) (unk_arm, inst_undefined)
    ++ line2 (str (single true false false false 0), strb ofrmrr) (unk_arm, inst_undefined)
    ++ line2 (ldr (single true false false false 0), ldrb ofrmll) (unk_arm, inst_undefined)
    ++ line2 (ldr (single true false false false 0), ldrb ofrmlr) (unk_arm, inst_undefined)
    ++ line2 (ldr (single true false false false 0), ldrb ofrmar) (unk_arm, inst_undefined)
    ++ line2 (ldr (single true false false false 0), ldrb ofrmrr) (unk_arm, inst_undefined)
    ++ line2 (ldr (single true false false false 0), ldrb ofrmll) (unk_arm, inst_undefined)
    ++ line2 (ldr (single true false false false 0), ldrb ofrmlr) (unk_arm, inst_undefined)
    ++ line2 (ldr (single true false false false 0), ldrb ofrmar) (unk_arm, inst_undefined)
    ++ line2 (ldr (single true false false false 0), ldrb ofrmrr) (unk_arm, inst_undefined)
    ++ line2 (str (single true true false false 0), strb prrmll) (unk_arm, inst_undefined)
    ++ line2 (str (single true true false false 0), strb prrmlr) (unk_arm, inst_undefined)
    ++ line2 (str (single true true false false 0), strb prrmar) (unk_arm, inst_undefined)
    ++ line2 (str (single true true false false 0), strb prrmrr) (unk_arm, inst_undefined)
    ++ line2 (str (single true true false false 0), strb prrmll) (unk_arm, inst_undefined)
    ++ line2 (str (single true true false false 0), strb prrmlr) (unk_arm, inst_undefined)
    ++ line2 (str (single true true false false 0), strb prrmar) (unk_arm, inst_undefined)
    ++ line2 (str (single true true false false 0), strb prrmrr) (unk_arm, inst_undefined)
    ++ line2 (ldr (single true true false false 0), ldrb prrmll) (unk_arm, inst_undefined)
    ++ line2 (ldr (single true true false false 0), ldrb prrmlr) (unk_arm, inst_undefined)
    ++ line2 (ldr (single true true false false 0), ldrb prrmar) (unk_arm, inst_undefined)
    ++ line2 (ldr (single true true false false 0), ldrb prrmrr) (unk_arm, inst_undefined)
    ++ line2 (ldr (single true true false false 0), ldrb prrmll) (unk_arm, inst_undefined)
    ++ line2 (ldr (single true true false false 0), ldrb prrmlr) (unk_arm, inst_undefined)
    ++ line2 (ldr (single true true false false 0), ldrb prrmar) (unk_arm, inst_undefined)
    ++ line2 (ldr (single true true false false 0), ldrb prrmrr) (unk_arm, inst_undefined)

abbrev pub lookup_chunk15 : List (Op × ArmFn)
lookup_chunk15 =
    line2 (str (single true false true false 2), str ofrpll) (unk_arm, inst_undefined)
    ++ line2 (str (single true false true false 2), str ofrplr) (unk_arm, inst_undefined)
    ++ line2 (str (single true false true false 2), str ofrpar) (unk_arm, inst_undefined)
    ++ line2 (str (single true false true false 2), str ofrprr) (unk_arm, inst_undefined)
    ++ line2 (str (single true false true false 2), str ofrpll) (unk_arm, inst_undefined)
    ++ line2 (str (single true false true false 2), str ofrplr) (unk_arm, inst_undefined)
    ++ line2 (str (single true false true false 2), str ofrpar) (unk_arm, inst_undefined)
    ++ line2 (str (single true false true false 2), str ofrprr) (unk_arm, inst_undefined)
    ++ line2 (ldr (single true false true false 2), ldr ofrpll) (unk_arm, inst_undefined)
    ++ line2 (ldr (single true false true false 2), ldr ofrplr) (unk_arm, inst_undefined)
    ++ line2 (ldr (single true false true false 2), ldr ofrpar) (unk_arm, inst_undefined)
    ++ line2 (ldr (single true false true false 2), ldr ofrprr) (unk_arm, inst_undefined)
    ++ line2 (ldr (single true false true false 2), ldr ofrpll) (unk_arm, inst_undefined)
    ++ line2 (ldr (single true false true false 2), ldr ofrplr) (unk_arm, inst_undefined)
    ++ line2 (ldr (single true false true false 2), ldr ofrpar) (unk_arm, inst_undefined)
    ++ line2 (ldr (single true false true false 2), ldr ofrprr) (unk_arm, inst_undefined)
    ++ line2 (str (single true true true false 2), str prrpll) (unk_arm, inst_undefined)
    ++ line2 (str (single true true true false 2), str prrplr) (unk_arm, inst_undefined)
    ++ line2 (str (single true true true false 2), str prrpar) (unk_arm, inst_undefined)
    ++ line2 (str (single true true true false 2), str prrprr) (unk_arm, inst_undefined)
    ++ line2 (str (single true true true false 2), str prrpll) (unk_arm, inst_undefined)
    ++ line2 (str (single true true true false 2), str prrplr) (unk_arm, inst_undefined)
    ++ line2 (str (single true true true false 2), str prrpar) (unk_arm, inst_undefined)
    ++ line2 (str (single true true true false 2), str prrprr) (unk_arm, inst_undefined)
    ++ line2 (ldr (single true true true false 2), ldr prrpll) (unk_arm, inst_undefined)
    ++ line2 (ldr (single true true true false 2), ldr prrplr) (unk_arm, inst_undefined)
    ++ line2 (ldr (single true true true false 2), ldr prrpar) (unk_arm, inst_undefined)
    ++ line2 (ldr (single true true true false 2), ldr prrprr) (unk_arm, inst_undefined)
    ++ line2 (ldr (single true true true false 2), ldr prrpll) (unk_arm, inst_undefined)
    ++ line2 (ldr (single true true true false 2), ldr prrplr) (unk_arm, inst_undefined)
    ++ line2 (ldr (single true true true false 2), ldr prrpar) (unk_arm, inst_undefined)
    ++ line2 (ldr (single true true true false 2), ldr prrprr) (unk_arm, inst_undefined)
    ++ line2 (str (single true false true false 0), strb ofrpll) (unk_arm, inst_undefined)
    ++ line2 (str (single true false true false 0), strb ofrplr) (unk_arm, inst_undefined)
    ++ line2 (str (single true false true false 0), strb ofrpar) (unk_arm, inst_undefined)
    ++ line2 (str (single true false true false 0), strb ofrprr) (unk_arm, inst_undefined)
    ++ line2 (str (single true false true false 0), strb ofrpll) (unk_arm, inst_undefined)
    ++ line2 (str (single true false true false 0), strb ofrplr) (unk_arm, inst_undefined)
    ++ line2 (str (single true false true false 0), strb ofrpar) (unk_arm, inst_undefined)
    ++ line2 (str (single true false true false 0), strb ofrprr) (unk_arm, inst_undefined)
    ++ line2 (ldr (single true false true false 0), ldrb ofrpll) (unk_arm, inst_undefined)
    ++ line2 (ldr (single true false true false 0), ldrb ofrplr) (unk_arm, inst_undefined)
    ++ line2 (ldr (single true false true false 0), ldrb ofrpar) (unk_arm, inst_undefined)
    ++ line2 (ldr (single true false true false 0), ldrb ofrprr) (unk_arm, inst_undefined)
    ++ line2 (ldr (single true false true false 0), ldrb ofrpll) (unk_arm, inst_undefined)
    ++ line2 (ldr (single true false true false 0), ldrb ofrplr) (unk_arm, inst_undefined)
    ++ line2 (ldr (single true false true false 0), ldrb ofrpar) (unk_arm, inst_undefined)
    ++ line2 (ldr (single true false true false 0), ldrb ofrprr) (unk_arm, inst_undefined)
    ++ line2 (str (single true true true false 0), strb prrpll) (unk_arm, inst_undefined)
    ++ line2 (str (single true true true false 0), strb prrplr) (unk_arm, inst_undefined)
    ++ line2 (str (single true true true false 0), strb prrpar) (unk_arm, inst_undefined)
    ++ line2 (str (single true true true false 0), strb prrprr) (unk_arm, inst_undefined)
    ++ line2 (str (single true true true false 0), strb prrpll) (unk_arm, inst_undefined)
    ++ line2 (str (single true true true false 0), strb prrplr) (unk_arm, inst_undefined)
    ++ line2 (str (single true true true false 0), strb prrpar) (unk_arm, inst_undefined)
    ++ line2 (str (single true true true false 0), strb prrprr) (unk_arm, inst_undefined)
    ++ line2 (ldr (single true true true false 0), ldrb prrpll) (unk_arm, inst_undefined)
    ++ line2 (ldr (single true true true false 0), ldrb prrplr) (unk_arm, inst_undefined)
    ++ line2 (ldr (single true true true false 0), ldrb prrpar) (unk_arm, inst_undefined)
    ++ line2 (ldr (single true true true false 0), ldrb prrprr) (unk_arm, inst_undefined)
    ++ line2 (ldr (single true true true false 0), ldrb prrpll) (unk_arm, inst_undefined)
    ++ line2 (ldr (single true true true false 0), ldrb prrplr) (unk_arm, inst_undefined)
    ++ line2 (ldr (single true true true false 0), ldrb prrpar) (unk_arm, inst_undefined)
    ++ line2 (ldr (single true true true false 0), ldrb prrprr) (unk_arm, inst_undefined)
