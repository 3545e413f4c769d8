-- ===== src/Decode/Lookup/Immediates.antt =====
-- src/jit/disassembler/lookup_table.rs: the entries of
-- data processing with an immediate and transfers with one, 128 to a chunk.
use advanced_slop.Base.{List, ◌++◌, true, false, replicate}
use advanced_slop.Decode.Op.{
  Op, single, adc, adcs, add, adds, and, ands, bic, bics, cmn, cmp, eor, eors, ldr, mov, movs,
  msr_ic, msr_is, mvn, mvns, orr, orrs, rsb, rsbs, rsc, rscs, sbc, sbcs, str, sub, subs, teq, tst,
  unk_arm,
}
use advanced_slop.Decode.Handlers.{
  ArmFn, and, ands, eor, eors, sub, subs, rsb, rsbs, add, adds, adc, adcs, sbc, sbcs, rsc, rscs,
  tst, teq, cmp, cmn, orr, orrs, mov, movs, bic, bics, mvn, mvns, ldr, str, ldrb, strb, msr_ic,
  msr_is, inst_undefined, ofip, ofim, prip, prim, ptip, ptim,
}
use advanced_slop.Interp.Shifter.{imm}

abbrev pub lookup_chunk4 : List (Op × ArmFn)
lookup_chunk4 =
    replicate 16 (and, and imm)
    ++ replicate 16 (ands, ands imm)
    ++ replicate 16 (eor, eor imm)
    ++ replicate 16 (eors, eors imm)
    ++ replicate 16 (sub, sub imm)
    ++ replicate 16 (subs, subs imm)
    ++ replicate 16 (rsb, rsb imm)
    ++ replicate 16 (rsbs, rsbs imm)

abbrev pub lookup_chunk5 : List (Op × ArmFn)
lookup_chunk5 =
    replicate 16 (add, add imm)
    ++ replicate 16 (adds, adds imm)
    ++ replicate 16 (adc, adc imm)
    ++ replicate 16 (adcs, adcs imm)
    ++ replicate 16 (sbc, sbc imm)
    ++ replicate 16 (sbcs, sbcs imm)
    ++ replicate 16 (rsc, rsc imm)
    ++ replicate 16 (rscs, rscs imm)

abbrev pub lookup_chunk6 : List (Op × ArmFn)
lookup_chunk6 =
    replicate 16 (unk_arm, inst_undefined)
    ++ replicate 16 (tst, tst imm)
    ++ replicate 16 (msr_ic, msr_ic)
    ++ replicate 16 (teq, teq imm)
    ++ replicate 16 (unk_arm, inst_undefined)
    ++ replicate 16 (cmp, cmp imm)
    ++ replicate 16 (msr_is, msr_is)
    ++ replicate 16 (cmn, cmn imm)

abbrev pub lookup_chunk7 : List (Op × ArmFn)
lookup_chunk7 =
    replicate 16 (orr, orr imm)
    ++ replicate 16 (orrs, orrs imm)
    ++ replicate 16 (mov, mov imm)
    ++ replicate 16 (movs, movs imm)
    ++ replicate 16 (bic, bic imm)
    ++ replicate 16 (bics, bics imm)
    ++ replicate 16 (mvn, mvn imm)
    ++ replicate 16 (mvns, mvns imm)

abbrev pub lookup_chunk8 : List (Op × ArmFn)
lookup_chunk8 =
    replicate 16 (str (single false true false false 2), str ptim)
    ++ replicate 16 (ldr (single false true false false 2), ldr ptim)
    ++ replicate 32 (unk_arm, inst_undefined)
    ++ replicate 16 (str (single false true false false 0), strb ptim)
    ++ replicate 16 (ldr (single false true false false 0), ldrb ptim)
    ++ replicate 32 (unk_arm, inst_undefined)

abbrev pub lookup_chunk9 : List (Op × ArmFn)
lookup_chunk9 =
    replicate 16 (str (single false true true false 2), str ptip)
    ++ replicate 16 (ldr (single false true true false 2), ldr ptip)
    ++ replicate 32 (unk_arm, inst_undefined)
    ++ replicate 16 (str (single false true true false 0), strb ptip)
    ++ replicate 16 (ldr (single false true true false 0), ldrb ptip)
    ++ replicate 32 (unk_arm, inst_undefined)

abbrev pub lookup_chunk10 : List (Op × ArmFn)
lookup_chunk10 =
    replicate 16 (str (single true false false false 2), str ofim)
    ++ replicate 16 (ldr (single true false false false 2), ldr ofim)
    ++ replicate 16 (str (single true true false false 2), str prim)
    ++ replicate 16 (ldr (single true true false false 2), ldr prim)
    ++ replicate 16 (str (single true false false false 0), strb ofim)
    ++ replicate 16 (ldr (single true false false false 0), ldrb ofim)
    ++ replicate 16 (str (single true true false false 0), strb prim)
    ++ replicate 16 (ldr (single true true false false 0), ldrb prim)

abbrev pub lookup_chunk11 : List (Op × ArmFn)
lookup_chunk11 =
    replicate 16 (str (single true false true false 2), str ofip)
    ++ replicate 16 (ldr (single true false true false 2), ldr ofip)
    ++ replicate 16 (str (single true true true false 2), str prip)
    ++ replicate 16 (ldr (single true true true false 2), ldr prip)
    ++ replicate 16 (str (single true false true false 0), strb ofip)
    ++ replicate 16 (ldr (single true false true false 0), ldrb ofip)
    ++ replicate 16 (str (single true true true false 0), strb prip)
    ++ replicate 16 (ldr (single true true true false 0), ldrb prip)
