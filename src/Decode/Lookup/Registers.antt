-- ===== src/Decode/Lookup/Registers.antt =====
-- src/jit/disassembler/lookup_table.rs: the entries of
-- data processing with a register, multiplies, halfword transfers, 128 to a chunk.
use advanced_slop.Base.{List, ◌++◌, true, false}
use advanced_slop.Decode.Lines.{line2, line4}
use advanced_slop.Decode.Op.{
  Op, single, adc, adcs, add, adds, and, ands, bic, bics, blx_reg, bx, clz, cmn, cmp, eor, eors,
  ldr, mla, mlas, mov, movs, mrs_rc, mrs_rs, msr_rc, msr_rs, mul, muls, mvn, mvns, orr, orrs, qadd,
  qdadd, qdsub, qsub, rsb, rsbs, rsc, rscs, sbc, sbcs, smlabb, smlabt, smlal, smlalbb, smlalbt,
  smlals, smlaltb, smlaltt, smlatb, smlatt, smlawb, smlawt, smulbb, smulbt, smull, smulls, smultb,
  smultt, smulwb, smulwt, str, sub, subs, swp, swpb, teq, tst, umlal, umlals, umull, umulls,
  unk_arm,
}
use advanced_slop.Decode.Handlers.{
  ArmFn, and, ands, eor, eors, sub, subs, rsb, rsbs, add, adds, adc, adcs, sbc, sbcs, rsc, rscs,
  tst, teq, cmp, cmn, orr, orrs, mov, movs, bic, bics, mvn, mvns, ldrh, strh, ldrsb, ldrsh, ldrd,
  strd, mul, muls, mla, mlas, umull, umulls, umlal, umlals, smull, smulls, smlal, smlals, qadd,
  qsub, qdadd, qdsub, smlabb, smlabt, smlatb, smlatt, smulbb, smulbt, smultb, smultt, smlawb,
  smlawt, smulwb, smulwt, smlalbb, smlalbt, smlaltb, smlaltt, clz, mrs_rc, mrs_rs, msr_rc, msr_rs,
  bx, blx_reg, swp, swpb, inst_undefined, ofip, ofim, prip, prim, ptip, ptim, ofrp, ofrm, prrp,
  prrm, ptrp, ptrm,
}
use advanced_slop.Interp.Shifter.{lli, llr, lri, lrr, ari, arr, rri, rrr}

abbrev pub lookup_chunk0 : List (Op × ArmFn)
lookup_chunk0 =
    line4 (and, and lli) (and, and llr) (and, and lri) (and, and lrr)
    ++ line4 (and, and ari) (and, and arr) (and, and rri) (and, and rrr)
    ++ line2 (and, and lli) (mul, mul)
    ++ line2 (and, and lri) (str (single false true false false 1), strh ptrm)
    ++ line2 (and, and ari) (ldr (single false true false false 3), ldrd ptrm)
    ++ line2 (and, and rri) (str (single false true false false 3), strd ptrm)
    ++ line4 (ands, ands lli) (ands, ands llr) (ands, ands lri) (ands, ands lrr)
    ++ line4 (ands, ands ari) (ands, ands arr) (ands, ands rri) (ands, ands rrr)
    ++ line2 (ands, ands lli) (muls, muls)
    ++ line2 (ands, ands lri) (ldr (single false true false false 1), ldrh ptrm)
    ++ line2 (ands, ands ari) (ldr (single false true false true 0), ldrsb ptrm)
    ++ line2 (ands, ands rri) (ldr (single false true false true 1), ldrsh ptrm)
    ++ line4 (eor, eor lli) (eor, eor llr) (eor, eor lri) (eor, eor lrr)
    ++ line4 (eor, eor ari) (eor, eor arr) (eor, eor rri) (eor, eor rrr)
    ++ line2 (eor, eor lli) (mla, mla)
    ++ line2 (eor, eor lri) (str (single false true false false 1), strh ptrm)
    ++ line2 (eor, eor ari) (ldr (single false true false false 3), ldrd ptrm)
    ++ line2 (eor, eor rri) (str (single false true false false 3), strd ptrm)
    ++ line4 (eors, eors lli) (eors, eors llr) (eors, eors lri) (eors, eors lrr)
    ++ line4 (eors, eors ari) (eors, eors arr) (eors, eors rri) (eors, eors rrr)
    ++ line2 (eors, eors lli) (mlas, mlas)
    ++ line2 (eors, eors lri) (ldr (single false true false false 1), ldrh ptrm)
    ++ line2 (eors, eors ari) (ldr (single false true false true 0), ldrsb ptrm)
    ++ line2 (eors, eors rri) (ldr (single false true false true 1), ldrsh ptrm)
    ++ line4 (sub, sub lli) (sub, sub llr) (sub, sub lri) (sub, sub lrr)
    ++ line4 (sub, sub ari) (sub, sub arr) (sub, sub rri) (sub, sub rrr)
    ++ line2 (sub, sub lli) (unk_arm, inst_undefined)
    ++ line2 (sub, sub lri) (str (single false true false false 1), strh ptim)
    ++ line2 (sub, sub ari) (ldr (single false true false false 3), ldrd ptim)
    ++ line2 (sub, sub rri) (str (single false true false false 3), strd ptim)
    ++ line4 (subs, subs lli) (subs, subs llr) (subs, subs lri) (subs, subs lrr)
    ++ line4 (subs, subs ari) (subs, subs arr) (subs, subs rri) (subs, subs rrr)
    ++ line2 (subs, subs lli) (unk_arm, inst_undefined)
    ++ line2 (subs, subs lri) (ldr (single false true false false 1), ldrh ptim)
    ++ line2 (subs, subs ari) (ldr (single false true false true 0), ldrsb ptim)
    ++ line2 (subs, subs rri) (ldr (single false true false true 1), ldrsh ptim)
    ++ line4 (rsb, rsb lli) (rsb, rsb llr) (rsb, rsb lri) (rsb, rsb lrr)
    ++ line4 (rsb, rsb ari) (rsb, rsb arr) (rsb, rsb rri) (rsb, rsb rrr)
    ++ line2 (rsb, rsb lli) (unk_arm, inst_undefined)
    ++ line2 (rsb, rsb lri) (str (single false true false false 1), strh ptim)
    ++ line2 (rsb, rsb ari) (ldr (single false true false false 3), ldrd ptim)
    ++ line2 (rsb, rsb rri) (str (single false true false false 3), strd ptim)
    ++ line4 (rsbs, rsbs lli) (rsbs, rsbs llr) (rsbs, rsbs lri) (rsbs, rsbs lrr)
    ++ line4 (rsbs, rsbs ari) (rsbs, rsbs arr) (rsbs, rsbs rri) (rsbs, rsbs rrr)
    ++ line2 (rsbs, rsbs lli) (unk_arm, inst_undefined)
    ++ line2 (rsbs, rsbs lri) (ldr (single false true false false 1), ldrh ptim)
    ++ line2 (rsbs, rsbs ari) (ldr (single false true false true 0), ldrsb ptim)
    ++ line2 (rsbs, rsbs rri) (ldr (single false true false true 1), ldrsh ptim)

abbrev pub lookup_chunk1 : List (Op × ArmFn)
lookup_chunk1 =
    line4 (add, add lli) (add, add llr) (add, add lri) (add, add lrr)
    ++ line4 (add, add ari) (add, add arr) (add, add rri) (add, add rrr)
    ++ line2 (add, add lli) (umull, umull)
    ++ line2 (add, add lri) (str (single false true true false 1), strh ptrp)
    ++ line2 (add, add ari) (ldr (single false true true false 3), ldrd ptrp)
    ++ line2 (add, add rri) (str (single false true true false 3), strd ptrp)
    ++ line4 (adds, adds lli) (adds, adds llr) (adds, adds lri) (adds, adds lrr)
    ++ line4 (adds, adds ari) (adds, adds arr) (adds, adds rri) (adds, adds rrr)
    ++ line2 (adds, adds lli) (umulls, umulls)
    ++ line2 (adds, adds lri) (ldr (single false true true false 1), ldrh ptrp)
    ++ line2 (adds, adds ari) (ldr (single false true true true 0), ldrsb ptrp)
    ++ line2 (adds, adds rri) (ldr (single false true true true 1), ldrsh ptrp)
    ++ line4 (adc, adc lli) (adc, adc llr) (adc, adc lri) (adc, adc lrr)
    ++ line4 (adc, adc ari) (adc, adc arr) (adc, adc rri) (adc, adc rrr)
    ++ line2 (adc, adc lli) (umlal, umlal)
    ++ line2 (adc, adc lri) (str (single false true true false 1), strh ptrp)
    ++ line2 (adc, adc ari) (ldr (single false true true false 3), ldrd ptrp)
    ++ line2 (adc, adc rri) (str (single false true true false 3), strd ptrp)
    ++ line4 (adcs, adcs lli) (adcs, adcs llr) (adcs, adcs lri) (adcs, adcs lrr)
    ++ line4 (adcs, adcs ari) (adcs, adcs arr) (adcs, adcs rri) (adcs, adcs rrr)
    ++ line2 (adcs, adcs lli) (umlals, umlals)
    ++ line2 (adcs, adcs lri) (ldr (single false true true false 1), ldrh ptrp)
    ++ line2 (adcs, adcs ari) (ldr (single false true true true 0), ldrsb ptrp)
    ++ line2 (adcs, adcs rri) (ldr (single false true true true 1), ldrsh ptrp)
    ++ line4 (sbc, sbc lli) (sbc, sbc llr) (sbc, sbc lri) (sbc, sbc lrr)
    ++ line4 (sbc, sbc ari) (sbc, sbc arr) (sbc, sbc rri) (sbc, sbc rrr)
    ++ line2 (sbc, sbc lli) (smull, smull)
    ++ line2 (sbc, sbc lri) (str (single false true true false 1), strh ptip)
    ++ line2 (sbc, sbc ari) (ldr (single false true true false 3), ldrd ptip)
    ++ line2 (sbc, sbc rri) (str (single false true true false 3), strd ptip)
    ++ line4 (sbcs, sbcs lli) (sbcs, sbcs llr) (sbcs, sbcs lri) (sbcs, sbcs lrr)
    ++ line4 (sbcs, sbcs ari) (sbcs, sbcs arr) (sbcs, sbcs rri) (sbcs, sbcs rrr)
    ++ line2 (sbcs, sbcs lli) (smulls, smulls)
    ++ line2 (sbcs, sbcs lri) (ldr (single false true true false 1), ldrh ptip)
    ++ line2 (sbcs, sbcs ari) (ldr (single false true true true 0), ldrsb ptip)
    ++ line2 (sbcs, sbcs rri) (ldr (single false true true true 1), ldrsh ptip)
    ++ line4 (rsc, rsc lli) (rsc, rsc llr) (rsc, rsc lri) (rsc, rsc lrr)
    ++ line4 (rsc, rsc ari) (rsc, rsc arr) (rsc, rsc rri) (rsc, rsc rrr)
    ++ line2 (rsc, rsc lli) (smlal, smlal)
    ++ line2 (rsc, rsc lri) (str (single false true true false 1), strh ptip)
    ++ line2 (rsc, rsc ari) (ldr (single false true true false 3), ldrd ptip)
    ++ line2 (rsc, rsc rri) (str (single false true true false 3), strd ptip)
    ++ line4 (rscs, rscs lli) (rscs, rscs llr) (rscs, rscs lri) (rscs, rscs lrr)
    ++ line4 (rscs, rscs ari) (rscs, rscs arr) (rscs, rscs rri) (rscs, rscs rrr)
    ++ line2 (rscs, rscs lli) (smlals, smlals)
    ++ line2 (rscs, rscs lri) (ldr (single false true true false 1), ldrh ptip)
    ++ line2 (rscs, rscs ari) (ldr (single false true true true 0), ldrsb ptip)
    ++ line2 (rscs, rscs rri) (ldr (single false true true true 1), ldrsh ptip)

abbrev pub lookup_chunk2 : List (Op × ArmFn)
lookup_chunk2 =
    line4 (mrs_rc, mrs_rc) (unk_arm, inst_undefined) (unk_arm, inst_undefined)
      (unk_arm, inst_undefined)
    ++ line4 (unk_arm, inst_undefined) (qadd, qadd) (unk_arm, inst_undefined)
        (unk_arm, inst_undefined)
    ++ line2 (smlabb, smlabb) (swp, swp)
    ++ line2 (smlatb, smlatb) (str (single true false false false 1), strh ofrm)
    ++ line2 (smlabt, smlabt) (ldr (single true false false false 3), ldrd ofrm)
    ++ line2 (smlatt, smlatt) (str (single true false false false 3), strd ofrm)
    ++ line4 (tst, tst lli) (tst, tst llr) (tst, tst lri) (tst, tst lrr)
    ++ line4 (tst, tst ari) (tst, tst arr) (tst, tst rri) (tst, tst rrr)
    ++ line2 (tst, tst lli) (unk_arm, inst_undefined)
    ++ line2 (tst, tst lri) (ldr (single true false false false 1), ldrh ofrm)
    ++ line2 (tst, tst ari) (ldr (single true false false true 0), ldrsb ofrm)
    ++ line2 (tst, tst rri) (ldr (single true false false true 1), ldrsh ofrm)
    ++ line4 (msr_rc, msr_rc) (bx, bx) (unk_arm, inst_undefined) (blx_reg, blx_reg)
    ++ line4 (unk_arm, inst_undefined) (qsub, qsub) (unk_arm, inst_undefined)
        (unk_arm, inst_undefined)
    ++ line2 (smlawb, smlawb) (unk_arm, inst_undefined)
    ++ line2 (smulwb, smulwb) (str (single true true false false 1), strh prrm)
    ++ line2 (smlawt, smlawt) (ldr (single true true false false 3), ldrd prrm)
    ++ line2 (smulwt, smulwt) (str (single true true false false 3), strd prrm)
    ++ line4 (teq, teq lli) (teq, teq llr) (teq, teq lri) (teq, teq lrr)
    ++ line4 (teq, teq ari) (teq, teq arr) (teq, teq rri) (teq, teq rrr)
    ++ line2 (teq, teq lli) (unk_arm, inst_undefined)
    ++ line2 (teq, teq lri) (ldr (single true true false false 1), ldrh prrm)
    ++ line2 (teq, teq ari) (ldr (single true true false true 0), ldrsb prrm)
    ++ line2 (teq, teq rri) (ldr (single true true false true 1), ldrsh prrm)
    ++ line4 (mrs_rs, mrs_rs) (unk_arm, inst_undefined) (unk_arm, inst_undefined)
        (unk_arm, inst_undefined)
    ++ line4 (unk_arm, inst_undefined) (qdadd, qdadd) (unk_arm, inst_undefined)
        (unk_arm, inst_undefined)
    ++ line2 (smlalbb, smlalbb) (swpb, swpb)
    ++ line2 (smlaltb, smlaltb) (str (single true false false false 1), strh ofim)
    ++ line2 (smlalbt, smlalbt) (ldr (single true false false false 3), ldrd ofim)
    ++ line2 (smlaltt, smlaltt) (str (single true false false false 3), strd ofim)
    ++ line4 (cmp, cmp lli) (cmp, cmp llr) (cmp, cmp lri) (cmp, cmp lrr)
    ++ line4 (cmp, cmp ari) (cmp, cmp arr) (cmp, cmp rri) (cmp, cmp rrr)
    ++ line2 (cmp, cmp lli) (unk_arm, inst_undefined)
    ++ line2 (cmp, cmp lri) (ldr (single true false false false 1), ldrh ofim)
    ++ line2 (cmp, cmp ari) (ldr (single true false false true 0), ldrsb ofim)
    ++ line2 (cmp, cmp rri) (ldr (single true false false true 1), ldrsh ofim)
    ++ line4 (msr_rs, msr_rs) (clz, clz) (unk_arm, inst_undefined) (unk_arm, inst_undefined)
    ++ line4 (unk_arm, inst_undefined) (qdsub, qdsub) (unk_arm, inst_undefined)
        (unk_arm, inst_undefined)
    ++ line2 (smulbb, smulbb) (unk_arm, inst_undefined)
    ++ line2 (smultb, smultb) (str (single true true false false 1), strh prim)
    ++ line2 (smulbt, smulbt) (ldr (single true true false false 3), ldrd prim)
    ++ line2 (smultt, smultt) (str (single true true false false 3), strd prim)
    ++ line4 (cmn, cmn lli) (cmn, cmn llr) (cmn, cmn lri) (cmn, cmn lrr)
    ++ line4 (cmn, cmn ari) (cmn, cmn arr) (cmn, cmn rri) (cmn, cmn rrr)
    ++ line2 (cmn, cmn lli) (unk_arm, inst_undefined)
    ++ line2 (cmn, cmn lri) (ldr (single true true false false 1), ldrh prim)
    ++ line2 (cmn, cmn ari) (ldr (single true true false true 0), ldrsb prim)
    ++ line2 (cmn, cmn rri) (ldr (single true true false true 1), ldrsh prim)

abbrev pub lookup_chunk3 : List (Op × ArmFn)
lookup_chunk3 =
    line4 (orr, orr lli) (orr, orr llr) (orr, orr lri) (orr, orr lrr)
    ++ line4 (orr, orr ari) (orr, orr arr) (orr, orr rri) (orr, orr rrr)
    ++ line2 (orr, orr lli) (unk_arm, inst_undefined)
    ++ line2 (orr, orr lri) (str (single true false true false 1), strh ofrp)
    ++ line2 (orr, orr ari) (ldr (single true false true false 3), ldrd ofrp)
    ++ line2 (orr, orr rri) (str (single true false true false 3), strd ofrp)
    ++ line4 (orrs, orrs lli) (orrs, orrs llr) (orrs, orrs lri) (orrs, orrs lrr)
    ++ line4 (orrs, orrs ari) (orrs, orrs arr) (orrs, orrs rri) (orrs, orrs rrr)
    ++ line2 (orrs, orrs lli) (unk_arm, inst_undefined)
    ++ line2 (orrs, orrs lri) (ldr (single true false true false 1), ldrh ofrp)
    ++ line2 (orrs, orrs ari) (ldr (single true false true true 0), ldrsb ofrp)
    ++ line2 (orrs, orrs rri) (ldr (single true false true true 1), ldrsh ofrp)
    ++ line4 (mov, mov lli) (mov, mov llr) (mov, mov lri) (mov, mov lrr)
    ++ line4 (mov, mov ari) (mov, mov arr) (mov, mov rri) (mov, mov rrr)
    ++ line2 (mov, mov lli) (unk_arm, inst_undefined)
    ++ line2 (mov, mov lri) (str (single true true true false 1), strh prrp)
    ++ line2 (mov, mov ari) (ldr (single true true true false 3), ldrd prrp)
    ++ line2 (mov, mov rri) (str (single true true true false 3), strd prrp)
    ++ line4 (movs, movs lli) (movs, movs llr) (movs, movs lri) (movs, movs lrr)
    ++ line4 (movs, movs ari) (movs, movs arr) (movs, movs rri) (movs, movs rrr)
    ++ line2 (movs, movs lli) (unk_arm, inst_undefined)
    ++ line2 (movs, movs lri) (ldr (single true true true false 1), ldrh prrp)
    ++ line2 (movs, movs ari) (ldr (single true true true true 0), ldrsb prrp)
    ++ line2 (movs, movs rri) (ldr (single true true true true 1), ldrsh prrp)
    ++ line4 (bic, bic lli) (bic, bic llr) (bic, bic lri) (bic, bic lrr)
    ++ line4 (bic, bic ari) (bic, bic arr) (bic, bic rri) (bic, bic rrr)
    ++ line2 (bic, bic lli) (unk_arm, inst_undefined)
    ++ line2 (bic, bic lri) (str (single true false true false 1), strh ofip)
    ++ line2 (bic, bic ari) (ldr (single true false true false 3), ldrd ofip)
    ++ line2 (bic, bic rri) (str (single true false true false 3), strd ofip)
    ++ line4 (bics, bics lli) (bics, bics llr) (bics, bics lri) (bics, bics lrr)
    ++ line4 (bics, bics ari) (bics, bics arr) (bics, bics rri) (bics, bics rrr)
    ++ line2 (bics, bics lli) (unk_arm, inst_undefined)
    ++ line2 (bics, bics lri) (ldr (single true false true false 1), ldrh ofip)
    ++ line2 (bics, bics ari) (ldr (single true false true true 0), ldrsb ofip)
    ++ line2 (bics, bics rri) (ldr (single true false true true 1), ldrsh ofip)
    ++ line4 (mvn, mvn lli) (mvn, mvn llr) (mvn, mvn lri) (mvn, mvn lrr)
    ++ line4 (mvn, mvn ari) (mvn, mvn arr) (mvn, mvn rri) (mvn, mvn rrr)
    ++ line2 (mvn, mvn lli) (unk_arm, inst_undefined)
    ++ line2 (mvn, mvn lri) (str (single true true true false 1), strh prip)
    ++ line2 (mvn, mvn ari) (ldr (single true true true false 3), ldrd prip)
    ++ line2 (mvn, mvn rri) (str (single true true true false 3), strd prip)
    ++ line4 (mvns, mvns lli) (mvns, mvns llr) (mvns, mvns lri) (mvns, mvns lrr)
    ++ line4 (mvns, mvns ari) (mvns, mvns arr) (mvns, mvns rri) (mvns, mvns rrr)
    ++ line2 (mvns, mvns lli) (unk_arm, inst_undefined)
    ++ line2 (mvns, mvns lri) (ldr (single true true true false 1), ldrh prip)
    ++ line2 (mvns, mvns ari) (ldr (single true true true true 0), ldrsb prip)
    ++ line2 (mvns, mvns rri) (ldr (single true true true true 1), ldrsh prip)
