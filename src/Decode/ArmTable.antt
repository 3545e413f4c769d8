-- ===== src/Decode/ArmTable.antt =====
-- src/jit/interpreter/arm_table.rs: the ARM handlers of the interpreter. A chunk has the
-- entries of 64 lines, a run of equal entries written as `replicate`.
use advanced_slop.Base.{List, ◌++◌, replicate}
use advanced_slop.Decode.Lines.{line8}
use advanced_slop.Decode.Handlers.{
  ArmFn, and, ands, eor, eors, sub, subs, rsb, rsbs, add, adds, adc, adcs, sbc, sbcs, rsc, rscs,
  tst, teq, cmp, cmn, orr, orrs, mov, movs, bic, bics, mvn, mvns, ldr, str, ldrb, strb, ldrh, strh,
  ldrsb, ldrsh, ldrd, strd, ldm, stm, mul, muls, mla, mlas, umull, umulls, umlal, umlals, smull,
  smulls, smlal, smlals, qadd, qsub, qdadd, qdsub, smlabb, smlabt, smlatb, smlatt, smulbb, smulbt,
  smultb, smultt, smlawb, smlawt, smulwb, smulwt, smlalbb, smlalbt, smlaltb, smlaltt, clz, mrs_rc,
  mrs_rs, msr_rc, msr_rs, msr_ic, msr_is, b, bl, bx, blx_reg, swp, swpb, swi, mcr, mrc,
  inst_undefined, ofip, ofim, ofrpll, ofrplr, ofrpar, ofrprr, ofrmll, ofrmlr, ofrmar, ofrmrr, prip,
  prim, prrpll, prrplr, prrpar, prrprr, prrmll, prrmlr, prrmar, prrmrr, ptip, ptim, ptrpll, ptrplr,
  ptrpar, ptrprr, ptrmll, ptrmlr, ptrmar, ptrmrr, ofrp, ofrm, prrp, prrm, ptrp, ptrm, ia, ia_w,
  ia_u, ia_u_w, ib, ib_w, ib_u, ib_u_w, da, da_w, da_u, da_u_w, db, db_w, db_u, db_u_w,
}
use advanced_slop.Interp.Shifter.{lli, llr, lri, lrr, ari, arr, rri, rrr, imm}

abbrev pub arm_chunk0 : List ArmFn
arm_chunk0 =
    line8 (and lli) (and llr) (and lri) (and lrr) (and ari) (and arr) (and rri) (and rrr)
    ++ line8 (and lli) mul (and lri) (strh ptrm) (and ari) (ldrd ptrm) (and rri) (strd ptrm)
    ++ line8 (ands lli) (ands llr) (ands lri) (ands lrr) (ands ari) (ands arr) (ands rri) (ands rrr)
    ++ line8 (ands lli) muls (ands lri) (ldrh ptrm) (ands ari) (ldrsb ptrm) (ands rri) (ldrsh ptrm)
    ++ line8 (eor lli) (eor llr) (eor lri) (eor lrr) (eor ari) (eor arr) (eor rri) (eor rrr)
    ++ line8 (eor lli) mla (eor lri) (strh ptrm) (eor ari) (ldrd ptrm) (eor rri) (strd ptrm)
    ++ line8 (eors lli) (eors llr) (eors lri) (eors lrr) (eors ari) (eors arr) (eors rri) (eors rrr)
    ++ line8 (eors lli) mlas (eors lri) (ldrh ptrm) (eors ari) (ldrsb ptrm) (eors rri) (ldrsh ptrm)
    ++ line8 (sub lli) (sub llr) (sub lri) (sub lrr) (sub ari) (sub arr) (sub rri) (sub rrr)
    ++ line8 (sub lli) inst_undefined (sub lri) (strh ptim) (sub ari) (ldrd ptim) (sub rri)
        (strd ptim)
    ++ line8 (subs lli) (subs llr) (subs lri) (subs lrr) (subs ari) (subs arr) (subs rri) (subs rrr)
    ++ line8 (subs lli) inst_undefined (subs lri) (ldrh ptim) (subs ari) (ldrsb ptim) (subs rri)
        (ldrsh ptim)
    ++ line8 (rsb lli) (rsb llr) (rsb lri) (rsb lrr) (rsb ari) (rsb arr) (rsb rri) (rsb rrr)
    ++ line8 (rsb lli) inst_undefined (rsb lri) (strh ptim) (rsb ari) (ldrd ptim) (rsb rri)
        (strd ptim)
    ++ line8 (rsbs lli) (rsbs llr) (rsbs lri) (rsbs lrr) (rsbs ari) (rsbs arr) (rsbs rri) (rsbs rrr)
    ++ line8 (rsbs lli) inst_undefined (rsbs lri) (ldrh ptim) (rsbs ari) (ldrsb ptim) (rsbs rri)
        (ldrsh ptim)
    ++ line8 (add lli) (add llr) (add lri) (add lrr) (add ari) (add arr) (add rri) (add rrr)
    ++ line8 (add lli) umull (add lri) (strh ptrp) (add ari) (ldrd ptrp) (add rri) (strd ptrp)
    ++ line8 (adds lli) (adds llr) (adds lri) (adds lrr) (adds ari) (adds arr) (adds rri) (adds rrr)
    ++ line8 (adds lli) umulls (adds lri) (ldrh ptrp) (adds ari) (ldrsb ptrp) (adds rri)
        (ldrsh ptrp)
    ++ line8 (adc lli) (adc llr) (adc lri) (adc lrr) (adc ari) (adc arr) (adc rri) (adc rrr)
    ++ line8 (adc lli) umlal (adc lri) (strh ptrp) (adc ari) (ldrd ptrp) (adc rri) (strd ptrp)
    ++ line8 (adcs lli) (adcs llr) (adcs lri) (adcs lrr) (adcs ari) (adcs arr) (adcs rri) (adcs rrr)
    ++ line8 (adcs lli) umlals (adcs lri) (ldrh ptrp) (adcs ari) (ldrsb ptrp) (adcs rri)
        (ldrsh ptrp)
    ++ line8 (sbc lli) (sbc llr) (sbc lri) (sbc lrr) (sbc ari) (sbc arr) (sbc rri) (sbc rrr)
    ++ line8 (sbc lli) smull (sbc lri) (strh ptip) (sbc ari) (ldrd ptip) (sbc rri) (strd ptip)
    ++ line8 (sbcs lli) (sbcs llr) (sbcs lri) (sbcs lrr) (sbcs ari) (sbcs arr) (sbcs rri) (sbcs rrr)
    ++ line8 (sbcs lli) smulls (sbcs lri) (ldrh ptip) (sbcs ari) (ldrsb ptip) (sbcs rri)
        (ldrsh ptip)
    ++ line8 (rsc lli) (rsc llr) (rsc lri) (rsc lrr) (rsc ari) (rsc arr) (rsc rri) (rsc rrr)
    ++ line8 (rsc lli) smlal (rsc lri) (strh ptip) (rsc ari) (ldrd ptip) (rsc rri) (strd ptip)
    ++ line8 (rscs lli) (rscs llr) (rscs lri) (rscs lrr) (rscs ari) (rscs arr) (rscs rri) (rscs rrr)
    ++ line8 (rscs lli) smlals (rscs lri) (ldrh ptip) (rscs ari) (ldrsb ptip) (rscs rri)
        (ldrsh ptip)
    ++ line8 mrs_rc inst_undefined inst_undefined inst_undefined inst_undefined qadd inst_undefined
        inst_undefined
    ++ line8 smlabb swp smlatb (strh ofrm) smlabt (ldrd ofrm) smlatt (strd ofrm)
    ++ line8 (tst lli) (tst llr) (tst lri) (tst lrr) (tst ari) (tst arr) (tst rri) (tst rrr)
    ++ line8 (tst lli) inst_undefined (tst lri) (ldrh ofrm) (tst ari) (ldrsb ofrm) (tst rri)
        (ldrsh ofrm)
    ++ line8 msr_rc bx inst_undefined blx_reg inst_undefined qsub inst_undefined inst_undefined
    ++ line8 smlawb inst_undefined smulwb (strh prrm) smlawt (ldrd prrm) smulwt (strd prrm)
    ++ line8 (teq lli) (teq llr) (teq lri) (teq lrr) (teq ari) (teq arr) (teq rri) (teq rrr)
    ++ line8 (teq lli) inst_undefined (teq lri) (ldrh prrm) (teq ari) (ldrsb prrm) (teq rri)
        (ldrsh prrm)
    ++ line8 mrs_rs inst_undefined inst_undefined inst_undefined inst_undefined qdadd inst_undefined
        inst_undefined
    ++ line8 smlalbb swpb smlaltb (strh ofim) smlalbt (ldrd ofim) smlaltt (strd ofim)
    ++ line8 (cmp lli) (cmp llr) (cmp lri) (cmp lrr) (cmp ari) (cmp arr) (cmp rri) (cmp rrr)
    ++ line8 (cmp lli) inst_undefined (cmp lri) (ldrh ofim) (cmp ari) (ldrsb ofim) (cmp rri)
        (ldrsh ofim)
    ++ line8 msr_rs clz inst_undefined inst_undefined inst_undefined qdsub inst_undefined
        inst_undefined
    ++ line8 smulbb inst_undefined smultb (strh prim) smulbt (ldrd prim) smultt (strd prim)
    ++ line8 (cmn lli) (cmn llr) (cmn lri) (cmn lrr) (cmn ari) (cmn arr) (cmn rri) (cmn rrr)
    ++ line8 (cmn lli) inst_undefined (cmn lri) (ldrh prim) (cmn ari) (ldrsb prim) (cmn rri)
        (ldrsh prim)
    ++ line8 (orr lli) (orr llr) (orr lri) (orr lrr) (orr ari) (orr arr) (orr rri) (orr rrr)
    ++ line8 (orr lli) inst_undefined (orr lri) (strh ofrp) (orr ari) (ldrd ofrp) (orr rri)
        (strd ofrp)
    ++ line8 (orrs lli) (orrs llr) (orrs lri) (orrs lrr) (orrs ari) (orrs arr) (orrs rri) (orrs rrr)
    ++ line8 (orrs lli) inst_undefined (orrs lri) (ldrh ofrp) (orrs ari) (ldrsb ofrp) (orrs rri)
        (ldrsh ofrp)
    ++ line8 (mov lli) (mov llr) (mov lri) (mov lrr) (mov ari) (mov arr) (mov rri) (mov rrr)
    ++ line8 (mov lli) inst_undefined (mov lri) (strh prrp) (mov ari) (ldrd prrp) (mov rri)
        (strd prrp)
    ++ line8 (movs lli) (movs llr) (movs lri) (movs lrr) (movs ari) (movs arr) (movs rri) (movs rrr)
    ++ line8 (movs lli) inst_undefined (movs lri) (ldrh prrp) (movs ari) (ldrsb prrp) (movs rri)
        (ldrsh prrp)
    ++ line8 (bic lli) (bic llr) (bic lri) (bic lrr) (bic ari) (bic arr) (bic rri) (bic rrr)
    ++ line8 (bic lli) inst_undefined (bic lri) (strh ofip) (bic ari) (ldrd ofip) (bic rri)
        (strd ofip)
    ++ line8 (bics lli) (bics llr) (bics lri) (bics lrr) (bics ari) (bics arr) (bics rri) (bics rrr)
    ++ line8 (bics lli) inst_undefined (bics lri) (ldrh ofip) (bics ari) (ldrsb ofip) (bics rri)
        (ldrsh ofip)
    ++ line8 (mvn lli) (mvn llr) (mvn lri) (mvn lrr) (mvn ari) (mvn arr) (mvn rri) (mvn rrr)
    ++ line8 (mvn lli) inst_undefined (mvn lri) (strh prip) (mvn ari) (ldrd prip) (mvn rri)
        (strd prip)
    ++ line8 (mvns lli) (mvns llr) (mvns lri) (mvns lrr) (mvns ari) (mvns arr) (mvns rri) (mvns rrr)
    ++ line8 (mvns lli) inst_undefined (mvns lri) (ldrh prip) (mvns ari) (ldrsb prip) (mvns rri)
        (ldrsh prip)

abbrev pub arm_chunk1 : List ArmFn
arm_chunk1 =
    replicate 16 (and imm)
    ++ replicate 16 (ands imm)
    ++ replicate 16 (eor imm)
    ++ replicate 16 (eors imm)
    ++ replicate 16 (sub imm)
    ++ replicate 16 (subs imm)
    ++ replicate 16 (rsb imm)
    ++ replicate 16 (rsbs imm)
    ++ replicate 16 (add imm)
    ++ replicate 16 (adds imm)
    ++ replicate 16 (adc imm)
    ++ replicate 16 (adcs imm)
    ++ replicate 16 (sbc imm)
    ++ replicate 16 (sbcs imm)
    ++ replicate 16 (rsc imm)
    ++ replicate 16 (rscs imm)
    ++ replicate 16 inst_undefined
    ++ replicate 16 (tst imm)
    ++ replicate 16 msr_ic
    ++ replicate 16 (teq imm)
    ++ replicate 16 inst_undefined
    ++ replicate 16 (cmp imm)
    ++ replicate 16 msr_is
    ++ replicate 16 (cmn imm)
    ++ replicate 16 (orr imm)
    ++ replicate 16 (orrs imm)
    ++ replicate 16 (mov imm)
    ++ replicate 16 (movs imm)
    ++ replicate 16 (bic imm)
    ++ replicate 16 (bics imm)
    ++ replicate 16 (mvn imm)
    ++ replicate 16 (mvns imm)

abbrev pub arm_chunk2 : List ArmFn
arm_chunk2 =
    replicate 16 (str ptim)
    ++ replicate 16 (ldr ptim)
    ++ replicate 32 inst_undefined
    ++ replicate 16 (strb ptim)
    ++ replicate 16 (ldrb ptim)
    ++ replicate 32 inst_undefined
    ++ replicate 16 (str ptip)
    ++ replicate 16 (ldr ptip)
    ++ replicate 32 inst_undefined
    ++ replicate 16 (strb ptip)
    ++ replicate 16 (ldrb ptip)
    ++ replicate 32 inst_undefined
    ++ replicate 16 (str ofim)
    ++ replicate 16 (ldr ofim)
    ++ replicate 16 (str prim)
    ++ replicate 16 (ldr prim)
    ++ replicate 16 (strb ofim)
    ++ replicate 16 (ldrb ofim)
    ++ replicate 16 (strb prim)
    ++ replicate 16 (ldrb prim)
    ++ replicate 16 (str ofip)
    ++ replicate 16 (ldr ofip)
    ++ replicate 16 (str prip)
    ++ replicate 16 (ldr prip)
    ++ replicate 16 (strb ofip)
    ++ replicate 16 (ldrb ofip)
    ++ replicate 16 (strb prip)
    ++ replicate 16 (ldrb prip)

abbrev pub arm_chunk3 : List ArmFn
arm_chunk3 =
    line8 (str ptrmll) inst_undefined (str ptrmlr) inst_undefined (str ptrmar) inst_undefined
      (str ptrmrr) inst_undefined
    ++ line8 (str ptrmll) inst_undefined (str ptrmlr) inst_undefined (str ptrmar) inst_undefined
        (str ptrmrr) inst_undefined
    ++ line8 (ldr ptrmll) inst_undefined (ldr ptrmlr) inst_undefined (ldr ptrmar) inst_undefined
        (ldr ptrmrr) inst_undefined
    ++ line8 (ldr ptrmll) inst_undefined (ldr ptrmlr) inst_undefined (ldr ptrmar) inst_undefined
        (ldr ptrmrr) inst_undefined
    ++ replicate 32 inst_undefined
    ++ line8 (strb ptrmll) inst_undefined (strb ptrmlr) inst_undefined (strb ptrmar) inst_undefined
        (strb ptrmrr) inst_undefined
    ++ line8 (strb ptrmll) inst_undefined (strb ptrmlr) inst_undefined (strb ptrmar) inst_undefined
        (strb ptrmrr) inst_undefined
    ++ line8 (ldrb ptrmll) inst_undefined (ldrb ptrmlr) inst_undefined (ldrb ptrmar) inst_undefined
        (ldrb ptrmrr) inst_undefined
    ++ line8 (ldrb ptrmll) inst_undefined (ldrb ptrmlr) inst_undefined (ldrb ptrmar) inst_undefined
        (ldrb ptrmrr) inst_undefined
    ++ replicate 32 inst_undefined
    ++ line8 (str ptrpll) inst_undefined (str ptrplr) inst_undefined (str ptrpar) inst_undefined
        (str ptrprr) inst_undefined
    ++ line8 (str ptrpll) inst_undefined (str ptrplr) inst_undefined (str ptrpar) inst_undefined
        (str ptrprr) inst_undefined
    ++ line8 (ldr ptrpll) inst_undefined (ldr ptrplr) inst_undefined (ldr ptrpar) inst_undefined
        (ldr ptrprr) inst_undefined
    ++ line8 (ldr ptrpll) inst_undefined (ldr ptrplr) inst_undefined (ldr ptrpar) inst_undefined
        (ldr ptrprr) inst_undefined
    ++ replicate 32 inst_undefined
    ++ line8 (strb ptrpll) inst_undefined (strb ptrplr) inst_undefined (strb ptrpar) inst_undefined
        (strb ptrprr) inst_undefined
    ++ line8 (strb ptrpll) inst_undefined (strb ptrplr) inst_undefined (strb ptrpar) inst_undefined
        (strb ptrprr) inst_undefined
    ++ line8 (ldrb ptrpll) inst_undefined (ldrb ptrplr) inst_undefined (ldrb ptrpar) inst_undefined
        (ldrb ptrprr) inst_undefined
    ++ line8 (ldrb ptrpll) inst_undefined (ldrb ptrplr) inst_undefined (ldrb ptrpar) inst_undefined
        (ldrb ptrprr) inst_undefined
    ++ replicate 32 inst_undefined
    ++ line8 (str ofrmll) inst_undefined (str ofrmlr) inst_undefined (str ofrmar) inst_undefined
        (str ofrmrr) inst_undefined
    ++ line8 (str ofrmll) inst_undefined (str ofrmlr) inst_undefined (str ofrmar) inst_undefined
        (str ofrmrr) inst_undefined
    ++ line8 (ldr ofrmll) inst_undefined (ldr ofrmlr) inst_undefined (ldr ofrmar) inst_undefined
        (ldr ofrmrr) inst_undefined
    ++ line8 (ldr ofrmll) inst_undefined (ldr ofrmlr) inst_undefined (ldr ofrmar) inst_undefined
        (ldr ofrmrr) inst_undefined
    ++ line8 (str prrmll) inst_undefined (str prrmlr) inst_undefined (str prrmar) inst_undefined
        (str prrmrr) inst_undefined
    ++ line8 (str prrmll) inst_undefined (str prrmlr) inst_undefined (str prrmar) inst_undefined
        (str prrmrr) inst_undefined
    ++ line8 (ldr prrmll) inst_undefined (ldr prrmlr) inst_undefined (ldr prrmar) inst_undefined
        (ldr prrmrr) inst_undefined
    ++ line8 (ldr prrmll) inst_undefined (ldr prrmlr) inst_undefined (ldr prrmar) inst_undefined
        (ldr prrmrr) inst_undefined
    ++ line8 (strb ofrmll) inst_undefined (strb ofrmlr) inst_undefined (strb ofrmar) inst_undefined
        (strb ofrmrr) inst_undefined
    ++ line8 (strb ofrmll) inst_undefined (strb ofrmlr) inst_undefined (strb ofrmar) inst_undefined
        (strb ofrmrr) inst_undefined
    ++ line8 (ldrb ofrmll) inst_undefined (ldrb ofrmlr) inst_undefined (ldrb ofrmar) inst_undefined
        (ldrb ofrmrr) inst_undefined
    ++ line8 (ldrb ofrmll) inst_undefined (ldrb ofrmlr) inst_undefined (ldrb ofrmar) inst_undefined
        (ldrb ofrmrr) inst_undefined
    ++ line8 (strb prrmll) inst_undefined (strb prrmlr) inst_undefined (strb prrmar) inst_undefined
        (strb prrmrr) inst_undefined
    ++ line8 (strb prrmll) inst_undefined (strb prrmlr) inst_undefined (strb prrmar) inst_undefined
        (strb prrmrr) inst_undefined
    ++ line8 (ldrb prrmll) inst_undefined (ldrb prrmlr) inst_undefined (ldrb prrmar) inst_undefined
        (ldrb prrmrr) inst_undefined
    ++ line8 (ldrb prrmll) inst_undefined (ldrb prrmlr) inst_undefined (ldrb prrmar) inst_undefined
        (ldrb prrmrr) inst_undefined
    ++ line8 (str ofrpll) inst_undefined (str ofrplr) inst_undefined (str ofrpar) inst_undefined
        (str ofrprr) inst_undefined
    ++ line8 (str ofrpll) inst_undefined (str ofrplr) inst_undefined (str ofrpar) inst_undefined
        (str ofrprr) inst_undefined
    ++ line8 (ldr ofrpll) inst_undefined (ldr ofrplr) inst_undefined (ldr ofrpar) inst_undefined
        (ldr ofrprr) inst_undefined
    ++ line8 (ldr ofrpll) inst_undefined (ldr ofrplr) inst_undefined (ldr ofrpar) inst_undefined
        (ldr ofrprr) inst_undefined
    ++ line8 (str prrpll) inst_undefined (str prrplr) inst_undefined (str prrpar) inst_undefined
        (str prrprr) inst_undefined
    ++ line8 (str prrpll) inst_undefined (str prrplr) inst_undefined (str prrpar) inst_undefined
        (str prrprr) inst_undefined
    ++ line8 (ldr prrpll) inst_undefined (ldr prrplr) inst_undefined (ldr prrpar) inst_undefined
        (ldr prrprr) inst_undefined
    ++ line8 (ldr prrpll) inst_undefined (ldr prrplr) inst_undefined (ldr prrpar) inst_undefined
        (ldr prrprr) inst_undefined
    ++ line8 (strb ofrpll) inst_undefined (strb ofrplr) inst_undefined (strb ofrpar) inst_undefined
        (strb ofrprr) inst_undefined
    ++ line8 (strb ofrpll) inst_undefined (strb ofrplr) inst_undefined (strb ofrpar) inst_undefined
        (strb ofrprr) inst_undefined
    ++ line8 (ldrb ofrpll) inst_undefined (ldrb ofrplr) inst_undefined (ldrb ofrpar) inst_undefined
        (ldrb ofrprr) inst_undefined
    ++ line8 (ldrb ofrpll) inst_undefined (ldrb ofrplr) inst_undefined (ldrb ofrpar) inst_undefined
        (ldrb ofrprr) inst_undefined
    ++ line8 (strb prrpll) inst_undefined (strb prrplr) inst_undefined (strb prrpar) inst_undefined
        (strb prrprr) inst_undefined
    ++ line8 (strb prrpll) inst_undefined (strb prrplr) inst_undefined (strb prrpar) inst_undefined
        (strb prrprr) inst_undefined
    ++ line8 (ldrb prrpll) inst_undefined (ldrb prrplr) inst_undefined (ldrb prrpar) inst_undefined
        (ldrb prrprr) inst_undefined
    ++ line8 (ldrb prrpll) inst_undefined (ldrb prrplr) inst_undefined (ldrb prrpar) inst_undefined
        (ldrb prrprr) inst_undefined

abbrev pub arm_chunk4 : List ArmFn
arm_chunk4 =
    replicate 16 (stm da)
    ++ replicate 16 (ldm da)
    ++ replicate 16 (stm da_w)
    ++ replicate 16 (ldm da_w)
    ++ replicate 16 (stm da_u)
    ++ replicate 16 (ldm da_u)
    ++ replicate 16 (stm da_u_w)
    ++ replicate 16 (ldm da_u_w)
    ++ replicate 16 (stm ia)
    ++ replicate 16 (ldm ia)
    ++ replicate 16 (stm ia_w)
    ++ replicate 16 (ldm ia_w)
    ++ replicate 16 (stm ia_u)
    ++ replicate 16 (ldm ia_u)
    ++ replicate 16 (stm ia_u_w)
    ++ replicate 16 (ldm ia_u_w)
    ++ replicate 16 (stm db)
    ++ replicate 16 (ldm db)
    ++ replicate 16 (stm db_w)
    ++ replicate 16 (ldm db_w)
    ++ replicate 16 (stm db_u)
    ++ replicate 16 (ldm db_u)
    ++ replicate 16 (stm db_u_w)
    ++ replicate 16 (ldm db_u_w)
    ++ replicate 16 (stm ib)
    ++ replicate 16 (ldm ib)
    ++ replicate 16 (stm ib_w)
    ++ replicate 16 (ldm ib_w)
    ++ replicate 16 (stm ib_u)
    ++ replicate 16 (ldm ib_u)
    ++ replicate 16 (stm ib_u_w)
    ++ replicate 16 (ldm ib_u_w)

abbrev pub arm_chunk5 : List ArmFn
arm_chunk5 = replicate 256 b ++ replicate 256 bl

abbrev pub arm_chunk6 : List ArmFn
arm_chunk6 = replicate 512 inst_undefined

abbrev pub arm_chunk7 : List ArmFn
arm_chunk7 =
    line8 inst_undefined mcr inst_undefined mcr inst_undefined mcr inst_undefined mcr
    ++ line8 inst_undefined mcr inst_undefined mcr inst_undefined mcr inst_undefined mcr
    ++ line8 inst_undefined mrc inst_undefined mrc inst_undefined mrc inst_undefined mrc
    ++ line8 inst_undefined mrc inst_undefined mrc inst_undefined mrc inst_undefined mrc
    ++ line8 inst_undefined mcr inst_undefined mcr inst_undefined mcr inst_undefined mcr
    ++ line8 inst_undefined mcr inst_undefined mcr inst_undefined mcr inst_undefined mcr
    ++ line8 inst_undefined mrc inst_undefined mrc inst_undefined mrc inst_undefined mrc
    ++ line8 inst_undefined mrc inst_undefined mrc inst_undefined mrc inst_undefined mrc
    ++ line8 inst_undefined mcr inst_undefined mcr inst_undefined mcr inst_undefined mcr
    ++ line8 inst_undefined mcr inst_undefined mcr inst_undefined mcr inst_undefined mcr
    ++ line8 inst_undefined mrc inst_undefined mrc inst_undefined mrc inst_undefined mrc
    ++ line8 inst_undefined mrc inst_undefined mrc inst_undefined mrc inst_undefined mrc
    ++ line8 inst_undefined mcr inst_undefined mcr inst_undefined mcr inst_undefined mcr
    ++ line8 inst_undefined mcr inst_undefined mcr inst_undefined mcr inst_undefined mcr
    ++ line8 inst_undefined mrc inst_undefined mrc inst_undefined mrc inst_undefined mrc
    ++ line8 inst_undefined mrc inst_undefined mrc inst_undefined mrc inst_undefined mrc
    ++ line8 inst_undefined mcr inst_undefined mcr inst_undefined mcr inst_undefined mcr
    ++ line8 inst_undefined mcr inst_undefined mcr inst_undefined mcr inst_undefined mcr
    ++ line8 inst_undefined mrc inst_undefined mrc inst_undefined mrc inst_undefined mrc
    ++ line8 inst_undefined mrc inst_undefined mrc inst_undefined mrc inst_undefined mrc
    ++ line8 inst_undefined mcr inst_undefined mcr inst_undefined mcr inst_undefined mcr
    ++ line8 inst_undefined mcr inst_undefined mcr inst_undefined mcr inst_undefined mcr
    ++ line8 inst_undefined mrc inst_undefined mrc inst_undefined mrc inst_undefined mrc
    ++ line8 inst_undefined mrc inst_undefined mrc inst_undefined mrc inst_undefined mrc
    ++ line8 inst_undefined mcr inst_undefined mcr inst_undefined mcr inst_undefined mcr
    ++ line8 inst_undefined mcr inst_undefined mcr inst_undefined mcr inst_undefined mcr
    ++ line8 inst_undefined mrc inst_undefined mrc inst_undefined mrc inst_undefined mrc
    ++ line8 inst_undefined mrc inst_undefined mrc inst_undefined mrc inst_undefined mrc
    ++ line8 inst_undefined mcr inst_undefined mcr inst_undefined mcr inst_undefined mcr
    ++ line8 inst_undefined mcr inst_undefined mcr inst_undefined mcr inst_undefined mcr
    ++ line8 inst_undefined mrc inst_undefined mrc inst_undefined mrc inst_undefined mrc
    ++ line8 inst_undefined mrc inst_undefined mrc inst_undefined mrc inst_undefined mrc
    ++ replicate 256 swi

unfoldable pub arm_table : List ArmFn
arm_table =
    arm_chunk0 ++ arm_chunk1 ++ arm_chunk2 ++ arm_chunk3 ++ arm_chunk4 ++ arm_chunk5 ++ arm_chunk6
    ++ arm_chunk7
