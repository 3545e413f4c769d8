-- ===== src/Interp/Run.antt =====
-- What the ARM handlers of the table are: the instances of the functions of alu.rs, memory.rs,
-- branch.rs and system.rs in src/jit/interpreter that the macros there make. `none` is a panic of a
-- firmware call, or an undefined opcode.
pub mod Thumb
use advanced_slop.Base.{ℕ, true, false, Option, none, some}
use advanced_slop.Interp.{Ctx, InstResult}
use advanced_slop.Interp.Alu.{
  logical, arith_op, test, LogicalOp, ArithOp, TestOp, and, eor, sub, rsb, add, adc, sbc, rsc, tst,
  teq, cmp, cmn, orr, mov, bic, mvn,
}
use advanced_slop.Interp.Multiply
use advanced_slop.Interp.Multiply.{mul32, mul64, msr_register, msr_immediate}
use advanced_slop.Interp.Branch
use advanced_slop.Interp.Branch.{dsp}
use advanced_slop.Interp.Memory.{
  ldr_str, ldrh_strh, half, signed_byte, signed_half, ldrd_strd, swp_common,
}
use advanced_slop.Interp.Memory.Block.{ldm_stm}
use advanced_slop.Interp.System
use advanced_slop.Bios.{BulkBus}
use advanced_slop.Bios.Calls.{Host}
use advanced_slop.Decode.Handlers.{
  ArmFn, single_generics, half_generics, block_form, and, ands, eor, eors, sub, subs, rsb, rsbs,
  add, adds, adc, adcs, sbc, sbcs, rsc, rscs, tst, teq, cmp, cmn, orr, orrs, mov, movs, bic, bics,
  mvn, mvns, ldr, str, ldrb, strb, ldrh, strh, ldrsb, ldrsh, ldrd, strd, ldm, stm, mul, muls, mla,
  mlas, umull, umulls, umlal, umlals, smull, smulls, smlal, smlals, qadd, qsub, qdadd, qdsub,
  smlabb, smlabt, smlatb, smlatt, smulbb, smulbt, smultb, smultt, smlawb, smlawt, smulwb, smulwt,
  smlalbb, smlalbt, smlaltb, smlaltt, clz, mrs_rc, mrs_rs, msr_rc, msr_rs, msr_ic, msr_is, b, bl,
  bx, blx_reg, swp, swpb, swi, mcr, mrc, inst_undefined,
}

module _ {R : Type 0} (m : BulkBus R) (host : Host) where
  unfoldable pub run_arm : ArmFn → ℕ → Ctx R → Option (Ctx R × InstResult)
  unfolding single_generics half_generics block_form
  run_arm (and form) o ctx = some (logical and false form o ctx)
  run_arm (ands form) o ctx = some (logical and true form o ctx)
  run_arm (eor form) o ctx = some (logical eor false form o ctx)
  run_arm (eors form) o ctx = some (logical eor true form o ctx)
  run_arm (sub form) o ctx = some (arith_op sub false form o ctx)
  run_arm (subs form) o ctx = some (arith_op sub true form o ctx)
  run_arm (rsb form) o ctx = some (arith_op rsb false form o ctx)
  run_arm (rsbs form) o ctx = some (arith_op rsb true form o ctx)
  run_arm (add form) o ctx = some (arith_op add false form o ctx)
  run_arm (adds form) o ctx = some (arith_op add true form o ctx)
  run_arm (adc form) o ctx = some (arith_op adc false form o ctx)
  run_arm (adcs form) o ctx = some (arith_op adc true form o ctx)
  run_arm (sbc form) o ctx = some (arith_op sbc false form o ctx)
  run_arm (sbcs form) o ctx = some (arith_op sbc true form o ctx)
  run_arm (rsc form) o ctx = some (arith_op rsc false form o ctx)
  run_arm (rscs form) o ctx = some (arith_op rsc true form o ctx)
  run_arm (tst form) o ctx = some (test tst form o ctx)
  run_arm (teq form) o ctx = some (test teq form o ctx)
  run_arm (cmp form) o ctx = some (test cmp form o ctx)
  run_arm (cmn form) o ctx = some (test cmn form o ctx)
  run_arm (orr form) o ctx = some (logical orr false form o ctx)
  run_arm (orrs form) o ctx = some (logical orr true form o ctx)
  run_arm (mov form) o ctx = some (logical mov false form o ctx)
  run_arm (movs form) o ctx = some (logical mov true form o ctx)
  run_arm (bic form) o ctx = some (logical bic false form o ctx)
  run_arm (bics form) o ctx = some (logical bic true form o ctx)
  run_arm (mvn form) o ctx = some (logical mvn false form o ctx)
  run_arm (mvns form) o ctx = some (logical mvn true form o ctx)
  run_arm (ldr a) o ctx =
      let (mode, up, form) = single_generics a in some (ldr_str m.bus true false mode up form o ctx)
  run_arm (str a) o ctx =
      let (mode, up, form) = single_generics a in
      some (ldr_str m.bus false false mode up form o ctx)
  run_arm (ldrb a) o ctx =
      let (mode, up, form) = single_generics a in some (ldr_str m.bus true true mode up form o ctx)
  run_arm (strb a) o ctx =
      let (mode, up, form) = single_generics a in some (ldr_str m.bus false true mode up form o ctx)
  run_arm (ldrh a) o ctx =
      let (mode, up, by_register) = half_generics a in
      some (ldrh_strh m.bus true half mode up by_register o ctx)
  run_arm (strh a) o ctx =
      let (mode, up, by_register) = half_generics a in
      some (ldrh_strh m.bus false half mode up by_register o ctx)
  run_arm (ldrsb a) o ctx =
      let (mode, up, by_register) = half_generics a in
      some (ldrh_strh m.bus true signed_byte mode up by_register o ctx)
  run_arm (ldrsh a) o ctx =
      let (mode, up, by_register) = half_generics a in
      some (ldrh_strh m.bus true signed_half mode up by_register o ctx)
  run_arm (ldrd a) o ctx = some (ldrd_strd o ctx)
  run_arm (strd a) o ctx = some (ldrd_strd o ctx)
  run_arm (ldm mode) o ctx = some (ldm_stm m.bus true (block_form mode) o ctx)
  run_arm (stm mode) o ctx = some (ldm_stm m.bus false (block_form mode) o ctx)
  run_arm mul o ctx = some (mul32 false false o ctx)
  run_arm muls o ctx = some (mul32 true false o ctx)
  run_arm mla o ctx = some (mul32 false true o ctx)
  run_arm mlas o ctx = some (mul32 true true o ctx)
  run_arm umull o ctx = some (mul64 false false false o ctx)
  run_arm umulls o ctx = some (mul64 true false false o ctx)
  run_arm umlal o ctx = some (mul64 false true false o ctx)
  run_arm umlals o ctx = some (mul64 true true false o ctx)
  run_arm smull o ctx = some (mul64 false false true o ctx)
  run_arm smulls o ctx = some (mul64 true false true o ctx)
  run_arm smlal o ctx = some (mul64 false true true o ctx)
  run_arm smlals o ctx = some (mul64 true true true o ctx)
  run_arm qadd o ctx = some (dsp o ctx)
  run_arm qsub o ctx = some (dsp o ctx)
  run_arm qdadd o ctx = some (dsp o ctx)
  run_arm qdsub o ctx = some (dsp o ctx)
  run_arm smlabb o ctx = some (dsp o ctx)
  run_arm smlabt o ctx = some (dsp o ctx)
  run_arm smlawb o ctx = some (dsp o ctx)
  run_arm smlawt o ctx = some (dsp o ctx)
  run_arm smlalbb o ctx = some (dsp o ctx)
  run_arm smlalbt o ctx = some (dsp o ctx)
  run_arm smlaltb o ctx = some (dsp o ctx)
  run_arm smlaltt o ctx = some (dsp o ctx)
  run_arm smlatb o ctx = some (dsp o ctx)
  run_arm smlatt o ctx = some (dsp o ctx)
  run_arm smulbb o ctx = some (dsp o ctx)
  run_arm smulbt o ctx = some (dsp o ctx)
  run_arm smultb o ctx = some (dsp o ctx)
  run_arm smultt o ctx = some (dsp o ctx)
  run_arm smulwb o ctx = some (dsp o ctx)
  run_arm smulwt o ctx = some (dsp o ctx)
  run_arm clz o ctx = some (Multiply.clz o ctx)
  run_arm mrs_rc o ctx = some (Multiply.mrs_rc o ctx)
  run_arm mrs_rs o ctx = some (Multiply.mrs_rs o ctx)
  run_arm msr_rc o ctx = some (msr_register false o ctx)
  run_arm msr_rs o ctx = some (msr_register true o ctx)
  run_arm msr_ic o ctx = some (msr_immediate false o ctx)
  run_arm msr_is o ctx = some (msr_immediate true o ctx)
  run_arm b o ctx = some (Branch.b o ctx)
  run_arm bl o ctx = some (Branch.bl o ctx)
  run_arm bx o ctx = some (Branch.bx o ctx)
  run_arm blx_reg o ctx = some (Branch.blx_reg o ctx)
  run_arm swp o ctx = some (swp_common m.bus false o ctx)
  run_arm swpb o ctx = some (swp_common m.bus true o ctx)
  run_arm swi o ctx = System.swi m host o ctx
  run_arm mcr o ctx = some (System.mcr o ctx)
  run_arm mrc o ctx = some (System.mrc o ctx)
  run_arm inst_undefined o ctx = none
