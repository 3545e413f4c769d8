-- ===== src/Interp/Run/Thumb.antt =====
-- What the thumb handlers of the table are: the instances of the functions of thumb_alu.rs,
-- thumb_memory.rs, thumb_branch.rs and system.rs in src/jit/interpreter.
use advanced_slop.Base.{ℕ, true, false, Option, none, some}
use advanced_slop.Interp.{Ctx, InstResult}
use advanced_slop.Interp.ThumbAlu
use advanced_slop.Interp.ThumbAlu.{
  shift_imm_t, shift_dp_t, add_sub_t, add_sub_imm8_t, logical_dp_t, compare_dp_t, lsl_imm, lsr_imm,
  asr_imm, lsl_t, lsr_t, asr_t, ror_t, and_t, eor_t, orr_t, bic_t, mvn_t,
}
use advanced_slop.Interp.ThumbBranch
use advanced_slop.Interp.ThumbBranch.{
  bcond_t, beq, bne, bcs, bcc, bmi, bpl, bvs, bvc, bhi, bls, bge, blt, bgt, ble,
}
use advanced_slop.Interp.ThumbMemory
use advanced_slop.Interp.ThumbMemory.{
  load_reg_t, store_reg_t, load_imm5_t, store_imm5_t, ldr, ldrb, ldrh, ldrsb, ldrsh, str, strb,
  strh,
}
use advanced_slop.Interp.System
use advanced_slop.Bios.{BulkBus}
use advanced_slop.Bios.Calls.{Host}
use advanced_slop.Decode.ThumbHandlers.{
  ThumbFn, lsl_imm_t, lsr_imm_t, asr_imm_t, add_reg_t, sub_reg_t, add_imm3_t, sub_imm3_t,
  mov_imm8_t, cmp_imm8_t, add_imm8_t, sub_imm8_t, and_dp_t, eor_dp_t, lsl_dp_t, lsr_dp_t, asr_dp_t,
  adc_dp_t, sbc_dp_t, ror_dp_t, tst_dp_t, neg_dp_t, cmp_dp_t, cmn_dp_t, orr_dp_t, mul_dp_t,
  bic_dp_t, mvn_dp_t, add_h_t, cmp_h_t, mov_h_t, bx_reg_t, blx_reg_t, ldr_pc_t, str_reg_t,
  strh_reg_t, strb_reg_t, ldrsb_reg_t, ldr_reg_t, ldrh_reg_t, ldrb_reg_t, ldrsh_reg_t, str_imm5_t,
  ldr_imm5_t, strb_imm5_t, ldrb_imm5_t, strh_imm5_t, ldrh_imm5_t, str_sp_t, ldr_sp_t, add_pc_t,
  add_sp_t, add_sp_imm_t, inst_undefined_t, push_t, push_lr_t, pop_t, pop_pc_t, stmia_t, ldmia_t,
  beq_t, bne_t, bcs_t, bcc_t, bmi_t, bpl_t, bvs_t, bvc_t, bhi_t, bls_t, bge_t, blt_t, bgt_t, ble_t,
  swi_t, b_t, blx_off_t, bl_setup_t, bl_off_t,
}

module _ {R : Type 0} (m : BulkBus R) (host : Host) where
  unfoldable pub run_thumb : ThumbFn → ℕ → Ctx R → Option (Ctx R × InstResult)
  run_thumb lsl_imm_t o ctx = some (shift_imm_t lsl_imm o ctx)
  run_thumb lsr_imm_t o ctx = some (shift_imm_t lsr_imm o ctx)
  run_thumb asr_imm_t o ctx = some (shift_imm_t asr_imm o ctx)
  run_thumb add_reg_t o ctx = some (add_sub_t false false o ctx)
  run_thumb sub_reg_t o ctx = some (add_sub_t true false o ctx)
  run_thumb add_imm3_t o ctx = some (add_sub_t false true o ctx)
  run_thumb sub_imm3_t o ctx = some (add_sub_t true true o ctx)
  run_thumb mov_imm8_t o ctx = some (ThumbAlu.mov_imm8_t o ctx)
  run_thumb cmp_imm8_t o ctx = some (ThumbAlu.cmp_imm8_t o ctx)
  run_thumb add_imm8_t o ctx = some (add_sub_imm8_t false o ctx)
  run_thumb sub_imm8_t o ctx = some (add_sub_imm8_t true o ctx)
  run_thumb and_dp_t o ctx = some (logical_dp_t and_t o ctx)
  run_thumb eor_dp_t o ctx = some (logical_dp_t eor_t o ctx)
  run_thumb orr_dp_t o ctx = some (logical_dp_t orr_t o ctx)
  run_thumb bic_dp_t o ctx = some (logical_dp_t bic_t o ctx)
  run_thumb mvn_dp_t o ctx = some (logical_dp_t mvn_t o ctx)
  run_thumb lsl_dp_t o ctx = some (shift_dp_t lsl_t o ctx)
  run_thumb lsr_dp_t o ctx = some (shift_dp_t lsr_t o ctx)
  run_thumb asr_dp_t o ctx = some (shift_dp_t asr_t o ctx)
  run_thumb ror_dp_t o ctx = some (shift_dp_t ror_t o ctx)
  run_thumb adc_dp_t o ctx = some (ThumbAlu.adc_dp_t o ctx)
  run_thumb sbc_dp_t o ctx = some (ThumbAlu.sbc_dp_t o ctx)
  run_thumb tst_dp_t o ctx = some (ThumbAlu.tst_dp_t o ctx)
  run_thumb neg_dp_t o ctx = some (ThumbAlu.neg_dp_t o ctx)
  run_thumb mul_dp_t o ctx = some (ThumbAlu.mul_dp_t o ctx)
  run_thumb cmp_dp_t o ctx = some (compare_dp_t true o ctx)
  run_thumb cmn_dp_t o ctx = some (compare_dp_t false o ctx)
  run_thumb add_h_t o ctx = some (ThumbAlu.add_h_t o ctx)
  run_thumb cmp_h_t o ctx = some (ThumbAlu.cmp_h_t o ctx)
  run_thumb mov_h_t o ctx = some (ThumbAlu.mov_h_t o ctx)
  run_thumb add_pc_t o ctx = some (ThumbAlu.add_pc_t o ctx)
  run_thumb add_sp_t o ctx = some (ThumbAlu.add_sp_t o ctx)
  run_thumb add_sp_imm_t o ctx = some (ThumbAlu.add_sp_imm_t o ctx)
  run_thumb bx_reg_t o ctx = some (ThumbBranch.bx_reg_t o ctx)
  run_thumb blx_reg_t o ctx = some (ThumbBranch.blx_reg_t o ctx)
  run_thumb b_t o ctx = some (ThumbBranch.b_t o ctx)
  run_thumb bl_setup_t o ctx = some (ThumbBranch.bl_setup_t o ctx)
  run_thumb bl_off_t o ctx = some (ThumbBranch.bl_off_t o ctx)
  run_thumb blx_off_t o ctx = some (ThumbBranch.blx_off_t o ctx)
  run_thumb beq_t o ctx = some (bcond_t beq o ctx)
  run_thumb bne_t o ctx = some (bcond_t bne o ctx)
  run_thumb bcs_t o ctx = some (bcond_t bcs o ctx)
  run_thumb bcc_t o ctx = some (bcond_t bcc o ctx)
  run_thumb bmi_t o ctx = some (bcond_t bmi o ctx)
  run_thumb bpl_t o ctx = some (bcond_t bpl o ctx)
  run_thumb bvs_t o ctx = some (bcond_t bvs o ctx)
  run_thumb bvc_t o ctx = some (bcond_t bvc o ctx)
  run_thumb bhi_t o ctx = some (bcond_t bhi o ctx)
  run_thumb bls_t o ctx = some (bcond_t bls o ctx)
  run_thumb bge_t o ctx = some (bcond_t bge o ctx)
  run_thumb blt_t o ctx = some (bcond_t blt o ctx)
  run_thumb bgt_t o ctx = some (bcond_t bgt o ctx)
  run_thumb ble_t o ctx = some (bcond_t ble o ctx)
  run_thumb ldr_reg_t o ctx = some (load_reg_t m.bus ldr o ctx)
  run_thumb ldrb_reg_t o ctx = some (load_reg_t m.bus ldrb o ctx)
  run_thumb ldrh_reg_t o ctx = some (load_reg_t m.bus ldrh o ctx)
  run_thumb ldrsb_reg_t o ctx = some (load_reg_t m.bus ldrsb o ctx)
  run_thumb ldrsh_reg_t o ctx = some (load_reg_t m.bus ldrsh o ctx)
  run_thumb str_reg_t o ctx = some (store_reg_t m.bus str o ctx)
  run_thumb strb_reg_t o ctx = some (store_reg_t m.bus strb o ctx)
  run_thumb strh_reg_t o ctx = some (store_reg_t m.bus strh o ctx)
  run_thumb ldr_imm5_t o ctx = some (load_imm5_t m.bus ldr o ctx)
  run_thumb ldrb_imm5_t o ctx = some (load_imm5_t m.bus ldrb o ctx)
  run_thumb ldrh_imm5_t o ctx = some (load_imm5_t m.bus ldrh o ctx)
  run_thumb str_imm5_t o ctx = some (store_imm5_t m.bus str o ctx)
  run_thumb strb_imm5_t o ctx = some (store_imm5_t m.bus strb o ctx)
  run_thumb strh_imm5_t o ctx = some (store_imm5_t m.bus strh o ctx)
  run_thumb ldr_pc_t o ctx = some (ThumbMemory.ldr_pc_t m.bus o ctx)
  run_thumb ldr_sp_t o ctx = some (ThumbMemory.ldr_sp_t m.bus o ctx)
  run_thumb str_sp_t o ctx = some (ThumbMemory.str_sp_t m.bus o ctx)
  run_thumb ldmia_t o ctx = some (ThumbMemory.ldmia_t m.bus o ctx)
  run_thumb stmia_t o ctx = some (ThumbMemory.stmia_t m.bus o ctx)
  run_thumb pop_t o ctx = some (ThumbMemory.pop_t m.bus o ctx)
  run_thumb pop_pc_t o ctx = some (ThumbMemory.pop_pc_t m.bus o ctx)
  run_thumb push_t o ctx = some (ThumbMemory.push_t m.bus o ctx)
  run_thumb push_lr_t o ctx = some (ThumbMemory.push_lr_t m.bus o ctx)
  run_thumb swi_t o ctx = System.swi_t m host o ctx
  run_thumb inst_undefined_t o ctx = none
