-- ===== src/Decode/ThumbTable.antt =====
-- src/jit/interpreter/thumb_table.rs: the thumb handlers of the interpreter, 64 lines to a chunk.
use advanced_slop.Base.{List, ◌++◌, replicate}
use advanced_slop.Decode.Lines.{line8}
use advanced_slop.Decode.ThumbHandlers.{
  ThumbFn, adc_dp_t, add_h_t, add_imm3_t, add_imm8_t, add_pc_t, add_reg_t, add_sp_imm_t, add_sp_t,
  and_dp_t, asr_dp_t, asr_imm_t, b_t, bcc_t, bcs_t, beq_t, bge_t, bgt_t, bhi_t, bic_dp_t, bl_off_t,
  bl_setup_t, ble_t, bls_t, blt_t, blx_off_t, blx_reg_t, bmi_t, bne_t, bpl_t, bvc_t, bvs_t,
  bx_reg_t, cmn_dp_t, cmp_dp_t, cmp_h_t, cmp_imm8_t, eor_dp_t, inst_undefined_t, ldmia_t,
  ldr_imm5_t, ldr_pc_t, ldr_reg_t, ldr_sp_t, ldrb_imm5_t, ldrb_reg_t, ldrh_imm5_t, ldrh_reg_t,
  ldrsb_reg_t, ldrsh_reg_t, lsl_dp_t, lsl_imm_t, lsr_dp_t, lsr_imm_t, mov_h_t, mov_imm8_t, mul_dp_t,
  mvn_dp_t, neg_dp_t, orr_dp_t, pop_pc_t, pop_t, push_lr_t, push_t, ror_dp_t, sbc_dp_t, stmia_t,
  str_imm5_t, str_reg_t, str_sp_t, strb_imm5_t, strb_reg_t, strh_imm5_t, strh_reg_t, sub_imm3_t,
  sub_imm8_t, sub_reg_t, swi_t, tst_dp_t,
}

abbrev pub thumb_chunk0 : List ThumbFn
thumb_chunk0 =
    replicate 32 lsl_imm_t
    ++ replicate 32 lsr_imm_t
    ++ replicate 32 asr_imm_t
    ++ replicate 8 add_reg_t
    ++ replicate 8 sub_reg_t
    ++ replicate 8 add_imm3_t
    ++ replicate 8 sub_imm3_t
    ++ replicate 32 mov_imm8_t
    ++ replicate 32 cmp_imm8_t
    ++ replicate 32 add_imm8_t
    ++ replicate 32 sub_imm8_t
    ++ line8 and_dp_t eor_dp_t lsl_dp_t lsr_dp_t asr_dp_t adc_dp_t sbc_dp_t ror_dp_t
    ++ line8 tst_dp_t neg_dp_t cmp_dp_t cmn_dp_t orr_dp_t mul_dp_t bic_dp_t mvn_dp_t
    ++ replicate 4 add_h_t
    ++ replicate 4 cmp_h_t
    ++ replicate 4 mov_h_t
    ++ line8 bx_reg_t bx_reg_t blx_reg_t blx_reg_t ldr_pc_t ldr_pc_t ldr_pc_t ldr_pc_t
    ++ replicate 28 ldr_pc_t
    ++ replicate 8 str_reg_t
    ++ replicate 8 strh_reg_t
    ++ replicate 8 strb_reg_t
    ++ replicate 8 ldrsb_reg_t
    ++ replicate 8 ldr_reg_t
    ++ replicate 8 ldrh_reg_t
    ++ replicate 8 ldrb_reg_t
    ++ replicate 8 ldrsh_reg_t
    ++ replicate 32 str_imm5_t
    ++ replicate 32 ldr_imm5_t
    ++ replicate 32 strb_imm5_t
    ++ replicate 32 ldrb_imm5_t

abbrev pub thumb_chunk1 : List ThumbFn
thumb_chunk1 =
    replicate 32 strh_imm5_t
    ++ replicate 32 ldrh_imm5_t
    ++ replicate 32 str_sp_t
    ++ replicate 32 ldr_sp_t
    ++ replicate 32 add_pc_t
    ++ replicate 32 add_sp_t
    ++ replicate 4 add_sp_imm_t
    ++ replicate 12 inst_undefined_t
    ++ replicate 4 push_t
    ++ replicate 4 push_lr_t
    ++ replicate 24 inst_undefined_t
    ++ replicate 4 pop_t
    ++ replicate 4 pop_pc_t
    ++ replicate 8 inst_undefined_t
    ++ replicate 32 stmia_t
    ++ replicate 32 ldmia_t
    ++ replicate 4 beq_t
    ++ replicate 4 bne_t
    ++ replicate 4 bcs_t
    ++ replicate 4 bcc_t
    ++ replicate 4 bmi_t
    ++ replicate 4 bpl_t
    ++ replicate 4 bvs_t
    ++ replicate 4 bvc_t
    ++ replicate 4 bhi_t
    ++ replicate 4 bls_t
    ++ replicate 4 bge_t
    ++ replicate 4 blt_t
    ++ replicate 4 bgt_t
    ++ replicate 4 ble_t
    ++ replicate 4 inst_undefined_t
    ++ replicate 4 swi_t
    ++ replicate 32 b_t
    ++ replicate 32 blx_off_t
    ++ replicate 32 bl_setup_t
    ++ replicate 32 bl_off_t

unfoldable pub thumb_table : List ThumbFn
thumb_table = thumb_chunk0 ++ thumb_chunk1
