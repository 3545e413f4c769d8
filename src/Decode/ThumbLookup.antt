-- ===== src/Decode/ThumbLookup.antt =====
-- src/jit/disassembler/thumb/lookup_table_thumb.rs: the thumb entries, 128 to a chunk.
use advanced_slop.Base.{List, ◌++◌, true, false, replicate}
use advanced_slop.Decode.Lines.{line4}
use advanced_slop.Decode.Op.{
  Op, single, multiple, adc_t, add_h_t, add_pc_t, add_sp_imm_t, add_sp_t, add_t, and_t, asr_t, b_t,
  bcc_t, bcs_t, beq_t, bge_t, bgt_t, bhi_t, bic_t, bl_off_t, bl_setup_t, ble_t, bls_t, blt_t,
  blx_off_t, blx_reg_t, bmi_t, bne_t, bpl_t, bvc_t, bvs_t, bx_reg_t, cmn_t, cmp_h_t, cmp_t, eor_t,
  ldm_t, ldr_t, lsl_t, lsr_t, mov_h_t, mov_t, mul_t, mvn_t, neg_t, orr_t, ror_t, sbc_t, stm_t,
  str_t, sub_t, swi_t, tst_t, unk_thumb,
}
use advanced_slop.Decode.ThumbHandlers.{
  ThumbFn, adc_dp_t, add_h_t, add_imm3_t, add_imm8_t, add_pc_t, add_reg_t, add_sp_imm_t, add_sp_t,
  and_dp_t, asr_dp_t, asr_imm_t, b_t, bcc_t, bcs_t, beq_t, bge_t, bgt_t, bhi_t, bic_dp_t, bl_off_t,
  bl_setup_t, ble_t, bls_t, blt_t, blx_off_t, blx_reg_t, bmi_t, bne_t, bpl_t, bvc_t, bvs_t,
  bx_reg_t, cmn_dp_t, cmp_dp_t, cmp_h_t, cmp_imm8_t, eor_dp_t, inst_undefined_t, ldmia_t,
  ldr_imm5_t, ldr_pc_t, ldr_reg_t, ldr_sp_t, ldrb_imm5_t, ldrb_reg_t, ldrh_imm5_t, ldrh_reg_t,
  ldrsb_reg_t, ldrsh_reg_t, lsl_dp_t, lsl_imm_t, lsr_dp_t, lsr_imm_t, mov_h_t, mov_imm8_t, mul_dp_t,
  mvn_dp_t, neg_dp_t, orr_dp_t, pop_pc_t, pop_t, push_lr_t, push_t, ror_dp_t, sbc_dp_t, stmia_t,
  str_imm5_t, str_reg_t, str_sp_t, strb_imm5_t, strb_reg_t, strh_imm5_t, strh_reg_t, sub_imm3_t,
  sub_imm8_t, sub_reg_t, swi_t, tst_dp_t,
}

abbrev pub thumb_lookup_chunk0 : List (Op × ThumbFn)
thumb_lookup_chunk0 =
    replicate 32 (lsl_t, lsl_imm_t)
    ++ replicate 32 (lsr_t, lsr_imm_t)
    ++ replicate 32 (asr_t, asr_imm_t)
    ++ replicate 8 (add_t, add_reg_t)
    ++ replicate 8 (sub_t, sub_reg_t)
    ++ replicate 8 (add_t, add_imm3_t)
    ++ replicate 8 (sub_t, sub_imm3_t)

abbrev pub thumb_lookup_chunk1 : List (Op × ThumbFn)
thumb_lookup_chunk1 =
    replicate 32 (mov_t, mov_imm8_t)
    ++ replicate 32 (cmp_t, cmp_imm8_t)
    ++ replicate 32 (add_t, add_imm8_t)
    ++ replicate 32 (sub_t, sub_imm8_t)

abbrev pub thumb_lookup_chunk2 : List (Op × ThumbFn)
thumb_lookup_chunk2 =
    line4 (and_t, and_dp_t) (eor_t, eor_dp_t) (lsl_t, lsl_dp_t) (lsr_t, lsr_dp_t)
    ++ line4 (asr_t, asr_dp_t) (adc_t, adc_dp_t) (sbc_t, sbc_dp_t) (ror_t, ror_dp_t)
    ++ line4 (tst_t, tst_dp_t) (neg_t, neg_dp_t) (cmp_t, cmp_dp_t) (cmn_t, cmn_dp_t)
    ++ line4 (orr_t, orr_dp_t) (mul_t, mul_dp_t) (bic_t, bic_dp_t) (mvn_t, mvn_dp_t)
    ++ replicate 4 (add_h_t, add_h_t)
    ++ replicate 4 (cmp_h_t, cmp_h_t)
    ++ replicate 4 (mov_h_t, mov_h_t)
    ++ line4 (bx_reg_t, bx_reg_t) (bx_reg_t, bx_reg_t) (blx_reg_t, blx_reg_t) (blx_reg_t, blx_reg_t)
    ++ replicate 32 (ldr_t (single true false true false 2), ldr_pc_t)
    ++ replicate 8 (str_t (single true false true false 2), str_reg_t)
    ++ replicate 8 (str_t (single true false true false 1), strh_reg_t)
    ++ replicate 8 (str_t (single true false true false 0), strb_reg_t)
    ++ replicate 8 (ldr_t (single true false true true 0), ldrsb_reg_t)
    ++ replicate 8 (ldr_t (single true false true false 2), ldr_reg_t)
    ++ replicate 8 (ldr_t (single true false true false 1), ldrh_reg_t)
    ++ replicate 8 (ldr_t (single true false true false 0), ldrb_reg_t)
    ++ replicate 8 (ldr_t (single true false true true 1), ldrsh_reg_t)

abbrev pub thumb_lookup_chunk3 : List (Op × ThumbFn)
thumb_lookup_chunk3 =
    replicate 32 (str_t (single true false true false 2), str_imm5_t)
    ++ replicate 32 (ldr_t (single true false true false 2), ldr_imm5_t)
    ++ replicate 32 (str_t (single true false true false 0), strb_imm5_t)
    ++ replicate 32 (ldr_t (single true false true false 0), ldrb_imm5_t)

abbrev pub thumb_lookup_chunk4 : List (Op × ThumbFn)
thumb_lookup_chunk4 =
    replicate 32 (str_t (single true false true false 1), strh_imm5_t)
    ++ replicate 32 (ldr_t (single true false true false 1), ldrh_imm5_t)
    ++ replicate 32 (str_t (single true false true false 2), str_sp_t)
    ++ replicate 32 (ldr_t (single true false true false 2), ldr_sp_t)

abbrev pub thumb_lookup_chunk5 : List (Op × ThumbFn)
thumb_lookup_chunk5 =
    replicate 32 (add_pc_t, add_pc_t)
    ++ replicate 32 (add_sp_t, add_sp_t)
    ++ replicate 4 (add_sp_imm_t, add_sp_imm_t)
    ++ replicate 12 (unk_thumb, inst_undefined_t)
    ++ replicate 4 (stm_t (multiple true true false false), push_t)
    ++ replicate 4 (stm_t (multiple true true false false), push_lr_t)
    ++ replicate 24 (unk_thumb, inst_undefined_t)
    ++ replicate 4 (ldm_t (multiple false true true false), pop_t)
    ++ replicate 4 (ldm_t (multiple false true true false), pop_pc_t)
    ++ replicate 8 (unk_thumb, inst_undefined_t)

abbrev pub thumb_lookup_chunk6 : List (Op × ThumbFn)
thumb_lookup_chunk6 =
    replicate 32 (stm_t (multiple false true true false), stmia_t)
    ++ replicate 32 (ldm_t (multiple false true true false), ldmia_t)
    ++ replicate 4 (beq_t, beq_t)
    ++ replicate 4 (bne_t, bne_t)
    ++ replicate 4 (bcs_t, bcs_t)
    ++ replicate 4 (bcc_t, bcc_t)
    ++ replicate 4 (bmi_t, bmi_t)
    ++ replicate 4 (bpl_t, bpl_t)
    ++ replicate 4 (bvs_t, bvs_t)
    ++ replicate 4 (bvc_t, bvc_t)
    ++ replicate 4 (bhi_t, bhi_t)
    ++ replicate 4 (bls_t, bls_t)
    ++ replicate 4 (bge_t, bge_t)
    ++ replicate 4 (blt_t, blt_t)
    ++ replicate 4 (bgt_t, bgt_t)
    ++ replicate 4 (ble_t, ble_t)
    ++ replicate 4 (unk_thumb, inst_undefined_t)
    ++ replicate 4 (swi_t, swi_t)

abbrev pub thumb_lookup_chunk7 : List (Op × ThumbFn)
thumb_lookup_chunk7 =
    replicate 32 (b_t, b_t)
    ++ replicate 32 (blx_off_t, blx_off_t)
    ++ replicate 32 (bl_setup_t, bl_setup_t)
    ++ replicate 32 (bl_off_t, bl_off_t)

unfoldable pub thumb_lookup_table : List (Op × ThumbFn)
thumb_lookup_table =
    thumb_lookup_chunk0 ++ thumb_lookup_chunk1 ++ thumb_lookup_chunk2 ++ thumb_lookup_chunk3
    ++ thumb_lookup_chunk4 ++ thumb_lookup_chunk5 ++ thumb_lookup_chunk6 ++ thumb_lookup_chunk7
