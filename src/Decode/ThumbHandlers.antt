-- ===== src/Decode/ThumbHandlers.antt =====
-- The thumb handlers of src/jit/interpreter by name.
pub data ThumbFn : Type 0 where
  lsl_imm_t lsr_imm_t asr_imm_t add_reg_t sub_reg_t add_imm3_t sub_imm3_t mov_imm8_t : ThumbFn
  cmp_imm8_t add_imm8_t sub_imm8_t and_dp_t eor_dp_t lsl_dp_t lsr_dp_t asr_dp_t : ThumbFn
  adc_dp_t sbc_dp_t ror_dp_t tst_dp_t neg_dp_t cmp_dp_t cmn_dp_t orr_dp_t mul_dp_t : ThumbFn
  bic_dp_t mvn_dp_t add_h_t cmp_h_t mov_h_t bx_reg_t blx_reg_t ldr_pc_t str_reg_t : ThumbFn
  strh_reg_t strb_reg_t ldrsb_reg_t ldr_reg_t ldrh_reg_t ldrb_reg_t ldrsh_reg_t : ThumbFn
  str_imm5_t ldr_imm5_t strb_imm5_t ldrb_imm5_t strh_imm5_t ldrh_imm5_t str_sp_t : ThumbFn
  ldr_sp_t add_pc_t add_sp_t add_sp_imm_t inst_undefined_t push_t push_lr_t pop_t : ThumbFn
  pop_pc_t stmia_t ldmia_t beq_t bne_t bcs_t bcc_t bmi_t bpl_t bvs_t bvc_t bhi_t bls_t : ThumbFn
  bge_t blt_t bgt_t ble_t swi_t b_t blx_off_t bl_setup_t bl_off_t : ThumbFn
