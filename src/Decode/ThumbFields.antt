-- ===== src/Decode/ThumbFields.antt =====
-- The thumb instruction set by bits 15 to 6 of an opcode, from the architecture's encoding, and the
-- operation of each handler.
use advanced_slop.Base.{ℕ, ◌-◌, ◌/◌, ◌%◌, true, false, ◌==◌, ltb, if◌then◌else◌, [], ◌∷◌, get_or}
use advanced_slop.Base.Word.{has_bit}
use advanced_slop.Decode.Op.{
  Op, single, multiple, adc_t, add_h_t, add_pc_t, add_sp_imm_t, add_sp_t, add_t, and_t, asr_t, b_t,
  bcc_t, bcs_t, beq_t, bge_t, bgt_t, bhi_t, bic_t, bl_off_t, bl_setup_t, ble_t, bls_t, blt_t,
  blx_off_t, blx_reg_t, bmi_t, bne_t, bpl_t, bvc_t, bvs_t, bx_reg_t, cmn_t, cmp_h_t, cmp_t, eor_t,
  ldm_t, ldr_t, lsl_t, lsr_t, mov_h_t, mov_t, mul_t, mvn_t, neg_t, orr_t, ror_t, sbc_t, stm_t,
  str_t, sub_t, swi_t, tst_t, unk_thumb,
}
use advanced_slop.Decode.ThumbHandlers.{
  ThumbFn, lsl_imm_t, lsr_imm_t, asr_imm_t, add_reg_t, sub_reg_t, add_imm3_t, sub_imm3_t,
  mov_imm8_t, cmp_imm8_t, add_imm8_t, sub_imm8_t, and_dp_t, eor_dp_t, lsl_dp_t, lsr_dp_t, asr_dp_t,
  adc_dp_t, sbc_dp_t, ror_dp_t, tst_dp_t, neg_dp_t, cmp_dp_t, cmn_dp_t, orr_dp_t, mul_dp_t,
  bic_dp_t, mvn_dp_t, add_h_t, cmp_h_t, mov_h_t, bx_reg_t, blx_reg_t, ldr_pc_t, str_reg_t,
  strh_reg_t, strb_reg_t, ldrsb_reg_t, ldr_reg_t, ldrh_reg_t, ldrb_reg_t, ldrsh_reg_t, str_imm5_t,
  ldr_imm5_t, strb_imm5_t, ldrb_imm5_t, strh_imm5_t, ldrh_imm5_t, str_sp_t, ldr_sp_t, add_pc_t,
  add_sp_t, add_sp_imm_t, inst_undefined_t, push_t, push_lr_t, pop_t, pop_pc_t, stmia_t, ldmia_t,
  beq_t, bne_t, bcs_t, bcc_t, bmi_t, bpl_t, bvs_t, bvc_t, bhi_t, bls_t, bge_t, blt_t, bgt_t, ble_t,
  swi_t, b_t, blx_off_t, bl_setup_t, bl_off_t,
}

-- Bits 9 to 6 of a data processing opcode.
abbrev pub data_processing_t : ℕ → ThumbFn
data_processing_t n =
    get_or
      (and_dp_t ∷ eor_dp_t ∷ lsl_dp_t ∷ lsr_dp_t ∷ asr_dp_t ∷ adc_dp_t ∷ sbc_dp_t ∷ ror_dp_t
        ∷ tst_dp_t ∷ neg_dp_t ∷ cmp_dp_t ∷ cmn_dp_t ∷ orr_dp_t ∷ mul_dp_t ∷ bic_dp_t ∷ mvn_dp_t
        ∷ [])
      n inst_undefined_t

-- High registers: bits 9 and 8 choose the operation, bit 7 the linking exchange.
abbrev pub high_t : ℕ → ThumbFn
high_t i =
    get_or (add_h_t ∷ cmp_h_t ∷ mov_h_t ∷ []) (i / 4 % 4)
      (if has_bit i 1 then blx_reg_t else bx_reg_t)

abbrev pub register_offset_t : ℕ → ThumbFn
register_offset_t n =
    get_or
      (str_reg_t ∷ strh_reg_t ∷ strb_reg_t ∷ ldrsb_reg_t ∷ ldr_reg_t ∷ ldrh_reg_t ∷ ldrb_reg_t
        ∷ ldrsh_reg_t ∷ [])
      n inst_undefined_t

abbrev pub misc_t : ℕ → ThumbFn
misc_t n =
    if n == 0
    then add_sp_imm_t
    else if n == 4
    then push_t
    else if n == 5
    then push_lr_t
    else if n == 12
    then pop_t
    else if n == 13
    then pop_pc_t
    else inst_undefined_t

-- The condition 14 is undefined, 15 is the software interrupt.
abbrev pub conditional_t : ℕ → ThumbFn
conditional_t n =
    get_or
      (beq_t ∷ bne_t ∷ bcs_t ∷ bcc_t ∷ bmi_t ∷ bpl_t ∷ bvs_t ∷ bvc_t ∷ bhi_t ∷ bls_t ∷ bge_t ∷ blt_t
        ∷ bgt_t ∷ ble_t ∷ inst_undefined_t ∷ swi_t ∷ [])
      n inst_undefined_t

-- Bits 15 to 11, where they choose a handler by themselves.
abbrev pub group_t : ℕ → ThumbFn
group_t g =
    if ltb g 16
    then get_or
        (lsl_imm_t ∷ lsr_imm_t ∷ asr_imm_t ∷ inst_undefined_t ∷ mov_imm8_t ∷ cmp_imm8_t ∷ add_imm8_t
          ∷ sub_imm8_t ∷ inst_undefined_t ∷ ldr_pc_t ∷ inst_undefined_t ∷ inst_undefined_t
          ∷ str_imm5_t ∷ ldr_imm5_t ∷ strb_imm5_t ∷ ldrb_imm5_t ∷ [])
        g inst_undefined_t
    else get_or
        (strh_imm5_t ∷ ldrh_imm5_t ∷ str_sp_t ∷ ldr_sp_t ∷ add_pc_t ∷ add_sp_t ∷ inst_undefined_t
          ∷ inst_undefined_t ∷ stmia_t ∷ ldmia_t ∷ inst_undefined_t ∷ inst_undefined_t ∷ b_t
          ∷ blx_off_t ∷ bl_setup_t ∷ bl_off_t ∷ [])
        (g - 16) inst_undefined_t

unfoldable pub thumb_fields : ℕ → ThumbFn
thumb_fields i =
    let g : ℕ = i / 32 in
    if g == 3
    then get_or (add_reg_t ∷ sub_reg_t ∷ add_imm3_t ∷ sub_imm3_t ∷ []) (i / 8 % 4) add_reg_t
    else if g == 8
    then (if has_bit i 4 then high_t i else data_processing_t (i % 16))
    else if g / 2 == 5
    then register_offset_t (i / 8 % 8)
    else if g / 2 == 11
    then misc_t (i / 4 % 16)
    else if g / 2 == 13
    then conditional_t (i / 4 % 16)
    else group_t g

unfoldable pub thumb_op_of : ThumbFn → Op
thumb_op_of lsl_imm_t = lsl_t
thumb_op_of lsr_imm_t = lsr_t
thumb_op_of asr_imm_t = asr_t
thumb_op_of add_reg_t = add_t
thumb_op_of sub_reg_t = sub_t
thumb_op_of add_imm3_t = add_t
thumb_op_of sub_imm3_t = sub_t
thumb_op_of mov_imm8_t = mov_t
thumb_op_of cmp_imm8_t = cmp_t
thumb_op_of add_imm8_t = add_t
thumb_op_of sub_imm8_t = sub_t
thumb_op_of and_dp_t = and_t
thumb_op_of eor_dp_t = eor_t
thumb_op_of lsl_dp_t = lsl_t
thumb_op_of lsr_dp_t = lsr_t
thumb_op_of asr_dp_t = asr_t
thumb_op_of adc_dp_t = adc_t
thumb_op_of sbc_dp_t = sbc_t
thumb_op_of ror_dp_t = ror_t
thumb_op_of tst_dp_t = tst_t
thumb_op_of neg_dp_t = neg_t
thumb_op_of cmp_dp_t = cmp_t
thumb_op_of cmn_dp_t = cmn_t
thumb_op_of orr_dp_t = orr_t
thumb_op_of mul_dp_t = mul_t
thumb_op_of bic_dp_t = bic_t
thumb_op_of mvn_dp_t = mvn_t
thumb_op_of add_h_t = add_h_t
thumb_op_of cmp_h_t = cmp_h_t
thumb_op_of mov_h_t = mov_h_t
thumb_op_of bx_reg_t = bx_reg_t
thumb_op_of blx_reg_t = blx_reg_t
thumb_op_of ldr_pc_t = ldr_t (single true false true false 2)
thumb_op_of str_reg_t = str_t (single true false true false 2)
thumb_op_of strh_reg_t = str_t (single true false true false 1)
thumb_op_of strb_reg_t = str_t (single true false true false 0)
thumb_op_of ldrsb_reg_t = ldr_t (single true false true true 0)
thumb_op_of ldr_reg_t = ldr_t (single true false true false 2)
thumb_op_of ldrh_reg_t = ldr_t (single true false true false 1)
thumb_op_of ldrb_reg_t = ldr_t (single true false true false 0)
thumb_op_of ldrsh_reg_t = ldr_t (single true false true true 1)
thumb_op_of str_imm5_t = str_t (single true false true false 2)
thumb_op_of ldr_imm5_t = ldr_t (single true false true false 2)
thumb_op_of strb_imm5_t = str_t (single true false true false 0)
thumb_op_of ldrb_imm5_t = ldr_t (single true false true false 0)
thumb_op_of strh_imm5_t = str_t (single true false true false 1)
thumb_op_of ldrh_imm5_t = ldr_t (single true false true false 1)
thumb_op_of str_sp_t = str_t (single true false true false 2)
thumb_op_of ldr_sp_t = ldr_t (single true false true false 2)
thumb_op_of add_pc_t = add_pc_t
thumb_op_of add_sp_t = add_sp_t
thumb_op_of add_sp_imm_t = add_sp_imm_t
thumb_op_of inst_undefined_t = unk_thumb
thumb_op_of push_t = stm_t (multiple true true false false)
thumb_op_of push_lr_t = stm_t (multiple true true false false)
thumb_op_of pop_t = ldm_t (multiple false true true false)
thumb_op_of pop_pc_t = ldm_t (multiple false true true false)
thumb_op_of stmia_t = stm_t (multiple false true true false)
thumb_op_of ldmia_t = ldm_t (multiple false true true false)
thumb_op_of beq_t = beq_t
thumb_op_of bne_t = bne_t
thumb_op_of bcs_t = bcs_t
thumb_op_of bcc_t = bcc_t
thumb_op_of bmi_t = bmi_t
thumb_op_of bpl_t = bpl_t
thumb_op_of bvs_t = bvs_t
thumb_op_of bvc_t = bvc_t
thumb_op_of bhi_t = bhi_t
thumb_op_of bls_t = bls_t
thumb_op_of bge_t = bge_t
thumb_op_of blt_t = blt_t
thumb_op_of bgt_t = bgt_t
thumb_op_of ble_t = ble_t
thumb_op_of swi_t = swi_t
thumb_op_of b_t = b_t
thumb_op_of blx_off_t = blx_off_t
thumb_op_of bl_setup_t = bl_setup_t
thumb_op_of bl_off_t = bl_off_t
