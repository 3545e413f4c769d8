-- ===== src/Decode/Op.antt =====
-- src/jit/op.rs: the operations of the disassembler and the packed fields of the transfers.
pub mod Packing
use advanced_slop.Base.{ℕ, ◌*◌, ◌/◌, ◌^◌, Bool, true, false, of_bool, bit_or}
use advanced_slop.Base.Word.{has_bit, u8}

pub record SingleTransfer : Type 0 where
  pub bits : ℕ

pub record MultipleTransfer : Type 0 where
  pub bits : ℕ

-- The four flags of both, from bit 0 on.
abbrev pub flags : (f0 f1 f2 f3 : Bool) → ℕ
flags f0 f1 f2 f3 =
    bit_or (bit_or (bit_or (of_bool f0) (of_bool f1 * 2 ^ 1)) (of_bool f2 * 2 ^ 2))
      (of_bool f3 * 2 ^ 3)

-- `SingleTransfer::new` and the accessors.
unfoldable pub single : (pre write_back add signed : Bool) → (size : ℕ) → SingleTransfer
single pre write_back add signed size = record {
  bits = bit_or (flags pre write_back add signed) (u8 (size * 2 ^ 4));
}

-- `MultipleTransfer::new`
unfoldable pub multiple : (pre write_back add user : Bool) → MultipleTransfer
multiple pre write_back add user = record { bits = flags pre write_back add user }

unfoldable pub pre : SingleTransfer → Bool
pre t = has_bit t.bits 0

unfoldable pub write_back : SingleTransfer → Bool
write_back t = has_bit t.bits 1

unfoldable pub add_offset : SingleTransfer → Bool
add_offset t = has_bit t.bits 2

unfoldable pub signed : SingleTransfer → Bool
signed t = has_bit t.bits 3

unfoldable pub size : SingleTransfer → ℕ
size t = t.bits / 2 ^ 4

unfoldable pub pre_multiple : MultipleTransfer → Bool
pre_multiple t = has_bit t.bits 0

unfoldable pub write_back_multiple : MultipleTransfer → Bool
write_back_multiple t = has_bit t.bits 1

unfoldable pub add_multiple : MultipleTransfer → Bool
add_multiple t = has_bit t.bits 2

unfoldable pub user : MultipleTransfer → Bool
user t = has_bit t.bits 3

pub data Op : Type 0 where
  and eor sub rsb add adc sbc rsc tst teq cmp cmn orr mov bic mvn ands eors subs rsbs adds : Op
  adcs sbcs rscs orrs movs bics mvns b bl blx blx_reg bx clz mcr mla mlas mrc mrs_rc mrs_rs : Op
  msr_ic msr_is msr_rc msr_rs mul muls qadd qdadd qdsub qsub smlabb smlabt smlal smlalbb : Op
  smlalbt smlals smlaltb smlaltt smlatb smlatt smlawb smlawt smulbb smulbt smull smulls : Op
  smultb smultt smulwb smulwt swi swp swpb umlal umlals umull umulls unk_arm add_t sub_t : Op
  cmp_t mov_t lsl_t lsr_t asr_t ror_t and_t eor_t adc_t sbc_t tst_t cmn_t orr_t bic_t mvn_t : Op
  neg_t mul_t add_pc_t add_sp_t add_sp_imm_t add_h_t cmp_h_t mov_h_t b_t bcc_t bcs_t beq_t : Op
  bge_t bgt_t bhi_t bl_off_t bl_setup_t ble_t bls_t blt_t blx_off_t blx_reg_t bmi_t bne_t : Op
  bpl_t bvc_t bvs_t bx_reg_t swi_t unk_thumb : Op
  ldr str ldr_t str_t : SingleTransfer → Op
  ldm stm ldm_t stm_t : MultipleTransfer → Op

unfoldable pub is_branch : Op → Bool
is_branch bx = true
is_branch blx_reg = true
is_branch b = true
is_branch bl = true
is_branch blx = true
is_branch bx_reg_t = true
is_branch blx_reg_t = true
is_branch b_t = true
is_branch beq_t = true
is_branch bne_t = true
is_branch bcs_t = true
is_branch bcc_t = true
is_branch bmi_t = true
is_branch bpl_t = true
is_branch bvs_t = true
is_branch bvc_t = true
is_branch bhi_t = true
is_branch bls_t = true
is_branch bge_t = true
is_branch blt_t = true
is_branch bgt_t = true
is_branch ble_t = true
is_branch bl_off_t = true
is_branch blx_off_t = true
is_branch _ = false

unfoldable pub is_uncond_branch : Op → Bool
is_uncond_branch bx = true
is_uncond_branch blx_reg = true
is_uncond_branch b = true
is_uncond_branch bl = true
is_uncond_branch blx = true
is_uncond_branch bx_reg_t = true
is_uncond_branch blx_reg_t = true
is_uncond_branch b_t = true
is_uncond_branch bl_off_t = true
is_uncond_branch blx_off_t = true
is_uncond_branch _ = false

unfoldable pub is_labelled_branch : Op → Bool
is_labelled_branch b = true
is_labelled_branch bl = true
is_labelled_branch blx = true
is_labelled_branch b_t = true
is_labelled_branch beq_t = true
is_labelled_branch bne_t = true
is_labelled_branch bcs_t = true
is_labelled_branch bcc_t = true
is_labelled_branch bmi_t = true
is_labelled_branch bpl_t = true
is_labelled_branch bvs_t = true
is_labelled_branch bvc_t = true
is_labelled_branch bhi_t = true
is_labelled_branch bls_t = true
is_labelled_branch bge_t = true
is_labelled_branch blt_t = true
is_labelled_branch bgt_t = true
is_labelled_branch ble_t = true
is_labelled_branch _ = false

unfoldable pub is_single_mem_transfer : Op → Bool
is_single_mem_transfer (ldr _) = true
is_single_mem_transfer (ldr_t _) = true
is_single_mem_transfer (str _) = true
is_single_mem_transfer (str_t _) = true
is_single_mem_transfer _ = false

unfoldable pub is_multiple_mem_transfer : Op → Bool
is_multiple_mem_transfer (ldm _) = true
is_multiple_mem_transfer (ldm_t _) = true
is_multiple_mem_transfer (stm _) = true
is_multiple_mem_transfer (stm_t _) = true
is_multiple_mem_transfer _ = false

unfoldable pub is_write_mem_transfer : Op → Bool
is_write_mem_transfer (str _) = true
is_write_mem_transfer (str_t _) = true
is_write_mem_transfer (stm _) = true
is_write_mem_transfer (stm_t _) = true
is_write_mem_transfer _ = false

unfoldable pub is_alu : Op → Bool
is_alu and = true
is_alu eor = true
is_alu sub = true
is_alu rsb = true
is_alu add = true
is_alu adc = true
is_alu sbc = true
is_alu rsc = true
is_alu tst = true
is_alu teq = true
is_alu cmp = true
is_alu cmn = true
is_alu orr = true
is_alu mov = true
is_alu bic = true
is_alu mvn = true
is_alu ands = true
is_alu eors = true
is_alu subs = true
is_alu rsbs = true
is_alu adds = true
is_alu adcs = true
is_alu sbcs = true
is_alu rscs = true
is_alu orrs = true
is_alu movs = true
is_alu bics = true
is_alu mvns = true
is_alu add_t = true
is_alu sub_t = true
is_alu cmp_t = true
is_alu mov_t = true
is_alu lsl_t = true
is_alu lsr_t = true
is_alu asr_t = true
is_alu ror_t = true
is_alu and_t = true
is_alu eor_t = true
is_alu adc_t = true
is_alu sbc_t = true
is_alu tst_t = true
is_alu cmn_t = true
is_alu orr_t = true
is_alu bic_t = true
is_alu mvn_t = true
is_alu neg_t = true
is_alu mul_t = true
is_alu add_pc_t = true
is_alu add_sp_t = true
is_alu add_sp_imm_t = true
is_alu add_h_t = true
is_alu cmp_h_t = true
is_alu mov_h_t = true
is_alu _ = false

unfoldable pub is_thumb_alu_high : Op → Bool
is_thumb_alu_high add_sp_imm_t = true
is_thumb_alu_high add_h_t = true
is_thumb_alu_high cmp_h_t = true
is_thumb_alu_high mov_h_t = true
is_thumb_alu_high _ = false

unfoldable pub is_arm_alu2 : Op → Bool
is_arm_alu2 tst = true
is_arm_alu2 teq = true
is_arm_alu2 cmp = true
is_arm_alu2 cmn = true
is_arm_alu2 mov = true
is_arm_alu2 mvn = true
is_arm_alu2 movs = true
is_arm_alu2 mvns = true
is_arm_alu2 _ = false

unfoldable pub is_mov : Op → Bool
is_mov mov = true
is_mov movs = true
is_mov mov_t = true
is_mov mov_h_t = true
is_mov _ = false

unfoldable pub is_mul : Op → Bool
is_mul mul = true
is_mul muls = true
is_mul mla = true
is_mul mlas = true
is_mul smlabb = true
is_mul smlabt = true
is_mul smlal = true
is_mul smlalbb = true
is_mul smlalbt = true
is_mul smlals = true
is_mul smlaltb = true
is_mul smlaltt = true
is_mul smlatb = true
is_mul smlatt = true
is_mul smlawb = true
is_mul smlawt = true
is_mul smulbb = true
is_mul smulbt = true
is_mul smull = true
is_mul smulls = true
is_mul smultb = true
is_mul smultt = true
is_mul smulwb = true
is_mul smulwt = true
is_mul umull = true
is_mul umulls = true
is_mul umlal = true
is_mul umlals = true
is_mul _ = false
