-- ===== src/Decode/Ops.antt =====
-- The operation that belongs to a handler, by its name and its addressing.
use advanced_slop.Base.{ℕ, Bool, true, false}
use advanced_slop.Interp.Memory.{AddrMode, postindex, writes_back}
use advanced_slop.Decode.Op.{
  Op, SingleTransfer, MultipleTransfer, single, multiple, and, ands, eor, eors, sub, subs, rsb,
  rsbs, add, adds, adc, adcs, sbc, sbcs, rsc, rscs, tst, teq, cmp, cmn, orr, orrs, mov, movs, bic,
  bics, mvn, mvns, mul, muls, mla, mlas, umull, umulls, umlal, umlals, smull, smulls, smlal, smlals,
  qadd, qsub, qdadd, qdsub, smlabb, smlabt, smlatb, smlatt, smulbb, smulbt, smultb, smultt, smlawb,
  smlawt, smulwb, smulwt, smlalbb, smlalbt, smlaltb, smlaltt, clz, mrs_rc, mrs_rs, msr_rc, msr_rs,
  msr_ic, msr_is, b, bl, bx, blx_reg, swp, swpb, swi, mcr, mrc, ldr, str, ldm, stm, unk_arm,
}
use advanced_slop.Decode.Handlers.{
  ArmFn, SingleAddr, HalfAddr, BlockMode, single_generics, half_generics, block_form, and, ands,
  eor, eors, sub, subs, rsb, rsbs, add, adds, adc, adcs, sbc, sbcs, rsc, rscs, tst, teq, cmp, cmn,
  orr, orrs, mov, movs, bic, bics, mvn, mvns, ldr, str, ldrb, strb, ldrh, strh, ldrsb, ldrsh, ldrd,
  strd, ldm, stm, mul, muls, mla, mlas, umull, umulls, umlal, umlals, smull, smulls, smlal, smlals,
  qadd, qsub, qdadd, qdsub, smlabb, smlabt, smlatb, smlatt, smulbb, smulbt, smultb, smultt, smlawb,
  smlawt, smulwb, smulwt, smlalbb, smlalbt, smlaltb, smlaltt, clz, mrs_rc, mrs_rs, msr_rc, msr_rs,
  msr_ic, msr_is, b, bl, bx, blx_reg, swp, swpb, swi, mcr, mrc, inst_undefined,
}

abbrev is_pre : AddrMode → Bool
is_pre postindex = false
is_pre _ = true

abbrev pub transfer_of : AddrMode → (up signed : Bool) → ℕ → SingleTransfer
transfer_of mode up signed size = single (is_pre mode) (writes_back mode) up signed size

abbrev pub word_of : ℕ → SingleAddr → SingleTransfer
word_of size a = let (mode, up, form) = single_generics a in transfer_of mode up false size

abbrev pub half_of : (signed : Bool) → ℕ → HalfAddr → SingleTransfer
half_of signed size a =
    let (mode, up, by_register) = half_generics a in transfer_of mode up signed size

abbrev pub block_of : BlockMode → MultipleTransfer
block_of m = let f = block_form m in multiple f.pre f.wb f.up f.user

unfoldable pub op_of : ArmFn → Op
unfolding single_generics half_generics block_form
op_of (and _) = and
op_of (ands _) = ands
op_of (eor _) = eor
op_of (eors _) = eors
op_of (sub _) = sub
op_of (subs _) = subs
op_of (rsb _) = rsb
op_of (rsbs _) = rsbs
op_of (add _) = add
op_of (adds _) = adds
op_of (adc _) = adc
op_of (adcs _) = adcs
op_of (sbc _) = sbc
op_of (sbcs _) = sbcs
op_of (rsc _) = rsc
op_of (rscs _) = rscs
op_of (tst _) = tst
op_of (teq _) = teq
op_of (cmp _) = cmp
op_of (cmn _) = cmn
op_of (orr _) = orr
op_of (orrs _) = orrs
op_of (mov _) = mov
op_of (movs _) = movs
op_of (bic _) = bic
op_of (bics _) = bics
op_of (mvn _) = mvn
op_of (mvns _) = mvns
op_of (ldr a) = ldr (word_of 2 a)
op_of (str a) = str (word_of 2 a)
op_of (ldrb a) = ldr (word_of 0 a)
op_of (strb a) = str (word_of 0 a)
op_of (ldrh a) = ldr (half_of false 1 a)
op_of (strh a) = str (half_of false 1 a)
op_of (ldrsb a) = ldr (half_of true 0 a)
op_of (ldrsh a) = ldr (half_of true 1 a)
op_of (ldrd a) = ldr (half_of false 3 a)
op_of (strd a) = str (half_of false 3 a)
op_of (ldm m) = ldm (block_of m)
op_of (stm m) = stm (block_of m)
op_of mul = mul
op_of muls = muls
op_of mla = mla
op_of mlas = mlas
op_of umull = umull
op_of umulls = umulls
op_of umlal = umlal
op_of umlals = umlals
op_of smull = smull
op_of smulls = smulls
op_of smlal = smlal
op_of smlals = smlals
op_of qadd = qadd
op_of qsub = qsub
op_of qdadd = qdadd
op_of qdsub = qdsub
op_of smlabb = smlabb
op_of smlabt = smlabt
op_of smlatb = smlatb
op_of smlatt = smlatt
op_of smulbb = smulbb
op_of smulbt = smulbt
op_of smultb = smultb
op_of smultt = smultt
op_of smlawb = smlawb
op_of smlawt = smlawt
op_of smulwb = smulwb
op_of smulwt = smulwt
op_of smlalbb = smlalbb
op_of smlalbt = smlalbt
op_of smlaltb = smlaltb
op_of smlaltt = smlaltt
op_of clz = clz
op_of mrs_rc = mrs_rc
op_of mrs_rs = mrs_rs
op_of msr_rc = msr_rc
op_of msr_rs = msr_rs
op_of msr_ic = msr_ic
op_of msr_is = msr_is
op_of b = b
op_of bl = bl
op_of bx = bx
op_of blx_reg = blx_reg
op_of swp = swp
op_of swpb = swpb
op_of swi = swi
op_of mcr = mcr
op_of mrc = mrc
op_of inst_undefined = unk_arm
