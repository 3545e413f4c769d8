-- ===== src/Decode/Fields.antt =====
-- The ARM instruction set by the fields of an opcode: bits 27 to 20 (`hi`) and bits 7 to 4 (`lo`),
-- from the architecture's encoding and not from the tables.
use advanced_slop.Base.{
  ℕ, ◌+◌, ◌-◌, ◌*◌, ◌/◌, ◌%◌, Bool, true, false, not, ◌&&◌, ◌==◌, leb, if◌then◌else◌, [], ◌∷◌,
  get_or,
}
use advanced_slop.Base.Word.{has_bit}
use advanced_slop.Interp.Shifter.{ShiftForm, lli, llr, lri, lrr, ari, arr, rri, rrr, imm}
use advanced_slop.Interp.Memory.{
  AddrMode, offset, preindex, postindex, OffsetForm, immediate, by_lsl, by_lsr, by_asr, by_ror,
}
use advanced_slop.Decode.Handlers.{
  ArmFn, SingleAddr, HalfAddr, BlockMode, and, ands, eor, eors, sub, subs, rsb, rsbs, add, adds,
  adc, adcs, sbc, sbcs, rsc, rscs, tst, teq, cmp, cmn, orr, orrs, mov, movs, bic, bics, mvn, mvns,
  ldr, str, ldrb, strb, ldrh, strh, ldrsb, ldrsh, ldrd, strd, ldm, stm, mul, muls, mla, mlas, umull,
  umulls, umlal, umlals, smull, smulls, smlal, smlals, qadd, qsub, qdadd, qdsub, smlabb, smlabt,
  smlatb, smlatt, smulbb, smulbt, smultb, smultt, smlawb, smlawt, smulwb, smulwt, smlalbb, smlalbt,
  smlaltb, smlaltt, clz, mrs_rc, mrs_rs, msr_rc, msr_rs, msr_ic, msr_is, b, bl, bx, blx_reg, swp,
  swpb, swi, mcr, mrc, inst_undefined, ofip, ofim, ofrpll, ofrplr, ofrpar, ofrprr, ofrmll, ofrmlr,
  ofrmar, ofrmrr, prip, prim, prrpll, prrplr, prrpar, prrprr, prrmll, prrmlr, prrmar, prrmrr, ptip,
  ptim, ptrpll, ptrplr, ptrpar, ptrprr, ptrmll, ptrmlr, ptrmar, ptrmrr, ofrp, ofrm, prrp, prrm,
  ptrp, ptrm, ia, ia_w, ia_u, ia_u_w, ib, ib_w, ib_u, ib_u_w, da, da_w, da_u, da_u_w, db, db_w,
  db_u, db_u_w,
}

unfoldable pub single_addr : AddrMode → (up : Bool) → OffsetForm → SingleAddr
single_addr offset true immediate = ofip
single_addr offset false immediate = ofim
single_addr offset true by_lsl = ofrpll
single_addr offset true by_lsr = ofrplr
single_addr offset true by_asr = ofrpar
single_addr offset true by_ror = ofrprr
single_addr offset false by_lsl = ofrmll
single_addr offset false by_lsr = ofrmlr
single_addr offset false by_asr = ofrmar
single_addr offset false by_ror = ofrmrr
single_addr preindex true immediate = prip
single_addr preindex false immediate = prim
single_addr preindex true by_lsl = prrpll
single_addr preindex true by_lsr = prrplr
single_addr preindex true by_asr = prrpar
single_addr preindex true by_ror = prrprr
single_addr preindex false by_lsl = prrmll
single_addr preindex false by_lsr = prrmlr
single_addr preindex false by_asr = prrmar
single_addr preindex false by_ror = prrmrr
single_addr postindex true immediate = ptip
single_addr postindex false immediate = ptim
single_addr postindex true by_lsl = ptrpll
single_addr postindex true by_lsr = ptrplr
single_addr postindex true by_asr = ptrpar
single_addr postindex true by_ror = ptrprr
single_addr postindex false by_lsl = ptrmll
single_addr postindex false by_lsr = ptrmlr
single_addr postindex false by_asr = ptrmar
single_addr postindex false by_ror = ptrmrr

unfoldable pub half_addr : AddrMode → (up by_register : Bool) → HalfAddr
half_addr offset true false = ofip
half_addr offset false false = ofim
half_addr offset true true = ofrp
half_addr offset false true = ofrm
half_addr preindex true false = prip
half_addr preindex false false = prim
half_addr preindex true true = prrp
half_addr preindex false true = prrm
half_addr postindex true false = ptip
half_addr postindex false false = ptim
half_addr postindex true true = ptrp
half_addr postindex false true = ptrm

unfoldable pub block_mode : (pre up user wb : Bool) → BlockMode
block_mode false true false false = ia
block_mode false true false true = ia_w
block_mode false true true false = ia_u
block_mode false true true true = ia_u_w
block_mode true true false false = ib
block_mode true true false true = ib_w
block_mode true true true false = ib_u
block_mode true true true true = ib_u_w
block_mode false false false false = da
block_mode false false false true = da_w
block_mode false false true false = da_u
block_mode false false true true = da_u_w
block_mode true false false false = db
block_mode true false false true = db_w
block_mode true false true false = db_u
block_mode true false true true = db_u_w

-- Bit 24 is P, bit 21 is W.
abbrev pub mode_of : ℕ → AddrMode
mode_of hi = if has_bit hi 4 then (if has_bit hi 1 then preindex else offset) else postindex

-- Bits 24 to 21 choose the operation, bit 20 is S.
abbrev pub data_processing : ℕ → ShiftForm → ArmFn
data_processing hi form =
    get_or
      (if has_bit hi 0
        then ands ∷ eors ∷ subs ∷ rsbs ∷ adds ∷ adcs ∷ sbcs ∷ rscs ∷ tst ∷ teq ∷ cmp ∷ cmn ∷ orrs
          ∷ movs ∷ bics ∷ mvns ∷ []
        else and ∷ eor ∷ sub ∷ rsb ∷ add ∷ adc ∷ sbc ∷ rsc ∷ tst ∷ teq ∷ cmp ∷ cmn ∷ orr ∷ mov ∷ bic
          ∷ mvn ∷ [])
      (hi / 2 % 16) and form

abbrev pub shift_form : ℕ → ShiftForm
shift_form lo = get_or (lli ∷ llr ∷ lri ∷ lrr ∷ ari ∷ arr ∷ rri ∷ rrr ∷ []) (lo % 8) lli

abbrev pub offset_form : ℕ → OffsetForm
offset_form lo = get_or (by_lsl ∷ by_lsr ∷ by_asr ∷ by_ror ∷ []) (lo / 2 % 4) by_lsl

abbrev pub multiply : ℕ → ArmFn
multiply hi =
    get_or
      (mul ∷ muls ∷ mla ∷ mlas ∷ inst_undefined ∷ inst_undefined ∷ inst_undefined ∷ inst_undefined
        ∷ umull ∷ umulls ∷ umlal ∷ umlals ∷ smull ∷ smulls ∷ smlal ∷ smlals ∷ [])
      hi inst_undefined

abbrev pub multiply_or_swap : ℕ → ArmFn
multiply_or_swap hi = if hi == 0x10 then swp else if hi == 0x14 then swpb else multiply hi

-- Bit 20 is L, bits 6 and 5 the size; bit 22 chooses the immediate offset.
abbrev pub halfword : ℕ → ℕ → ArmFn
halfword hi lo =
    get_or (if has_bit hi 0 then ldrh ∷ ldrsb ∷ ldrsh ∷ [] else strh ∷ ldrd ∷ strd ∷ [])
      (lo / 2 % 4 - 1) ldrh (half_addr (mode_of hi) (has_bit hi 3) (not (has_bit hi 2)))

-- A comparison without S: bits 22 and 21 choose the column.
abbrev pub is_misc : ℕ → Bool
is_misc hi = hi / 8 % 4 == 2 && not (has_bit hi 0)

abbrev pub halfword_multiply : ℕ → ℕ → ArmFn
halfword_multiply column lo =
    get_or
      (if column == 0
        then smlabb ∷ smlatb ∷ smlabt ∷ smlatt ∷ []
        else if column == 1
        then smlawb ∷ smulwb ∷ smlawt ∷ smulwt ∷ []
        else if column == 2
        then smlalbb ∷ smlaltb ∷ smlalbt ∷ smlaltt ∷ []
        else smulbb ∷ smultb ∷ smulbt ∷ smultt ∷ [])
      (lo / 2 % 4) inst_undefined

abbrev pub misc : ℕ → ℕ → ArmFn
misc column lo =
    if leb 8 lo
    then (if has_bit lo 0 then inst_undefined else halfword_multiply column lo)
    else if lo == 0
    then get_or (mrs_rc ∷ msr_rc ∷ mrs_rs ∷ msr_rs ∷ []) column inst_undefined
    else if lo == 1
    then get_or (inst_undefined ∷ bx ∷ inst_undefined ∷ clz ∷ []) column inst_undefined
    else if lo == 3
    then (if column == 1 then blx_reg else inst_undefined)
    else if lo == 5
    then get_or (qadd ∷ qsub ∷ qdadd ∷ qdsub ∷ []) column inst_undefined
    else inst_undefined

-- Bits 27 to 25 are 0.
abbrev pub register_group : ℕ → ℕ → ArmFn
register_group hi lo =
    if has_bit lo 0 && has_bit lo 3
    then (if lo / 2 % 4 == 0 then multiply_or_swap hi else halfword hi lo)
    else if is_misc hi
    then misc (hi / 2 % 4) lo
    else data_processing hi (shift_form lo)

abbrev pub immediate_group : ℕ → ArmFn
immediate_group hi =
    if is_misc hi
    then get_or (inst_undefined ∷ msr_ic ∷ inst_undefined ∷ msr_is ∷ []) (hi / 2 % 4) inst_undefined
    else data_processing hi imm

-- Bit 22 is B. The user-mode transfers, postindexed with W, are not decoded.
abbrev pub single_transfer : ℕ → OffsetForm → ArmFn
single_transfer hi form =
    if not (has_bit hi 4) && has_bit hi 1
    then inst_undefined
    else get_or (str ∷ ldr ∷ strb ∷ ldrb ∷ []) (hi / 4 % 2 * 2 + hi % 2) str
        (single_addr (mode_of hi) (has_bit hi 3) form)

abbrev pub block_transfer : ℕ → ArmFn
block_transfer hi =
    (if has_bit hi 0 then ldm else stm)
      (block_mode (has_bit hi 4) (has_bit hi 3) (has_bit hi 2) (has_bit hi 1))

abbrev pub coprocessor_or_swi : ℕ → ℕ → ArmFn
coprocessor_or_swi hi lo =
    if has_bit hi 4
    then swi
    else if has_bit lo 0
    then (if has_bit hi 0 then mrc else mcr)
    else inst_undefined

unfoldable pub arm_fields : (hi lo : ℕ) → ArmFn
unfolding single_addr half_addr block_mode
arm_fields hi lo =
    let group : ℕ = hi / 32 in
    if group == 0
    then register_group hi lo
    else if group == 1
    then immediate_group hi
    else if group == 2
    then single_transfer hi immediate
    else if group == 3
    then (if has_bit lo 0 then inst_undefined else single_transfer hi (offset_form lo))
    else if group == 4
    then block_transfer hi
    else if group == 5
    then (if has_bit hi 4 then bl else b)
    else if group == 7
    then coprocessor_or_swi hi lo
    else inst_undefined
