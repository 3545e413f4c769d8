-- ===== src/Decode/Handlers.antt =====
-- The ARM handlers by name: src/jit/interpreter has a function for each, made by macros from the parts
-- of its name. `and_lli` is `and lli` here, `ldr_ofrpll` is `ldr ofrpll`, `ldmia_u_w` is `ldm ia_u_w`.
use advanced_slop.Base.{Bool, true, false}
use advanced_slop.Interp.Shifter.{ShiftForm}
use advanced_slop.Interp.Memory.{
  AddrMode, offset, preindex, postindex, OffsetForm, immediate, by_lsl, by_lsr, by_asr, by_ror,
}
use advanced_slop.Interp.Memory.Block.{BlockForm}

-- `ldr_str_addr!`: the variants of the word and byte transfers.
pub data SingleAddr : Type 0 where
  ofip ofim ofrpll ofrplr ofrpar ofrprr ofrmll ofrmlr ofrmar ofrmrr prip prim prrpll : SingleAddr
  prrplr prrpar prrprr prrmll prrmlr prrmar prrmrr ptip ptim ptrpll ptrplr ptrpar : SingleAddr
  ptrprr ptrmll ptrmlr ptrmar ptrmrr : SingleAddr

-- `half_addr!` and `dword_addr!`
pub data HalfAddr : Type 0 where
  ofip ofim ofrp ofrm prip prim prrp prrm ptip ptim ptrp ptrm : HalfAddr

-- `ldm_stm_modes!`
pub data BlockMode : Type 0 where
  ia ia_w ia_u ia_u_w ib ib_w ib_u ib_u_w da da_w da_u da_u_w db db_w db_u db_u_w : BlockMode

-- `ADDR`, `UP` and `OFFK` of a variant.
unfoldable pub single_generics : SingleAddr → AddrMode × Bool × OffsetForm
single_generics ofip = (offset, true, immediate)
single_generics ofim = (offset, false, immediate)
single_generics ofrpll = (offset, true, by_lsl)
single_generics ofrplr = (offset, true, by_lsr)
single_generics ofrpar = (offset, true, by_asr)
single_generics ofrprr = (offset, true, by_ror)
single_generics ofrmll = (offset, false, by_lsl)
single_generics ofrmlr = (offset, false, by_lsr)
single_generics ofrmar = (offset, false, by_asr)
single_generics ofrmrr = (offset, false, by_ror)
single_generics prip = (preindex, true, immediate)
single_generics prim = (preindex, false, immediate)
single_generics prrpll = (preindex, true, by_lsl)
single_generics prrplr = (preindex, true, by_lsr)
single_generics prrpar = (preindex, true, by_asr)
single_generics prrprr = (preindex, true, by_ror)
single_generics prrmll = (preindex, false, by_lsl)
single_generics prrmlr = (preindex, false, by_lsr)
single_generics prrmar = (preindex, false, by_asr)
single_generics prrmrr = (preindex, false, by_ror)
single_generics ptip = (postindex, true, immediate)
single_generics ptim = (postindex, false, immediate)
single_generics ptrpll = (postindex, true, by_lsl)
single_generics ptrplr = (postindex, true, by_lsr)
single_generics ptrpar = (postindex, true, by_asr)
single_generics ptrprr = (postindex, true, by_ror)
single_generics ptrmll = (postindex, false, by_lsl)
single_generics ptrmlr = (postindex, false, by_lsr)
single_generics ptrmar = (postindex, false, by_asr)
single_generics ptrmrr = (postindex, false, by_ror)

-- `ADDR`, `UP` and `REG`.
unfoldable pub half_generics : HalfAddr → AddrMode × Bool × Bool
half_generics ofip = (offset, true, false)
half_generics ofim = (offset, false, false)
half_generics ofrp = (offset, true, true)
half_generics ofrm = (offset, false, true)
half_generics prip = (preindex, true, false)
half_generics prim = (preindex, false, false)
half_generics prrp = (preindex, true, true)
half_generics prrm = (preindex, false, true)
half_generics ptip = (postindex, true, false)
half_generics ptim = (postindex, false, false)
half_generics ptrp = (postindex, true, true)
half_generics ptrm = (postindex, false, true)

unfoldable pub block_form : BlockMode → BlockForm
block_form ia = record { pre = false; up = true; user = false; wb = false }
block_form ia_w = record { pre = false; up = true; user = false; wb = true }
block_form ia_u = record { pre = false; up = true; user = true; wb = false }
block_form ia_u_w = record { pre = false; up = true; user = true; wb = true }
block_form ib = record { pre = true; up = true; user = false; wb = false }
block_form ib_w = record { pre = true; up = true; user = false; wb = true }
block_form ib_u = record { pre = true; up = true; user = true; wb = false }
block_form ib_u_w = record { pre = true; up = true; user = true; wb = true }
block_form da = record { pre = false; up = false; user = false; wb = false }
block_form da_w = record { pre = false; up = false; user = false; wb = true }
block_form da_u = record { pre = false; up = false; user = true; wb = false }
block_form da_u_w = record { pre = false; up = false; user = true; wb = true }
block_form db = record { pre = true; up = false; user = false; wb = false }
block_form db_w = record { pre = true; up = false; user = false; wb = true }
block_form db_u = record { pre = true; up = false; user = true; wb = false }
block_form db_u_w = record { pre = true; up = false; user = true; wb = true }

pub data ArmFn : Type 0 where
  and ands eor eors sub subs rsb rsbs add adds adc adcs sbc sbcs rsc rscs tst : ShiftForm → ArmFn
  teq cmp cmn orr orrs mov movs bic bics mvn mvns : ShiftForm → ArmFn
  ldr str ldrb strb : SingleAddr → ArmFn
  ldrh strh ldrsb ldrsh ldrd strd : HalfAddr → ArmFn
  ldm stm : BlockMode → ArmFn
  mul muls mla mlas umull umulls umlal umlals smull smulls smlal smlals qadd qsub qdadd : ArmFn
  qdsub smlabb smlabt smlatb smlatt smulbb smulbt smultb smultt smlawb smlawt smulwb : ArmFn
  smulwt smlalbb smlalbt smlaltb smlaltt clz mrs_rc mrs_rs msr_rc msr_rs msr_ic msr_is b : ArmFn
  bl bx blx_reg swp swpb swi mcr mrc inst_undefined : ArmFn
