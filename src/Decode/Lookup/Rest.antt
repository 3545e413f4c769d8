-- ===== src/Decode/Lookup/Rest.antt =====
-- src/jit/disassembler/lookup_table.rs: the entries of
-- block transfers, branches, coprocessor and software interrupts, 128 to a chunk.
use advanced_slop.Base.{List, ◌++◌, true, false, replicate}
use advanced_slop.Decode.Lines.{line4}
use advanced_slop.Decode.Op.{Op, multiple, b, bl, ldm, mcr, mrc, stm, swi, unk_arm}
use advanced_slop.Decode.Handlers.{
  ArmFn, ldm, stm, b, bl, swi, mcr, mrc, inst_undefined, ia, ia_w, ia_u, ia_u_w, ib, ib_w, ib_u,
  ib_u_w, da, da_w, da_u, da_u_w, db, db_w, db_u, db_u_w,
}

abbrev pub lookup_chunk16 : List (Op × ArmFn)
lookup_chunk16 =
    replicate 16 (stm (multiple false false false false), stm da)
    ++ replicate 16 (ldm (multiple false false false false), ldm da)
    ++ replicate 16 (stm (multiple false true false false), stm da_w)
    ++ replicate 16 (ldm (multiple false true false false), ldm da_w)
    ++ replicate 16 (stm (multiple false false false true), stm da_u)
    ++ replicate 16 (ldm (multiple false false false true), ldm da_u)
    ++ replicate 16 (stm (multiple false true false true), stm da_u_w)
    ++ replicate 16 (ldm (multiple false true false true), ldm da_u_w)

abbrev pub lookup_chunk17 : List (Op × ArmFn)
lookup_chunk17 =
    replicate 16 (stm (multiple false false true false), stm ia)
    ++ replicate 16 (ldm (multiple false false true false), ldm ia)
    ++ replicate 16 (stm (multiple false true true false), stm ia_w)
    ++ replicate 16 (ldm (multiple false true true false), ldm ia_w)
    ++ replicate 16 (stm (multiple false false true true), stm ia_u)
    ++ replicate 16 (ldm (multiple false false true true), ldm ia_u)
    ++ replicate 16 (stm (multiple false true true true), stm ia_u_w)
    ++ replicate 16 (ldm (multiple false true true true), ldm ia_u_w)

abbrev pub lookup_chunk18 : List (Op × ArmFn)
lookup_chunk18 =
    replicate 16 (stm (multiple true false false false), stm db)
    ++ replicate 16 (ldm (multiple true false false false), ldm db)
    ++ replicate 16 (stm (multiple true true false false), stm db_w)
    ++ replicate 16 (ldm (multiple true true false false), ldm db_w)
    ++ replicate 16 (stm (multiple true false false true), stm db_u)
    ++ replicate 16 (ldm (multiple true false false true), ldm db_u)
    ++ replicate 16 (stm (multiple true true false true), stm db_u_w)
    ++ replicate 16 (ldm (multiple true true false true), ldm db_u_w)

abbrev pub lookup_chunk19 : List (Op × ArmFn)
lookup_chunk19 =
    replicate 16 (stm (multiple true false true false), stm ib)
    ++ replicate 16 (ldm (multiple true false true false), ldm ib)
    ++ replicate 16 (stm (multiple true true true false), stm ib_w)
    ++ replicate 16 (ldm (multiple true true true false), ldm ib_w)
    ++ replicate 16 (stm (multiple true false true true), stm ib_u)
    ++ replicate 16 (ldm (multiple true false true true), ldm ib_u)
    ++ replicate 16 (stm (multiple true true true true), stm ib_u_w)
    ++ replicate 16 (ldm (multiple true true true true), ldm ib_u_w)

abbrev pub lookup_chunk20 : List (Op × ArmFn)
lookup_chunk20 = replicate 128 (b, b)

abbrev pub lookup_chunk21 : List (Op × ArmFn)
lookup_chunk21 = replicate 128 (b, b)

abbrev pub lookup_chunk22 : List (Op × ArmFn)
lookup_chunk22 = replicate 128 (bl, bl)

abbrev pub lookup_chunk23 : List (Op × ArmFn)
lookup_chunk23 = replicate 128 (bl, bl)

abbrev pub lookup_chunk24 : List (Op × ArmFn)
lookup_chunk24 = replicate 128 (unk_arm, inst_undefined)

abbrev pub lookup_chunk25 : List (Op × ArmFn)
lookup_chunk25 = replicate 128 (unk_arm, inst_undefined)

abbrev pub lookup_chunk26 : List (Op × ArmFn)
lookup_chunk26 = replicate 128 (unk_arm, inst_undefined)

abbrev pub lookup_chunk27 : List (Op × ArmFn)
lookup_chunk27 = replicate 128 (unk_arm, inst_undefined)

abbrev pub lookup_chunk28 : List (Op × ArmFn)
lookup_chunk28 =
    line4 (unk_arm, inst_undefined) (mcr, mcr) (unk_arm, inst_undefined) (mcr, mcr)
    ++ line4 (unk_arm, inst_undefined) (mcr, mcr) (unk_arm, inst_undefined) (mcr, mcr)
    ++ line4 (unk_arm, inst_undefined) (mcr, mcr) (unk_arm, inst_undefined) (mcr, mcr)
    ++ line4 (unk_arm, inst_undefined) (mcr, mcr) (unk_arm, inst_undefined) (mcr, mcr)
    ++ line4 (unk_arm, inst_undefined) (mrc, mrc) (unk_arm, inst_undefined) (mrc, mrc)
    ++ line4 (unk_arm, inst_undefined) (mrc, mrc) (unk_arm, inst_undefined) (mrc, mrc)
    ++ line4 (unk_arm, inst_undefined) (mrc, mrc) (unk_arm, inst_undefined) (mrc, mrc)
    ++ line4 (unk_arm, inst_undefined) (mrc, mrc) (unk_arm, inst_undefined) (mrc, mrc)
    ++ line4 (unk_arm, inst_undefined) (mcr, mcr) (unk_arm, inst_undefined) (mcr, mcr)
    ++ line4 (unk_arm, inst_undefined) (mcr, mcr) (unk_arm, inst_undefined) (mcr, mcr)
    ++ line4 (unk_arm, inst_undefined) (mcr, mcr) (unk_arm, inst_undefined) (mcr, mcr)
    ++ line4 (unk_arm, inst_undefined) (mcr, mcr) (unk_arm, inst_undefined) (mcr, mcr)
    ++ line4 (unk_arm, inst_undefined) (mrc, mrc) (unk_arm, inst_undefined) (mrc, mrc)
    ++ line4 (unk_arm, inst_undefined) (mrc, mrc) (unk_arm, inst_undefined) (mrc, mrc)
    ++ line4 (unk_arm, inst_undefined) (mrc, mrc) (unk_arm, inst_undefined) (mrc, mrc)
    ++ line4 (unk_arm, inst_undefined) (mrc, mrc) (unk_arm, inst_undefined) (mrc, mrc)
    ++ line4 (unk_arm, inst_undefined) (mcr, mcr) (unk_arm, inst_undefined) (mcr, mcr)
    ++ line4 (unk_arm, inst_undefined) (mcr, mcr) (unk_arm, inst_undefined) (mcr, mcr)
    ++ line4 (unk_arm, inst_undefined) (mcr, mcr) (unk_arm, inst_undefined) (mcr, mcr)
    ++ line4 (unk_arm, inst_undefined) (mcr, mcr) (unk_arm, inst_undefined) (mcr, mcr)
    ++ line4 (unk_arm, inst_undefined) (mrc, mrc) (unk_arm, inst_undefined) (mrc, mrc)
    ++ line4 (unk_arm, inst_undefined) (mrc, mrc) (unk_arm, inst_undefined) (mrc, mrc)
    ++ line4 (unk_arm, inst_undefined) (mrc, mrc) (unk_arm, inst_undefined) (mrc, mrc)
    ++ line4 (unk_arm, inst_undefined) (mrc, mrc) (unk_arm, inst_undefined) (mrc, mrc)
    ++ line4 (unk_arm, inst_undefined) (mcr, mcr) (unk_arm, inst_undefined) (mcr, mcr)
    ++ line4 (unk_arm, inst_undefined) (mcr, mcr) (unk_arm, inst_undefined) (mcr, mcr)
    ++ line4 (unk_arm, inst_undefined) (mcr, mcr) (unk_arm, inst_undefined) (mcr, mcr)
    ++ line4 (unk_arm, inst_undefined) (mcr, mcr) (unk_arm, inst_undefined) (mcr, mcr)
    ++ line4 (unk_arm, inst_undefined) (mrc, mrc) (unk_arm, inst_undefined) (mrc, mrc)
    ++ line4 (unk_arm, inst_undefined) (mrc, mrc) (unk_arm, inst_undefined) (mrc, mrc)
    ++ line4 (unk_arm, inst_undefined) (mrc, mrc) (unk_arm, inst_undefined) (mrc, mrc)
    ++ line4 (unk_arm, inst_undefined) (mrc, mrc) (unk_arm, inst_undefined) (mrc, mrc)

abbrev pub lookup_chunk29 : List (Op × ArmFn)
lookup_chunk29 =
    line4 (unk_arm, inst_undefined) (mcr, mcr) (unk_arm, inst_undefined) (mcr, mcr)
    ++ line4 (unk_arm, inst_undefined) (mcr, mcr) (unk_arm, inst_undefined) (mcr, mcr)
    ++ line4 (unk_arm, inst_undefined) (mcr, mcr) (unk_arm, inst_undefined) (mcr, mcr)
    ++ line4 (unk_arm, inst_undefined) (mcr, mcr) (unk_arm, inst_undefined) (mcr, mcr)
    ++ line4 (unk_arm, inst_undefined) (mrc, mrc) (unk_arm, inst_undefined) (mrc, mrc)
    ++ line4 (unk_arm, inst_undefined) (mrc, mrc) (unk_arm, inst_undefined) (mrc, mrc)
    ++ line4 (unk_arm, inst_undefined) (mrc, mrc) (unk_arm, inst_undefined) (mrc, mrc)
    ++ line4 (unk_arm, inst_undefined) (mrc, mrc) (unk_arm, inst_undefined) (mrc, mrc)
    ++ line4 (unk_arm, inst_undefined) (mcr, mcr) (unk_arm, inst_undefined) (mcr, mcr)
    ++ line4 (unk_arm, inst_undefined) (mcr, mcr) (unk_arm, inst_undefined) (mcr, mcr)
    ++ line4 (unk_arm, inst_undefined) (mcr, mcr) (unk_arm, inst_undefined) (mcr, mcr)
    ++ line4 (unk_arm, inst_undefined) (mcr, mcr) (unk_arm, inst_undefined) (mcr, mcr)
    ++ line4 (unk_arm, inst_undefined) (mrc, mrc) (unk_arm, inst_undefined) (mrc, mrc)
    ++ line4 (unk_arm, inst_undefined) (mrc, mrc) (unk_arm, inst_undefined) (mrc, mrc)
    ++ line4 (unk_arm, inst_undefined) (mrc, mrc) (unk_arm, inst_undefined) (mrc, mrc)
    ++ line4 (unk_arm, inst_undefined) (mrc, mrc) (unk_arm, inst_undefined) (mrc, mrc)
    ++ line4 (unk_arm, inst_undefined) (mcr, mcr) (unk_arm, inst_undefined) (mcr, mcr)
    ++ line4 (unk_arm, inst_undefined) (mcr, mcr) (unk_arm, inst_undefined) (mcr, mcr)
    ++ line4 (unk_arm, inst_undefined) (mcr, mcr) (unk_arm, inst_undefined) (mcr, mcr)
    ++ line4 (unk_arm, inst_undefined) (mcr, mcr) (unk_arm, inst_undefined) (mcr, mcr)
    ++ line4 (unk_arm, inst_undefined) (mrc, mrc) (unk_arm, inst_undefined) (mrc, mrc)
    ++ line4 (unk_arm, inst_undefined) (mrc, mrc) (unk_arm, inst_undefined) (mrc, mrc)
    ++ line4 (unk_arm, inst_undefined) (mrc, mrc) (unk_arm, inst_undefined) (mrc, mrc)
    ++ line4 (unk_arm, inst_undefined) (mrc, mrc) (unk_arm, inst_undefined) (mrc, mrc)
    ++ line4 (unk_arm, inst_undefined) (mcr, mcr) (unk_arm, inst_undefined) (mcr, mcr)
    ++ line4 (unk_arm, inst_undefined) (mcr, mcr) (unk_arm, inst_undefined) (mcr, mcr)
    ++ line4 (unk_arm, inst_undefined) (mcr, mcr) (unk_arm, inst_undefined) (mcr, mcr)
    ++ line4 (unk_arm, inst_undefined) (mcr, mcr) (unk_arm, inst_undefined) (mcr, mcr)
    ++ line4 (unk_arm, inst_undefined) (mrc, mrc) (unk_arm, inst_undefined) (mrc, mrc)
    ++ line4 (unk_arm, inst_undefined) (mrc, mrc) (unk_arm, inst_undefined) (mrc, mrc)
    ++ line4 (unk_arm, inst_undefined) (mrc, mrc) (unk_arm, inst_undefined) (mrc, mrc)
    ++ line4 (unk_arm, inst_undefined) (mrc, mrc) (unk_arm, inst_undefined) (mrc, mrc)

abbrev pub lookup_chunk30 : List (Op × ArmFn)
lookup_chunk30 = replicate 128 (swi, swi)

abbrev pub lookup_chunk31 : List (Op × ArmFn)
lookup_chunk31 = replicate 128 (swi, swi)
