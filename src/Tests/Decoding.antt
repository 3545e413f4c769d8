-- ===== src/Tests/Decoding.antt =====
-- Opcodes looked up, and a cursor of the interpreter.
use advanced_slop.Base.{◌/◌, ◌^◌, ◌<◌, ◌≡◌, refl, arith, true, false, inr}
use advanced_slop.Decode.Op.{
  single, multiple, pre, write_back, add_offset, signed, size, pre_multiple, write_back_multiple,
  add_multiple, user,
}
use advanced_slop.Decode.Op.Packing.{packing_lem}
use advanced_slop.Decode.Fields.{arm_fields}
use advanced_slop.Decode.ThumbFields.{thumb_fields, thumb_op_of}
use advanced_slop.Decode.Ops.{op_of}
use advanced_slop.Decode.Index.{
  arm_fn, arm_index, lookup_opcode, thumb_fn, lookup_thumb_opcode, hi_of, lo_of, arm_fn-arm_fields,
  lookup_opcode-arm_fn, thumb_tables_agree,
}
use advanced_slop.Interp.Step.{Cursor, resolve, advance}
use advanced_slop.Interp.Step.Window.{IsInPage, IsResolved, advance-resolve-IsInPage}
use advanced_slop.Tests.{machine}
use advanced_slop.Tests.Firmware.{still_memory}

-- `ldrh r1, [r2], -r3`
arm_fn-arm_fields_example :
    (arm_fn 0xe012_10b3 ≡ arm_fields (hi_of 0xe012_10b3) (lo_of 0xe012_10b3))
    × (arm_index 0xe012_10b3 < 4096)
arm_fn-arm_fields_example = arm_fn-arm_fields 0xe012_10b3

lookup_opcode-arm_fn_example :
    lookup_opcode 0xe012_10b3 ≡ (op_of (arm_fn 0xe012_10b3), arm_fn 0xe012_10b3)
lookup_opcode-arm_fn_example = lookup_opcode-arm_fn 0xe012_10b3

-- `pop {r0, pc}`
thumb_tables_agree_example :
    (thumb_fn 0xbd01 ≡ thumb_fields (0xbd01 / 2 ^ 6))
    × (lookup_thumb_opcode 0xbd01 ≡ (thumb_op_of (thumb_fn 0xbd01), thumb_fn 0xbd01))
thumb_tables_agree_example = thumb_tables_agree 0xbd01 (omega arith)

packing_lem_example :
    ((pre (single true false true false 2) ≡ true)
      × (write_back (single true false true false 2) ≡ false)
      × (add_offset (single true false true false 2) ≡ true)
      × (signed (single true false true false 2) ≡ false)
      × (size (single true false true false 2) ≡ 2))
    × (pre_multiple (multiple true false true false) ≡ true)
    × (write_back_multiple (multiple true false true false) ≡ false)
    × (add_multiple (multiple true false true false) ≡ true)
    × (user (multiple true false true false) ≡ false)
packing_lem_example = packing_lem true false true false 2 (omega arith)

-- The last ARM instruction of a page.
abbrev page_end : Cursor
page_end = record { addr = 0x800_0ffc; code_shm_offset = 0x4ffc; page_left = 4 }

advance-resolve-IsInPage_example :
    IsResolved 4 (resolve still_memory false page_end machine)
    × IsInPage 4 (advance 4 (resolve still_memory false page_end machine))
advance-resolve-IsInPage_example =
    advance-resolve-IsInPage still_memory false page_end machine (refl, inr refl)
