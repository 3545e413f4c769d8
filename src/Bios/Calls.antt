-- ===== src/Bios/Calls.antt =====
-- The dispatch of the firmware calls: src/core/hle/bios_lookup_table.rs, `swi` of
-- src/core/hle/bios.rs and `handle` of src/core/exception_handler.rs.
use advanced_slop.Base.{ℕ, ◌-◌, List, ◌∷◌, Option, none, some, min, get_or, length, replicate}
use advanced_slop.Emu.{Emu}
use advanced_slop.Bios.{BulkBus}
use advanced_slop.Bios.Wait
use advanced_slop.Bios.Divide
use advanced_slop.Bios.Copy
use advanced_slop.Bios.Unpack
use advanced_slop.Bios.Reset
use advanced_slop.Bios.Affine
use advanced_slop.Bios.Affine.{Floats}
use advanced_slop.Bios.Exception

pub data ExceptionVector : Type 0 where
  reset undefined_instruction software_interrupt prefetch_abort : ExceptionVector
  data_abort address_exceeds26_bit normal_interrupt fast_interrupt : ExceptionVector

-- The functions that the table names.
pub data SwiFn : Type 0 where
  soft_reset register_ram_reset halt sleep interrupt_wait v_blank_intr_wait divide : SwiFn
  divide_arm square_root arc_tan arc_tan2 cpu_set cpu_fast_set bios_checksum : SwiFn
  bg_affine_set obj_affine_set bit_unpack lz77_uncomp huff_uncomp runlen_uncomp : SwiFn
  diff_unfilt8 diff_unfilt16 sound_bias midi_key_2_freq unknown : SwiFn

-- `GBA_SWI_LOOKUP_TABLE`
abbrev pub gba_swi_lookup_table : List SwiFn
gba_swi_lookup_table =
    soft_reset
    ∷ register_ram_reset
    ∷ halt
    ∷ sleep
    ∷ interrupt_wait
    ∷ v_blank_intr_wait
    ∷ divide
    ∷ divide_arm
    ∷ square_root
    ∷ arc_tan
    ∷ arc_tan2
    ∷ cpu_set
    ∷ cpu_fast_set
    ∷ bios_checksum
    ∷ bg_affine_set
    ∷ obj_affine_set
    ∷ bit_unpack
    ∷ lz77_uncomp
    ∷ lz77_uncomp
    ∷ huff_uncomp
    ∷ runlen_uncomp
    ∷ runlen_uncomp
    ∷ diff_unfilt8
    ∷ diff_unfilt8
    ∷ diff_unfilt16
    ∷ sound_bias
    ∷ unknown
    ∷ unknown
    ∷ unknown
    ∷ unknown
    ∷ unknown
    ∷ midi_key_2_freq
    ∷ replicate 8 unknown

-- What lies outside the code: `isqrt`, and the floating point.
pub record Host : Type 0 where
  pub isqrt : ℕ → ℕ
  pub floats : Floats

module _ {R : Type 0} (m : BulkBus R) (host : Host) where
  -- `todo!()` panics: `none`.
  unfoldable pub call : SwiFn → Emu R → Option (Emu R)
  call soft_reset e = some (Reset.soft_reset m e)
  call register_ram_reset e = some (Reset.register_ram_reset m e)
  call halt e = some (Wait.halt e)
  call sleep e = some (Wait.sleep e)
  call interrupt_wait e = some (Wait.interrupt_wait m.bus e)
  call v_blank_intr_wait e = some (Wait.v_blank_intr_wait m.bus e)
  call divide e = Divide.divide e
  call divide_arm e = Divide.divide_arm e
  call square_root e = some (Divide.square_root host.isqrt e)
  call arc_tan e = some (Affine.arc_tan host.floats e)
  call arc_tan2 e = some (Affine.arc_tan2 host.floats e)
  call cpu_set e = some (Copy.cpu_set m.bus e)
  call cpu_fast_set e = some (Copy.cpu_fast_set m.bus e)
  call bios_checksum e = some (Divide.bios_checksum e)
  call bg_affine_set e = some (Affine.bg_affine_set host.floats m.bus e)
  call obj_affine_set e = some (Affine.obj_affine_set host.floats m.bus e)
  call bit_unpack e = none
  call lz77_uncomp e = Unpack.lz77_uncomp m.bus e
  call huff_uncomp e = none
  call runlen_uncomp e = Unpack.runlen_uncomp m.bus e
  call diff_unfilt8 e = none
  call diff_unfilt16 e = none
  call sound_bias e = some (Reset.sound_bias m.bus e)
  call midi_key_2_freq e = some (Affine.midi_key_2_freq host.floats m.bus e)
  call unknown e = some e

  unfoldable pub swi : ℕ → Emu R → Option (Emu R)
  unfolding call
  swi comment e =
      call (get_or gba_swi_lookup_table (min comment (length gba_swi_lookup_table - 1)) unknown)
        (Exception.set_open_bus 0xe3a0_2004 e)

  -- Any other vector is ruled out by `debug_panic!`.
  unfoldable pub handle : ℕ → ExceptionVector → Emu R → Option (Emu R)
  unfolding swi
  handle comment software_interrupt e = swi comment e
  handle comment normal_interrupt e = some (Exception.interrupt m.bus e)
  handle comment _ e = none
