-- ===== src/Bios/Affine.antt =====
-- The calls of src/core/hle/bios.rs that compute with floating point numbers. The computations are
-- parameters; the registers, the loads and the stores around them are here.
use advanced_slop.Base.{ℕ, zero, suc, ◌+◌, ◌*◌, List, get_or, bit_and}
use advanced_slop.Base.Word.{u32}
use advanced_slop.Emu.{Emu}
use advanced_slop.Interp.Memory.{Bus}
use advanced_slop.Bios.{get, put}

-- From the words and halfwords that a call reads to the ones that it stores: `(angle as i32 as u32)`
-- of the two arc tangents, the six results of a background, the four of an object and the frequency
-- of a key.
pub record Floats : Type 0 where
  pub angle : ℕ → ℕ
  pub angle2 : ℕ → ℕ → ℕ
  pub background : (orig_x orig_y disp_x disp_y scale_x scale_y theta : ℕ) → List ℕ
  pub object : (scale_x scale_y theta : ℕ) → List ℕ
  pub frequency : (freq key fine : ℕ) → ℕ

module _ {R : Type 0} (floats : Floats) where
  unfoldable pub arc_tan : Emu R → Emu R
  arc_tan e = put 0 (bit_and (floats.angle (get 0 e)) 0xffff) e

  unfoldable pub arc_tan2 : Emu R → Emu R
  arc_tan2 e = put 0 (bit_and (floats.angle2 (get 0 e) (get 1 e)) 0xffff) e

  unfoldable pub bg_affine_loop : Bus R → (count src dst : ℕ) → Emu R → Emu R
  bg_affine_loop bus zero src dst e = e
  bg_affine_loop bus (suc count) src dst e =
      let (orig_x, e1) = bus.read32 src e in
      let (orig_y, e2) = bus.read32 (u32 (src + 4)) e1 in
      let (disp_x, e3) = bus.read16 (u32 (src + 8)) e2 in
      let (disp_y, e4) = bus.read16 (u32 (src + 10)) e3 in
      let (scale_x, e5) = bus.read16 (u32 (src + 12)) e4 in
      let (scale_y, e6) = bus.read16 (u32 (src + 14)) e5 in
      let (theta, e7) = bus.read16 (u32 (src + 16)) e6 in
      let out : List ℕ = floats.background orig_x orig_y disp_x disp_y scale_x scale_y theta in
      let e8 : Emu R = bus.write16 dst (bit_and (get_or out 0 0) 0xffff) e7 in
      let e9 : Emu R = bus.write16 (u32 (dst + 2)) (bit_and (get_or out 1 0) 0xffff) e8 in
      let e10 : Emu R = bus.write16 (u32 (dst + 4)) (bit_and (get_or out 2 0) 0xffff) e9 in
      let e11 : Emu R = bus.write16 (u32 (dst + 6)) (bit_and (get_or out 3 0) 0xffff) e10 in
      let e12 : Emu R = bus.write32 (u32 (dst + 8)) (get_or out 4 0) e11 in
      let e13 : Emu R = bus.write32 (u32 (dst + 12)) (get_or out 5 0) e12 in
      bg_affine_loop bus count (u32 (src + 20)) (u32 (dst + 16)) e13

  unfoldable pub bg_affine_set : Bus R → Emu R → Emu R
  unfolding bg_affine_loop
  bg_affine_set bus e = bg_affine_loop bus (get 2 e) (get 0 e) (get 1 e) e

  unfoldable pub obj_affine_loop : Bus R → (count src dst stride : ℕ) → Emu R → Emu R
  obj_affine_loop bus zero src dst stride e = e
  obj_affine_loop bus (suc count) src dst stride e =
      let (scale_x, e1) = bus.read16 src e in
      let (scale_y, e2) = bus.read16 (u32 (src + 2)) e1 in
      let (theta, e3) = bus.read16 (u32 (src + 4)) e2 in
      let out : List ℕ = floats.object scale_x scale_y theta in
      let e4 : Emu R = bus.write16 dst (bit_and (get_or out 0 0) 0xffff) e3 in
      let e5 : Emu R = bus.write16 (u32 (dst + stride)) (bit_and (get_or out 1 0) 0xffff) e4 in
      let e6 : Emu R = bus.write16 (u32 (dst + stride * 2)) (bit_and (get_or out 2 0) 0xffff) e5 in
      let e7 : Emu R = bus.write16 (u32 (dst + stride * 3)) (bit_and (get_or out 3 0) 0xffff) e6 in
      obj_affine_loop bus count (u32 (src + 8)) (u32 (dst + stride * 4)) stride e7

  unfoldable pub obj_affine_set : Bus R → Emu R → Emu R
  unfolding obj_affine_loop
  obj_affine_set bus e = obj_affine_loop bus (get 2 e) (get 0 e) (get 1 e) (get 3 e) e

  unfoldable pub midi_key_2_freq : Bus R → Emu R → Emu R
  midi_key_2_freq bus e =
      let (freq, e') = bus.read32 (u32 (get 0 e + 4)) e in
      put 0 (floats.frequency freq (get 1 e) (get 2 e)) e'
