-- ===== src/Bios/Divide.antt =====
-- The arithmetic calls of src/core/hle/bios.rs. `isqrt` of the standard library is a parameter.
pub mod Rounding
use advanced_slop.Base.{
  ℕ, ◌+◌, ◌-◌, ◌/◌, ◌%◌, ◌^◌, ◌*◌, ◌<◌, ◌≤◌, ◌≡◌, refl, arith, Bool, not, ◌&&◌, ◌||◌, ◌==◌, leb,
  if◌then◌else◌, Option, none, some,
}
use advanced_slop.Base.Word.{u32}
use advanced_slop.Emu.{Emu}
use advanced_slop.Bios.{get, put}

-- A word as `i32`: its sign and its magnitude.
abbrev pub negative : ℕ → Bool
negative x = leb (2 ^ 31) x

abbrev pub magnitude : ℕ → ℕ
magnitude x = if negative x then 2 ^ 32 - x else x

abbrev pub with_sign : Bool → ℕ → ℕ
with_sign sign m = if sign then u32 (2 ^ 32 - m) else m

-- `a / b` and `a % b` on `i32`, which round towards zero. They panic for `b = 0` and for
-- `i32::MIN / -1`.
unfoldable pub divides_panic : ℕ → ℕ → Bool
divides_panic a b = b == 0 || (a == 2 ^ 31 && b == 2 ^ 32 - 1)

unfoldable pub quotient : ℕ → ℕ → ℕ
quotient a b =
    with_sign (if negative a then not (negative b) else negative b) (magnitude a / magnitude b)

unfoldable pub remainder : ℕ → ℕ → ℕ
remainder a b = with_sign (negative a) (magnitude a % magnitude b)

module _ {R : Type 0} where
  -- `none` is the panic.
  unfoldable pub divide : Emu R → Option (Emu R)
  unfolding divides_panic quotient remainder
  divide e =
      let a : ℕ = get 0 e in
      let b : ℕ = get 1 e in
      if divides_panic a b
      then none
      else some (put 3 (magnitude (quotient a b)) (put 1 (remainder a b) (put 0 (quotient a b) e)))

  -- `regs.gp_regs.swap(0, 1)` first.
  unfoldable pub divide_arm : Emu R → Option (Emu R)
  unfolding divide
  divide_arm e = divide (put 1 (get 0 e) (put 0 (get 1 e) e))

  unfoldable pub square_root : (ℕ → ℕ) → Emu R → Emu R
  square_root isqrt e = put 0 (isqrt (get 0 e)) e

  unfoldable pub bios_checksum : Emu R → Emu R
  bios_checksum e = put 0 0xbaae187f e
