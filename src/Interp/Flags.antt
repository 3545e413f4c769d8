-- ===== src/Interp/Flags.antt =====
-- The flag helpers of src/jit/interpreter/alu.rs, as functions of CPSR. The handlers of `Alu` apply
-- them to the context.
pub mod Layout
pub mod Meaning
use advanced_slop.Base.{
  ℕ, ◌+◌, ◌-◌, ◌*◌, ◌/◌, ◌^◌, Bool, ◌==◌, ltb, leb, if◌then◌else◌, of_bool, bit_and, bit_or,
  bit_xor,
}
use advanced_slop.Base.Word.{u32, u32_max, has_bit}
use advanced_slop.Base.Digits.{complement}

abbrev pub n_bit : ℕ
n_bit = 2 ^ 31

abbrev pub z_bit : ℕ
z_bit = 2 ^ 30

abbrev pub c_bit : ℕ
c_bit = 2 ^ 29

abbrev pub v_bit : ℕ
v_bit = 2 ^ 28

-- `N_BIT | Z_BIT | C_BIT | V_BIT`
abbrev pub nzcv_bits : ℕ
nzcv_bits = 0xf * 2 ^ 28

-- `if result == 0 { cpsr |= Z_BIT; }`, after `cpsr |= result & N_BIT`.
abbrev pub or_nz : ℕ → ℕ → ℕ
or_nz result cpsr =
    let c : ℕ = bit_or cpsr (bit_and result n_bit) in if result == 0 then bit_or c z_bit else c

-- `set_nz`
unfoldable pub set_nz : ℕ → ℕ → ℕ
set_nz result cpsr = or_nz result (bit_and cpsr (complement 32 (n_bit + z_bit)))

-- `set_nz_64`
unfoldable pub set_nz_64 : ℕ → ℕ → ℕ
set_nz_64 result cpsr =
    let c : ℕ =
      bit_or (bit_and cpsr (complement 32 (n_bit + z_bit)))
        (bit_and (u32 (result / 2 ^ 32)) n_bit) in
    if result == 0 then bit_or c z_bit else c

-- The four flags, as the add and subtract helpers write them.
unfoldable pub set_nzcv : ℕ → Bool → Bool → ℕ → ℕ
set_nzcv result carry overflow cpsr =
    bit_or (bit_or (or_nz result (bit_and cpsr (complement 32 nzcv_bits))) (of_bool carry * 2 ^ 29))
      (of_bool overflow * 2 ^ 28)

-- `!(a ^ b) & (a ^ result) & N_BIT != 0`
abbrev pub add_overflow : ℕ → ℕ → ℕ → Bool
add_overflow a b result = has_bit (bit_and (complement 32 (bit_xor a b)) (bit_xor a result)) 31

-- `(a ^ b) & (a ^ result) & N_BIT != 0`
abbrev pub sub_overflow : ℕ → ℕ → ℕ → Bool
sub_overflow a b result = has_bit (bit_and (bit_xor a b) (bit_xor a result)) 31

unfoldable pub add_flags : ℕ → ℕ → ℕ → ℕ → ℕ
unfolding set_nzcv
add_flags a b result cpsr = set_nzcv result (ltb u32_max (a + b)) (add_overflow a b result) cpsr

unfoldable pub adc_flags : ℕ → ℕ → ℕ → ℕ → ℕ → ℕ
unfolding set_nzcv
adc_flags a b carry_in result cpsr =
    set_nzcv result (ltb u32_max (a + b + carry_in)) (add_overflow a b result) cpsr

unfoldable pub sub_flags : ℕ → ℕ → ℕ → ℕ → ℕ
unfolding set_nzcv
sub_flags a b result cpsr = set_nzcv result (leb b a) (sub_overflow a b result) cpsr

unfoldable pub sbc_flags : ℕ → ℕ → ℕ → ℕ → ℕ → ℕ
unfolding set_nzcv
sbc_flags a b carry_in result cpsr =
    set_nzcv result (leb (b + (1 - carry_in)) a) (sub_overflow a b result) cpsr
