-- ===== src/Tests/Instructions.antt =====
-- The interpreter on concrete operands.
use advanced_slop.Base.{
  ℕ, ◌+◌, ◌-◌, ◌/◌, ◌^◌, ◌<◌, ◌≡◌, ◌⊎◌, refl, arith, true, false, ◌==◌, if◌then◌else◌, ltb, leb,
}
use advanced_slop.Base.Digits.{digit}
use advanced_slop.Interp.{Ctx, read_slot, cpsr, carry, continue, branch, branch_return}
use advanced_slop.Interp.Shifter.{imm, lsl, lsr}
use advanced_slop.Interp.Shifter.Bits.{IsShifted, lsl-IsShifted, lsr-IsShifted}
use advanced_slop.Interp.Alu.{sbc, do_arith, alu_finish, restore_spsr}
use advanced_slop.Interp.Alu.Arith.{Computes, do_arith-Computes}
use advanced_slop.Interp.Alu.Finish.{resume_address, rd_of, alu_finish_lem}
use advanced_slop.Interp.Condition.{runs}
use advanced_slop.Interp.Condition.Codes.{passes, runs-eq-passes}
use advanced_slop.Interp.ThumbBranch.{bgt, taken}
use advanced_slop.Interp.ThumbBranch.Taken.{code, taken-eq-passes}
use advanced_slop.Tests.{machine}

abbrev ctx : Ctx ℕ
ctx = record { emu = machine; inst_addr = 0x800_0200 }

-- `0 - 1` with the carry clear.
do_arith-Computes_example :
    Computes sbc 0 1
      (carry ctx)
      (cpsr ctx)
      (cpsr (do_arith sbc 0 1 true ctx).1)
      (do_arith sbc 0 1 true ctx).0
do_arith-Computes_example = do_arith-Computes sbc 0 1 ctx (omega arith) (omega arith)

lsl-IsShifted_example :
    IsShifted 0xdead_beef 32
      (lsl 0xdead_beef 32 0)
      (λ k. if ltb k 32 then 0 else digit 0xdead_beef (k - 32))
      (if leb 32 32 then digit 0xdead_beef (32 - 32) else 0)
lsl-IsShifted_example = lsl-IsShifted 0xdead_beef 32 0 (omega arith) (omega arith)

lsr-IsShifted_example :
    IsShifted 0xdead_beef 33
      (lsr 0xdead_beef 33 1)
      (λ k. digit 0xdead_beef (33 + k))
      (digit 0xdead_beef (33 - 1))
lsr-IsShifted_example = lsr-IsShifted 0xdead_beef 33 1 (omega arith) (omega arith)

-- `bgt` with Z and N set.
runs-eq-passes_example :
    runs 0xca00_0010 0xc000_001f ≡ passes (0xca00_0010 / 2 ^ 28) (0xc000_001f / 2 ^ 28)
runs-eq-passes_example = runs-eq-passes 0xca00_0010 0xc000_001f (omega arith) (omega arith)

-- `movs pc, ...`
alu_finish_lem_example :
    let (ctx', out) = alu_finish imm true 0xe3b0_f000 0x800_0123 true ctx in
    let target : ℕ = resume_address (cpsr ctx') 0x800_0123 in
    (((rd_of 0xe3b0_f000 == 15) ≡ false)
      × ((j : ℕ)
          → j < 18
          → read_slot j ctx'.emu.regs
            ≡ (if rd_of 0xe3b0_f000 == j then 0x800_0123 else read_slot j ctx.emu.regs))
      × (out ≡ continue 1))
    ⊎ (((rd_of 0xe3b0_f000 == 15) ≡ true)
        × (ctx' ≡ restore_spsr ctx)
        × ((out ≡ branch 1 target)
            ⊎ ((out ≡ branch_return 1 target) × (true ≡ true) × (true ≡ false))))
alu_finish_lem_example = alu_finish_lem imm true 0xe3b0_f000 0x800_0123 true ctx (omega arith) refl

-- `bgt` with Z and N set, in thumb state.
taken-eq-passes_example : taken bgt 0xc000_003f ≡ passes (code bgt) (0xc000_003f / 2 ^ 28)
taken-eq-passes_example = taken-eq-passes bgt 0xc000_003f (omega arith)
