-- ===== src/Cartridge/Flash/Protect.antt =====
-- How many writes it takes a flash chip to change a byte.
use advanced_slop.Base.{
  ℕ, ◌+◌, ◌-◌, ◌≤◌, ◌<◌, ◌≡◌, ◌⊎◌, inl, inr, refl, ap, ◌∙◌, arith, List, [], ◌∷◌, Bool, true, false,
  ◌&&◌, ◌==◌, if◌then◌else◌, length, bit_and, by_test,
}
use advanced_slop.Cartridge.{SaveType, flash64k, flash128k, Cartridge, FlashState}
use advanced_slop.Cartridge.Flash.{
  third_write, cartridge_write_flash, write_chip, cartridge_write_sram,
}

unfoldable pub IsFlash : SaveType → Type 0
IsFlash t = (t ≡ flash64k) ⊎ (t ≡ flash128k)

-- The least number of writes before the one that can change a byte.
abbrev pub needed : FlashState → ℕ
needed f = if f.write_mode then 0 else (2 - f.cmd_stage) + (if f.erase_mode then 0 else 1)

if-io : (b : Bool) (x y : Cartridge) → b ≡ false → (if b then x else y).io ≡ y.io
if-io b x y e = rw e refl

third_write-io :
    (offset value : ℕ) (c : Cartridge)
    → c.flash.erase_mode ≡ false
    → (third_write offset value c).io ≡ c.io
unfolding third_write
third_write-io offset value c no_erase = if-io _ _ _ no_erase

needed_late :
    (f : FlashState)
    → 0 < needed f
    → (f.cmd_stage == 0) ≡ false
    → (f.cmd_stage == 1) ≡ false
    → f.erase_mode ≡ false
needed_late f h not_0 not_1 = ground arith

needed_first :
    (f : FlashState)
    → (f.cmd_stage == 0) ≡ true
    → needed f ≤ needed (record f { cmd_stage = 1 }) + 1
needed_first f e = ground arith

needed_second :
    (f : FlashState) (b : Bool)
    → (f.cmd_stage == 1) ≡ true
    → needed f ≤ needed (record f { cmd_stage = if b then 2 else 0 }) + 1
needed_second f b e = ground arith

needed_third :
    (f g : FlashState)
    → (f.cmd_stage == 0) ≡ false
    → (f.cmd_stage == 1) ≡ false
    → needed f ≤ needed g + 1
needed_third f g not_0 not_1 = ground arith

write_flash-io :
    (offset value : ℕ) (c : Cartridge)
    → 0 < needed c.flash
    → (cartridge_write_flash offset value c).io ≡ c.io
unfolding cartridge_write_flash
write_flash-io offset value c h =
    let P = λ (d : Cartridge). d.io ≡ c.io in
    let f : FlashState = c.flash in
    by_test P f.write_mode _ _ (λ (e : f.write_mode ≡ true). absurd (ground (arith, h, e)))
      (λ _.
        by_test P (f.bank_mode && offset == 0) _ _ (λ _. refl)
          (λ _.
            by_test P (f.cmd_stage == 0) _ _
              (λ _. by_test P (offset == 0x5555 && value == 0xaa) _ _ (λ _. refl) (λ _. refl))
              (λ not_0.
                by_test P (f.cmd_stage == 1) _ _ (λ _. refl)
                  (λ not_1. third_write-io offset value c (needed_late f h not_0 not_1)))))

write_flash-needed :
    (offset value : ℕ) (c : Cartridge)
    → needed c.flash ≤ needed (cartridge_write_flash offset value c).flash + 1
unfolding cartridge_write_flash
write_flash-needed offset value c =
    let f : FlashState = c.flash in
    let P = λ (d : Cartridge). needed f ≤ needed d.flash + 1 in
    by_test P f.write_mode _ _ (λ e. rw e (omega arith))
      (λ _.
        by_test P (f.bank_mode && offset == 0) _ _ (λ _. omega arith)
          (λ _.
            by_test P (f.cmd_stage == 0) _ _
              (λ e.
                by_test P (offset == 0x5555 && value == 0xaa) _ _ (λ _. needed_first f e)
                  (λ _. omega arith))
              (λ not_0.
                by_test P (f.cmd_stage == 1) _ _
                  (λ e. needed_second f (offset == 0x2aaa && value == 0x55) e)
                  (λ not_1. needed_third f (third_write offset value c).flash not_0 not_1))))

cartridge_write_sram_lem :
    (addr value : ℕ) (c : Cartridge)
    → cartridge_write_sram addr value c ≡ write_chip c.io.save_type (bit_and addr 0xffff) value c
unfolding cartridge_write_sram
cartridge_write_sram_lem addr value c = refl

write_chip_lem :
    (offset value : ℕ) (c : Cartridge)
    → (write_chip flash64k offset value c ≡ cartridge_write_flash offset value c)
      × (write_chip flash128k offset value c ≡ cartridge_write_flash offset value c)
unfolding write_chip
write_chip_lem offset value c = (refl, refl)

pub write_sram_flash :
    (addr value : ℕ) (c : Cartridge)
    → IsFlash c.io.save_type
    → cartridge_write_sram addr value c ≡ cartridge_write_flash (bit_and addr 0xffff) value c
unfolding IsFlash
write_sram_flash addr value c (inl e) =
    cartridge_write_sram_lem addr value c
    ∙ ap (λ t. write_chip t (bit_and addr 0xffff) value c) e
    ∙ (write_chip_lem (bit_and addr 0xffff) value c).0
write_sram_flash addr value c (inr e) =
    cartridge_write_sram_lem addr value c
    ∙ ap (λ t. write_chip t (bit_and addr 0xffff) value c) e
    ∙ (write_chip_lem (bit_and addr 0xffff) value c).1

-- Writes in order, each an address with a value.
abbrev pub write_all : List (ℕ × ℕ) → Cartridge → Cartridge
write_all [] c = c
write_all ((addr, value) ∷ writes) c = write_all writes (cartridge_write_sram addr value c)

-- From any state of a flash chip fewer writes than `needed`, or as many, leave the save buffer as
-- it is: three writes from an idle chip, two after the announcement of an erase, none once a
-- byte is to be programmed.
pub write_all_protects :
    (writes : List (ℕ × ℕ)) (c : Cartridge)
    → IsFlash c.io.save_type
    → length writes ≤ needed c.flash
    → (write_all writes c).io ≡ c.io
write_all_protects [] c is_flash enough = refl
write_all_protects ((addr, value) ∷ writes) c is_flash enough =
    let same : (cartridge_write_sram addr value c).io ≡ c.io =
      ap Cartridge.io (write_sram_flash addr value c is_flash)
      ∙ write_flash-io (bit_and addr 0xffff) value c (omega (arith, enough)) in
    write_all_protects writes (cartridge_write_sram addr value c) (rw same is_flash) (
      rw (write_sram_flash addr value c is_flash)
        (omega (arith, enough, write_flash-needed (bit_and addr 0xffff) value c)))
    ∙ same
