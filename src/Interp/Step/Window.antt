-- ===== src/Interp/Step/Window.antt =====
-- The window of a page that the sequential fetches of the interpreter stay in.
use advanced_slop.Base.{
  ℕ, ◌+◌, ◌%◌, ◌≡◌, ◌⊎◌, inl, inr, refl, arith, Bool, true, false, ◌==◌, bit_and, by_test,
}
use advanced_slop.Base.Digits.{bit_and-low_mask}
use advanced_slop.Emu.{Emu}
use advanced_slop.Interp.Step.{Cursor, step_of, resolve, advance, mmu_page_size}
use advanced_slop.Bios.{BulkBus}

-- The address is aligned, and the window is used up or ends with the page.
abbrev pub IsInPage : ℕ → Cursor → Type 0
IsInPage step c =
    (c.addr % step ≡ 0)
    × ((c.page_left ≡ 0) ⊎ (c.addr % mmu_page_size + c.page_left ≡ mmu_page_size))

-- The same of the cursor that a fetch uses; the window of an unmapped address has one instruction.
abbrev pub IsResolved : ℕ → Cursor → Type 0
IsResolved step c =
    (c.addr % step ≡ 0)
    × ((c.page_left ≡ step) ⊎ (c.addr % mmu_page_size + c.page_left ≡ mmu_page_size))

resolve-IsResolved :
    {R : Type 0} (m : BulkBus R) (thumb : Bool) (c : Cursor) (e : Emu R)
    → IsInPage (step_of thumb) c
    → IsResolved (step_of thumb) (resolve m thumb c e)
unfolding resolve
resolve-IsResolved m thumb c e h =
    by_test (IsResolved (step_of thumb)) (c.page_left == 0) _ c
      (λ _. (
        h.0,
        by_test (λ left. (left ≡ step_of thumb) ⊎ (c.addr % mmu_page_size + left ≡ mmu_page_size))
            (m.shm_offset (bit_and c.addr 0x0fff_ffff) e == 0) (step_of thumb) _ (λ _. inl refl)
            (λ _. inr (omega (arith, bit_and-low_mask c.addr 12))),
      ))
      (λ f. (h.0, used f h.1))
  where
    used :
        (c.page_left == 0) ≡ false
        → (c.page_left ≡ 0) ⊎ (c.addr % mmu_page_size + c.page_left ≡ mmu_page_size)
        → (c.page_left ≡ step_of thumb) ⊎ (c.addr % mmu_page_size + c.page_left ≡ mmu_page_size)
    used f (inl e) = absurd (ground (arith, f, e))
    used f (inr e) = inr e

advance-IsInPage :
    (thumb : Bool) (c : Cursor)
    → IsResolved (step_of thumb) c
    → IsInPage (step_of thumb) (advance (step_of thumb) c)
advance-IsInPage true c (even, inl e) = (omega (arith, even), inl (omega (arith, e)))
advance-IsInPage true c (even, inr e) = (omega (arith, even), omega (arith, even, e))
advance-IsInPage false c (even, inl e) = (omega (arith, even), inl (omega (arith, e)))
advance-IsInPage false c (even, inr e) = (omega (arith, even), omega (arith, even, e))

-- From an aligned cursor in its page, the fetch has an aligned address and a window that ends with
-- the page or has one instruction, and the cursor of the next instruction is aligned in its page.
pub advance-resolve-IsInPage :
    {R : Type 0} (m : BulkBus R) (thumb : Bool) (c : Cursor) (e : Emu R)
    → IsInPage (step_of thumb) c
    → IsResolved (step_of thumb) (resolve m thumb c e)
      × IsInPage (step_of thumb) (advance (step_of thumb) (resolve m thumb c e))
advance-resolve-IsInPage m thumb c e h =
    let r = resolve-IsResolved m thumb c e h in (r, advance-IsInPage thumb (resolve m thumb c e) r)
