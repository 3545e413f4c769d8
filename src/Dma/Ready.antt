-- ===== src/Dma/Ready.antt =====
-- A channel that is enabled has words to transfer, and not more than its number allows.
use advanced_slop.Base.{
  ℕ, ◌/◌, ◌%◌, ◌^◌, ◌<◌, ◌≤◌, ◌≡◌, ◌⊎◌, inl, inr, refl, sym, ap, ◌∙◌, arith, Bool, true, false, not,
  ◌&&◌, ◌==◌, if◌then◌else◌, bit_and, min,
}
use advanced_slop.Base.Word.{masked, digit-masked, has_bit_lem}
use advanced_slop.Base.Digits.{
  digit, digit_lem, complement, digit-bit_and, bit_and-le_right, bit_and-low_mask,
}
use advanced_slop.Dma.{DmaChannel, enabled, max_count, dma_word_count, repeats, has_mode, start_imm}
use advanced_slop.Dma.Control.{cnt_mask, write_cnt, end_channel}

unfoldable pub IsReady : ℕ → DmaChannel → Type 0
IsReady n c =
    (c.cnt % 2 ^ 16 < max_count n)
    × ((enabled c.cnt ≡ false) ⊎ ((1 ≤ c.current_count) × (c.current_count ≤ max_count n)))

dma_word_count-range :
    (cnt n : ℕ)
    → cnt % 2 ^ 16 < max_count n
    → (1 ≤ dma_word_count cnt n) × (dma_word_count cnt n ≤ max_count n)
unfolding dma_word_count
dma_word_count-range cnt n h = ground (arith, h)

-- The count of a word, bit by bit: for all channels but the last its two top bits are 0.
low_count : (x : ℕ) → x / 2 ^ 14 % 2 ≡ 0 → x / 2 ^ 15 % 2 ≡ 0 → x % 2 ^ 16 < 2 ^ 14
low_count x h k = omega arith

masked_bit :
    (old mask value m k : ℕ)
    → m < 2 ^ 32
    → k < 32
    → digit m k ≡ 0
    → digit (masked 32 old (bit_and mask m) value) k ≡ digit old k
masked_bit old mask value m k small hk e = ground (
  arith,
  digit-masked 32 old (bit_and mask m) value k
      (omega (arith, small, bit_and-le_right m mask m (omega arith))) hk,
  digit-bit_and mask m k,
  e,
)

masked_count_small :
    (old mask value : ℕ)
    → old % 2 ^ 16 < 2 ^ 14
    → masked 32 old (bit_and mask 0xf7e0_3fff) value % 2 ^ 16 < 2 ^ 14
masked_count_small old mask value h =
    let x : ℕ = masked 32 old (bit_and mask 0xf7e0_3fff) value in
    let bit_14 : x / 2 ^ 14 % 2 ≡ 0 =
      sym (digit_lem x 14)
      ∙ (masked_bit old mask value 0xf7e0_3fff 14 (omega arith) (omega arith) refl
          ∙ (digit_lem old 14 ∙ omega (arith, h))) in
    let bit_15 : x / 2 ^ 15 % 2 ≡ 0 =
      sym (digit_lem x 15)
      ∙ (masked_bit old mask value 0xf7e0_3fff 15 (omega arith) (omega arith) refl
          ∙ (digit_lem old 15 ∙ omega (arith, h))) in
    low_count x bit_14 bit_15

masked_count :
    (b : Bool) (old mask value : ℕ)
    → old % 2 ^ 16 < (if b then 0x10000 else 0x4000)
    → masked 32 old (bit_and mask (if b then 0xf7e0_ffff else 0xf7e0_3fff)) value % 2 ^ 16
      < (if b then 0x10000 else 0x4000)
masked_count true old mask value h = omega arith
masked_count false old mask value h = masked_count_small old mask value h

write_cases :
    (was now : Bool) (most cnt : ℕ) (c : DmaChannel) (count : ℕ)
    → enabled cnt ≡ now
    → cnt % 2 ^ 16 < most
    → (1 ≤ count) × (count ≤ most)
    → (was ≡ false) ⊎ ((1 ≤ c.current_count) × (c.current_count ≤ most))
    → let written : DmaChannel = record c { cnt = cnt } in
      let d : DmaChannel =
        if not was && now
        then (record written { current_src = c.sad; current_dest = c.dad; current_count = count })
        else written in
      (d.cnt % 2 ^ 16 < most)
      × ((enabled d.cnt ≡ false) ⊎ ((1 ≤ d.current_count) × (d.current_count ≤ most)))
write_cases true true most cnt c count e small range (inl off) = ground (arith, off)
write_cases true true most cnt c count e small range (inr ready) = (small, inr ready)
write_cases true false most cnt c count e small range ready = (small, inl e)
write_cases false true most cnt c count e small range ready = (small, inr range)
write_cases false false most cnt c count e small range ready = (small, inl e)

-- A write of the control word keeps a channel ready.
pub write_cnt-IsReady :
    (n mask value : ℕ) (c : DmaChannel) → IsReady n c → IsReady n (write_cnt n mask value c)
unfolding IsReady write_cnt
write_cnt-IsReady n mask value c (small, ready) =
    let cnt : ℕ = masked 32 c.cnt (bit_and mask (cnt_mask n)) value in
    let small' : cnt % 2 ^ 16 < max_count n = masked_count (n == 3) c.cnt mask value small in
    write_cases (enabled c.cnt) (enabled cnt) (max_count n) cnt c (dma_word_count cnt n) refl small'
      (dma_word_count-range cnt n small') ready

min_zero : (x : ℕ) → min x 0 ≡ 0
min_zero x = omega arith

off_IsOff : (cnt : ℕ) → enabled (bit_and cnt (complement 32 (2 ^ 31))) ≡ false
off_IsOff cnt =
    let off : digit (bit_and cnt (complement 32 (2 ^ 31))) 31 ≡ 0 =
      digit-bit_and cnt (complement 32 (2 ^ 31)) 31 ∙ min_zero (digit cnt 31) in
    has_bit_lem (bit_and cnt (complement 32 (2 ^ 31))) 31 ∙ ap (λ (t : ℕ). t == 1) off

off_count :
    (cnt most : ℕ) → cnt % 2 ^ 16 < most → bit_and cnt (complement 32 (2 ^ 31)) % 2 ^ 16 < most
off_count cnt most h = omega (arith, bit_and-low_mask cnt 31, h)

end_cases :
    (b : Bool) (most : ℕ) (c d : DmaChannel)
    → enabled d.cnt ≡ false
    → d.cnt % 2 ^ 16 < most
    → c.cnt % 2 ^ 16 < most
    → (1 ≤ c.current_count) × (c.current_count ≤ most)
    → let r : DmaChannel = if b then c else d in
      (r.cnt % 2 ^ 16 < most)
      × ((enabled r.cnt ≡ false) ⊎ ((1 ≤ r.current_count) × (r.current_count ≤ most)))
end_cases true most c d off small_d small_c range = (small_c, inr range)
end_cases false most c d off small_d small_c range = (small_d, inl off)

-- So does the end of a transfer.
pub end_channel-IsReady :
    (n cnt dest src : ℕ) (c : DmaChannel) → IsReady n c → IsReady n (end_channel n cnt dest src c)
unfolding IsReady end_channel
end_channel-IsReady n cnt dest src c (small, ready) =
    end_cases (repeats cnt && not (has_mode start_imm cnt)) (max_count n) _ _ (off_IsOff c.cnt)
      (off_count c.cnt (max_count n) small) small (dma_word_count-range c.cnt n small)
