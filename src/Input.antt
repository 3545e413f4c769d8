-- ===== src/Input.antt =====
-- src/core/input.rs: the keypad, and its interrupt. The host's key map, which the user interface
-- shares with the core, is a field.
use advanced_slop.Base.{
  ℕ, ◌≡◌, refl, Bool, true, false, not, ◌&&◌, ◌==◌, if◌then◌else◌, bit_and, bit_or,
}
use advanced_slop.Base.Word.{masked, has_bit}
use advanced_slop.Base.Digits.{complement}
use advanced_slop.Cpu.Interrupts.{keypad, cpu_send_interrupt}
use advanced_slop.Emu.{Emu}

pub record Input : Type 0 where
  pub key_input : ℕ
  pub key_cnt : ℕ
  pub key_map : ℕ
  pub prev_keypad_irq : Bool

unfoldable pub new : ℕ → Input
new key_map = record { key_input = 0x3ff; key_cnt = 0; key_map = key_map; prev_keypad_irq = false }

unfoldable pub get_key_input : Input → ℕ
get_key_input i = bit_or (bit_and i.key_input (complement 16 0x3ff)) (bit_and i.key_map 0x3ff)

unfoldable pub set_key_cnt : ℕ → ℕ → Input → Input
set_key_cnt mask value i = record i { key_cnt = masked 16 i.key_cnt (bit_and mask 0xc3ff) value }

-- The condition of the interrupt: all selected keys, or any of them; a key is down when its bit is 0.
unfoldable pub hit : Input → Bool
unfolding get_key_input
hit i =
    let pressed : ℕ = bit_and (complement 16 (get_key_input i)) 0x3ff in
    let selected : ℕ = bit_and i.key_cnt 0x3ff in
    if has_bit i.key_cnt 15
    then not (selected == 0) && bit_and pressed selected == selected
    else not (bit_and pressed selected == 0)

module _ {R : Type 0} where
  unfoldable pub input_process_hotkeys : Input × Emu R → Input × Emu R
  unfolding hit
  input_process_hotkeys (i, e) =
      if has_bit i.key_cnt 14
      then (
        record i { prev_keypad_irq = hit i },
        if hit i && not i.prev_keypad_irq then cpu_send_interrupt keypad e else e,
      )
      else (record i { prev_keypad_irq = false }, e)

  -- The three kinds of frames: the condition comes true, stays true, and is not true.
  pressed :
      (i : Input) (e : Emu R)
      → has_bit i.key_cnt 14 ≡ true
      → i.prev_keypad_irq ≡ false
      → hit i ≡ true
      → input_process_hotkeys (i, e)
        ≡ (record i { prev_keypad_irq = true }, cpu_send_interrupt keypad e)
  unfolding input_process_hotkeys
  pressed i e on before down = rw (on, down, before) refl

  held_down :
      (i : Input) (e : Emu R)
      → has_bit i.key_cnt 14 ≡ true
      → hit i ≡ true
      → input_process_hotkeys (record i { prev_keypad_irq = true }, e)
        ≡ (record i { prev_keypad_irq = true }, e)
  unfolding input_process_hotkeys hit
  held_down i e on down = rw (on, down) refl

  let_go :
      (i : Input) (e : Emu R)
      → has_bit i.key_cnt 14 ≡ true
      → hit i ≡ false
      → input_process_hotkeys (i, e) ≡ (record i { prev_keypad_irq = false }, e)
  unfolding input_process_hotkeys
  let_go i e on up = rw (on, up) refl

  -- With the interrupt enabled: if the condition comes true, the interrupt is sent; in a later frame
  -- with the same keys nothing happens, whatever the machine has done since (it may have acknowledged
  -- the flag); when the keys no longer meet the condition nothing is sent, and when they meet it again
  -- the interrupt is sent again.
  pub input_process_hotkeys_edges :
      (i : Input) (released : ℕ) (e later after : Emu R)
      → has_bit i.key_cnt 14 ≡ true
      → i.prev_keypad_irq ≡ false
      → hit i ≡ true
      → hit (record i { key_map = released }) ≡ false
      → let (held, raised) = input_process_hotkeys (i, e) in
        let (up, quiet) = input_process_hotkeys (record held { key_map = released }, later) in
        (raised ≡ cpu_send_interrupt keypad e)
        × (input_process_hotkeys (held, later) ≡ (held, later))
        × (quiet ≡ later)
        × ((input_process_hotkeys (record up { key_map = i.key_map }, after)).1
            ≡ cpu_send_interrupt keypad after)
  unfolding hit get_key_input
  input_process_hotkeys_edges i released e later after on before down up =
      let i' : Input = record i { key_map = released; prev_keypad_irq = true } in
      let again : Input = record i { prev_keypad_irq = false } in
      rw
        (
          pressed i e on before down,
          held_down i later on down,
          let_go i' later on up,
          pressed again after on refl down,
        )
        (refl, refl, refl, refl)
