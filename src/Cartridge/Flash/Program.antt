-- ===== src/Cartridge/Flash/Program.antt =====
-- The program command of the flash chip: what the four writes leave behind.
use advanced_slop.Base.{
  ℕ, ◌+◌, ◌*◌, ◌<◌, ◌≡◌, ◌⊎◌, inl, inr, ◌%◌, ◌^◌, refl, sym, ap, ap₂, ◌∙◌, arith, [], ◌∷◌, ◌==◌,
  if◌then◌else◌, length, bit_and,
}
use advanced_slop.Cartridge.{
  initial_size, SaveType, CartridgeIo, Cartridge, FlashState, EepromState, default_flash,
  read_save_buf, write_save_buf,
}
use advanced_slop.Cartridge.Flash.{
  command, third_write, read_flash, cartridge_write_flash, read_chip, cartridge_read_sram,
  cartridge_write_sram,
}
use advanced_slop.Base.Digits.{bit_and-low_mask}
use advanced_slop.Cartridge.Buffer.{read_save_buf-write_save_buf}
use advanced_slop.Cartridge.Flash.Protect.{IsFlash, write_all, write_sram_flash}

read_sram_flash :
    (addr : ℕ) (c : Cartridge)
    → IsFlash c.io.save_type
    → cartridge_read_sram addr c ≡ read_flash (bit_and addr 0xffff) c
unfolding cartridge_read_sram read_chip IsFlash
read_sram_flash addr c (inl e) = rw e refl
read_sram_flash addr c (inr e) = rw e refl

-- The four writes that program a byte.
abbrev pub program : ℕ → ℕ → Cartridge → Cartridge
program addr value =
    write_all ((0x0e005555, 0xaa) ∷ (0x0e002aaa, 0x55) ∷ (0x0e005555, 0xa0) ∷ (addr, value) ∷ [])

abbrev pub idle : ℕ → FlashState
idle bank = record default_flash { bank = bank }

program_flash :
    (bank offset value : ℕ) (io : CartridgeIo) (e : EepromState)
    → cartridge_write_flash offset value (
        cartridge_write_flash 0x5555 0xa0 (
          cartridge_write_flash 0x2aaa 0x55 (
            cartridge_write_flash 0x5555 0xaa (record { io = io; flash = idle bank; eeprom = e }))))
      ≡ record {
        io = write_save_buf (bank * 0x10000 + offset) value io;
        flash = idle bank;
        eeprom = e;
      }
unfolding cartridge_write_flash third_write command
program_flash bank offset value io e = refl

-- The place of an address in the buffer.
abbrev pub place : ℕ → ℕ → ℕ
place bank addr = bank * 0x10000 + bit_and addr 0xffff

module _ (bank addr value : ℕ) where
  program_parts :
      (io : CartridgeIo) (e : EepromState)
      → IsFlash io.save_type
      → program addr value (record { io = io; flash = idle bank; eeprom = e })
        ≡ record { io = write_save_buf (place bank addr) value io; flash = idle bank; eeprom = e }
  unfolding cartridge_write_flash third_write command
  program_parts io e is_flash =
      let w = λ (a : ℕ) (v : ℕ) (d : Cartridge). cartridge_write_sram a v d in
      let c0 : Cartridge = record { io = io; flash = idle bank; eeprom = e } in
      let c1 : Cartridge = cartridge_write_flash 0x5555 0xaa c0 in
      let c2 : Cartridge = cartridge_write_flash 0x2aaa 0x55 c1 in
      let c3 : Cartridge = cartridge_write_flash 0x5555 0xa0 c2 in
      ap (λ d. w addr value (w 0x0e005555 0xa0 (w 0x0e002aaa 0x55 d)))
        (write_sram_flash 0x0e005555 0xaa c0 is_flash)
      ∙ (ap (λ d. w addr value (w 0x0e005555 0xa0 d)) (write_sram_flash 0x0e002aaa 0x55 c1 is_flash)
          ∙ (ap (λ d. w addr value d) (write_sram_flash 0x0e005555 0xa0 c2 is_flash)
              ∙ write_sram_flash addr value c3 is_flash))

  -- From an idle chip the four writes store the byte, and leave the chip idle.
  program_stores :
      (c : Cartridge)
      → IsFlash c.io.save_type
      → c.flash ≡ idle bank
      → program addr value c ≡ record c { io = write_save_buf (place bank addr) value c.io }
  program_stores c is_flash e =
      ap (λ f. program addr value (record c { flash = f })) e
      ∙ (program_parts c.io c.eeprom is_flash
          ∙ ap
              (λ f. record {
                io = write_save_buf (place bank addr) value c.io;
                flash = f;
                eeprom = c.eeprom;
              })
              (sym e))

read_idle :
    (bank other : ℕ) (c : Cartridge)
    → IsFlash c.io.save_type
    → c.flash ≡ idle bank
    → cartridge_read_sram other c ≡ read_save_buf (place bank other) c.io
unfolding read_flash
read_idle bank other c is_flash e =
    read_sram_flash other c is_flash
    ∙ ap (λ (f : FlashState). read_flash (bit_and other 0xffff) (record c { flash = f })) e

same_place_16 :
    (b x y : ℕ)
    → x < 0x10000
    → y < 0x10000
    → ((b * 0x10000 + x) % 2 ^ 16 == (b * 0x10000 + y) % 2 ^ 16) ≡ (x == y)
same_place_16 b x y hx hy = ground arith

same_place_17 :
    (b x y : ℕ)
    → x < 0x10000
    → y < 0x10000
    → ((b * 0x10000 + x) % 2 ^ 17 == (b * 0x10000 + y) % 2 ^ 17) ≡ (x == y)
same_place_17 b x y hx hy = ground arith

same_place :
    (bank addr other k : ℕ)
    → (k ≡ 16) ⊎ (k ≡ 17)
    → (place bank other % 2 ^ k == place bank addr % 2 ^ k) ≡ (other % 0x10000 == addr % 0x10000)
same_place bank addr other k h =
    let low = λ (a : ℕ). bit_and-low_mask a 16 in
    rw (low other, low addr)
      elim h [
        | inl e ↦
            rw e (same_place_16 bank (other % 0x10000) (addr % 0x10000) (omega arith) (omega arith))
        | inr e ↦
            rw e (same_place_17 bank (other % 0x10000) (addr % 0x10000) (omega arith) (omega arith))
      ]

write_save_buf-save_type :
    (addr value : ℕ) (io : CartridgeIo) → (write_save_buf addr value io).save_type ≡ io.save_type
unfolding write_save_buf
write_save_buf-save_type addr value io = ground arith

chip_size : (t : SaveType) → IsFlash t → (k : ℕ) × ((k ≡ 16) ⊎ (k ≡ 17)) × (initial_size t ≡ 2 ^ k)
unfolding IsFlash initial_size
chip_size t (inl e) = (16, inl refl, ap initial_size e)
chip_size t (inr e) = (17, inr refl, ap initial_size e)

-- In an idle flash chip of its type's size the program command stores its byte: a read of an
-- address returns it if the address agrees modulo 0x10000 with the programmed one, and otherwise
-- what it returned before.
pub read-program :
    (bank addr other value : ℕ) (c : Cartridge)
    → IsFlash c.io.save_type
    → c.flash ≡ idle bank
    → length c.io.save_buf ≡ initial_size c.io.save_type
    → cartridge_read_sram other (program addr value c)
      ≡ (if other % 0x10000 == addr % 0x10000 then value else cartridge_read_sram other c)
read-program bank addr other value c is_flash e size =
    let (k, small, size_k) = chip_size c.io.save_type is_flash in
    let after : Cartridge = record c { io = write_save_buf (place bank addr) value c.io } in
    ap (cartridge_read_sram other) (program_stores bank addr value c is_flash e)
    ∙ (read_idle bank other after
          (rw (write_save_buf-save_type (place bank addr) value c.io) is_flash) e
        ∙ (read_save_buf-write_save_buf k (place bank other) (place bank addr) value c.io
              (size ∙ size_k)
            ∙ ap₂ (λ b v. if b then value else v) (same_place bank addr other k small)
                (sym (read_idle bank other c is_flash e))))
