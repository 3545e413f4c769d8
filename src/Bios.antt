-- ===== src/Bios.antt =====
-- src/core/hle/bios.rs: the firmware calls, the entry of an interrupt and the return from it, over
-- the memory accesses of the machine.
pub mod Wait
pub mod Divide
pub mod Copy
pub mod Unpack
pub mod Reset
pub mod Exception
pub mod Affine
pub mod Calls
use advanced_slop.Base.{ℕ, List}
use advanced_slop.Emu.{Emu}
use advanced_slop.Interp.{read_slot, write_slot}
use advanced_slop.Interp.Memory.{Bus}

-- The accesses that `Bus` lacks: `mem_write_multiple_memset` (address, value, count),
-- `get_shm_offset`, the words of the shared memory from an offset on, and
-- `mem_read_multiple_slice` (address, count).
pub record BulkBus (R : Type 0) : Type 0 where
  pub bus : Bus R
  pub memset8 : ℕ → ℕ → ℕ → Emu R → Emu R
  pub memset32 : ℕ → ℕ → ℕ → Emu R → Emu R
  pub shm_offset : ℕ → Emu R → ℕ
  pub shm_words : ℕ → ℕ → Emu R → List ℕ
  pub read_slice : ℕ → ℕ → Emu R → List ℕ × Emu R

module _ {R : Type 0} where
  abbrev pub get : ℕ → Emu R → ℕ
  get i e = read_slot i e.regs

  abbrev pub put : ℕ → ℕ → Emu R → Emu R
  put i v e = record e { regs = write_slot i v e.regs }
