-- ===== src/Decode/Lookup.antt =====
-- src/jit/disassembler/lookup_table.rs: the table by its chunks.
pub mod Registers
pub mod Immediates
pub mod Postindexed
pub mod Preindexed
pub mod Rest
use advanced_slop.Base.{List, ◌++◌}
use advanced_slop.Decode.Op.{Op}
use advanced_slop.Decode.Handlers.{ArmFn}
use advanced_slop.Decode.Lookup.Registers.{
  lookup_chunk0, lookup_chunk1, lookup_chunk2, lookup_chunk3,
}
use advanced_slop.Decode.Lookup.Immediates.{
  lookup_chunk4, lookup_chunk5, lookup_chunk6, lookup_chunk7, lookup_chunk8, lookup_chunk9,
  lookup_chunk10, lookup_chunk11,
}
use advanced_slop.Decode.Lookup.Postindexed.{lookup_chunk12, lookup_chunk13}
use advanced_slop.Decode.Lookup.Preindexed.{lookup_chunk14, lookup_chunk15}
use advanced_slop.Decode.Lookup.Rest.{
  lookup_chunk16, lookup_chunk17, lookup_chunk18, lookup_chunk19, lookup_chunk20, lookup_chunk21,
  lookup_chunk22, lookup_chunk23, lookup_chunk24, lookup_chunk25, lookup_chunk26, lookup_chunk27,
  lookup_chunk28, lookup_chunk29, lookup_chunk30, lookup_chunk31,
}

unfoldable pub lookup_table : List (Op × ArmFn)
lookup_table =
    lookup_chunk0 ++ lookup_chunk1 ++ lookup_chunk2 ++ lookup_chunk3 ++ lookup_chunk4
    ++ lookup_chunk5 ++ lookup_chunk6 ++ lookup_chunk7 ++ lookup_chunk8 ++ lookup_chunk9
    ++ lookup_chunk10 ++ lookup_chunk11 ++ lookup_chunk12 ++ lookup_chunk13 ++ lookup_chunk14
    ++ lookup_chunk15 ++ lookup_chunk16 ++ lookup_chunk17 ++ lookup_chunk18 ++ lookup_chunk19
    ++ lookup_chunk20 ++ lookup_chunk21 ++ lookup_chunk22 ++ lookup_chunk23 ++ lookup_chunk24
    ++ lookup_chunk25 ++ lookup_chunk26 ++ lookup_chunk27 ++ lookup_chunk28 ++ lookup_chunk29
    ++ lookup_chunk30 ++ lookup_chunk31
