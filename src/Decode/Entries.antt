-- ===== src/Decode/Entries.antt =====
-- The tables hold what the fields of an opcode say, entry by entry.
use advanced_slop.Base.{
  ℕ, zero, suc, ◌+◌, ◌/◌, ◌%◌, ◌<◌, List, [], ◌∷◌, ◌≡◌, refl, get_or, ap, arith, ◌∙◌,
}
use advanced_slop.Decode.Op.{Op, single, multiple}
use advanced_slop.Decode.Handlers.{ArmFn, single_generics, half_generics, block_form}
use advanced_slop.Decode.ThumbHandlers.{ThumbFn}
use advanced_slop.Decode.Fields.{arm_fields, single_addr, half_addr, block_mode}
use advanced_slop.Decode.ThumbFields.{thumb_fields, thumb_op_of}
use advanced_slop.Decode.Ops.{op_of}
use advanced_slop.Decode.ArmTable.{arm_table}
use advanced_slop.Decode.ThumbTable.{thumb_table}
use advanced_slop.Decode.Lookup.{lookup_table}
use advanced_slop.Decode.ThumbLookup.{thumb_lookup_table}

unfoldable pub tabulate : {A : Type 0} → (ℕ → A) → ℕ → ℕ → List A
tabulate f start zero = []
tabulate f start (suc n) = f start ∷ tabulate f (start + 1) n

get_or-tabulate :
    {A : Type 0} (f : ℕ → A) (n start i : ℕ) (d : A)
    → i < n
    → get_or (tabulate f start n) i d ≡ f (start + i)
unfolding tabulate
get_or-tabulate f zero start i d h = elim h [ ]
get_or-tabulate f (suc n) start zero d h = ap f (omega arith)
get_or-tabulate f (suc n) start (suc i) d h =
    get_or-tabulate f n (start + 1) i d (omega arith) ∙ ap f (omega arith)

pub get_or-tabulate_zero :
    {A : Type 0} (f : ℕ → A) (n i : ℕ) (d : A) → i < n → get_or (tabulate f 0 n) i d ≡ f i
get_or-tabulate_zero f n i d h = get_or-tabulate f n 0 i d h ∙ ap f (omega arith)

abbrev pub arm_entry : ℕ → ArmFn
arm_entry i = arm_fields (i / 16) (i % 16)

abbrev pub lookup_entry : ℕ → Op × ArmFn
lookup_entry i = (op_of (arm_entry i), arm_entry i)

abbrev pub thumb_entry : ℕ → Op × ThumbFn
thumb_entry i = (thumb_op_of (thumb_fields i), thumb_fields i)

pub arm_table-tabulate : arm_table ≡ tabulate arm_entry 0 4096
unfolding arm_table tabulate arm_fields single_addr half_addr block_mode
arm_table-tabulate = refl

pub lookup_table-tabulate : lookup_table ≡ tabulate lookup_entry 0 4096
unfolding lookup_table tabulate arm_fields single_addr half_addr block_mode op_of single_generics
    half_generics block_form single multiple
lookup_table-tabulate = refl

pub thumb_table-tabulate : thumb_table ≡ tabulate thumb_fields 0 1024
unfolding thumb_table tabulate thumb_fields
thumb_table-tabulate = refl

pub thumb_lookup_table-tabulate : thumb_lookup_table ≡ tabulate thumb_entry 0 1024
unfolding thumb_lookup_table tabulate thumb_fields thumb_op_of single multiple
thumb_lookup_table-tabulate = refl
