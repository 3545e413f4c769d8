-- ===== src/Decode.antt =====
-- The decoders: the flat tables of the interpreter and of the disassembler, and what they decode.
pub mod Op
pub mod Handlers
pub mod ThumbHandlers
pub mod Fields
pub mod Lines
pub mod ArmTable
pub mod ThumbTable
pub mod Lookup
pub mod ThumbLookup
pub mod Ops
pub mod ThumbFields
pub mod Entries
pub mod Index
