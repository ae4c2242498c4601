-- ===== src/Vm/Validate.antt =====
-- crates/match-logic/src/vm.rs: `BytecodeError` and `validate_bytecode`.
use prisoners_arena_program.Base.{
  ℕ, ◌+◌, Bool, true, false, none, some, List, [], ◌∷◌, Result, ok, err, ltb, length, if◌then◌else◌,
  ◌==◌,
}
use prisoners_arena_program.Vm.Opcode.{Op, decode}

pub data BytecodeError : Type 0 where
  empty too_long no_terminal : BytecodeError
  unknown_opcode : ℕ → ℕ → BytecodeError
  truncated_immediate jump_out_of_bounds : ℕ → BytecodeError

-- How the arms of the validator group the opcodes.
pub data Shape : Type 0 where
  terminal plain immediate jump : Shape

unfoldable pub shape : Op → Shape
shape Op.coop = terminal
shape Op.defect = terminal
shape Op.return = terminal
shape Op.push = immediate
shape Op.jmp_fwd = jump
shape Op.jmp_fwd_if = jump
shape _ = plain

-- The `while pc < bytecode.len()` loop. `len` is the length of the whole program, and the list is
-- `bytecode[pc..]`.
unfoldable pub scan : ℕ → ℕ → Bool → List ℕ → Result BytecodeError (Unit {0})
scan len pc has_terminal [] = if has_terminal then ok tt else err no_terminal
scan len pc has_terminal (opcode ∷ []) = elim (decode opcode) [
  | none ↦ err (unknown_opcode pc opcode)
  | some op ↦ elim (shape op) [
    | terminal ↦ scan len (pc + 1) true []
    | plain ↦ scan len (pc + 1) has_terminal []
    | immediate ↦ err (truncated_immediate pc)
    | jump ↦ err (truncated_immediate pc)
  ]
]
scan len pc has_terminal (opcode ∷ imm ∷ rest) = elim (decode opcode) [
  | none ↦ err (unknown_opcode pc opcode)
  | some op ↦ elim (shape op) [
    | terminal ↦ scan len (pc + 1) true (imm ∷ rest)
    | plain ↦ scan len (pc + 1) has_terminal (imm ∷ rest)
    | immediate ↦ scan len (pc + 2) has_terminal rest
    | jump ↦
        let next = scan len (pc + 2) has_terminal rest in
        if ltb len (pc + 2 + imm) then err (jump_out_of_bounds pc) else next
  ]
]

unfoldable pub validate_bytecode : List ℕ → Result BytecodeError (Unit {0})
validate_bytecode bytecode =
    if length bytecode == 0
    then err empty
    else if ltb 64 (length bytecode)
    then err too_long
    else scan (length bytecode) 0 false bytecode
