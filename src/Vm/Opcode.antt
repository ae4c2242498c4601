-- ===== src/Vm/Opcode.antt =====
-- crates/match-logic/src/vm.rs, `mod op`: the opcodes, in the order of their bytes 0x00 to 0x18.
use prisoners_arena_program.Base.{ℕ, Option, List, [], ◌∷◌, get_elem?}

pub data Op : Type 0 where
  coop push opp_last my_last opp_n my_n opp_defects my_defects : Op
  round rand add sub mul gt lt eq not and or dup : Op
  jmp_fwd jmp_fwd_if defect score_last return : Op

abbrev pub opcodes : List Op
opcodes =
    coop ∷ push ∷ opp_last ∷ my_last ∷ opp_n ∷ my_n ∷ opp_defects ∷ my_defects ∷ round ∷ rand ∷ add
    ∷ sub ∷ mul ∷ gt ∷ lt ∷ eq ∷ not ∷ and ∷ or ∷ dup ∷ jmp_fwd ∷ jmp_fwd_if ∷ defect ∷ score_last
    ∷ return ∷ []

-- The arm of `match opcode` that a byte takes; `none` is the arm `_`.
unfoldable pub decode : ℕ → Option Op
decode opcode = get_elem? opcodes opcode
