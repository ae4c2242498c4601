-- ===== src/Strategy/Codes.antt =====
-- The byte programs of the parity tests in crates/match-logic/src/vm.rs.
use prisoners_arena_program.Base.{ℕ, Option, none, some, List, [], ◌∷◌}
use prisoners_arena_program.Strategy.{
  StrategyBase, tit_for_tat, always_defect, always_cooperate, grim_trigger, suspicious_tit_for_tat,
  tit_for_two_tats,
}

abbrev pub always_cooperate_code : List ℕ
always_cooperate_code = 0x00 ∷ []

abbrev pub always_defect_code : List ℕ
always_defect_code = 0x16 ∷ []

abbrev pub tit_for_tat_code : List ℕ
tit_for_tat_code = 0x02 ∷ 0x18 ∷ []

abbrev pub grim_trigger_code : List ℕ
grim_trigger_code = 0x06 ∷ 0x01 ∷ 0 ∷ 0x0D ∷ 0x15 ∷ 1 ∷ 0x00 ∷ 0x16 ∷ []

abbrev pub suspicious_tit_for_tat_code : List ℕ
suspicious_tit_for_tat_code = 0x08 ∷ 0x01 ∷ 0 ∷ 0x0F ∷ 0x15 ∷ 2 ∷ 0x02 ∷ 0x18 ∷ 0x16 ∷ []

abbrev pub tit_for_two_tats_code : List ℕ
tit_for_two_tats_code =
    0x08 ∷ 0x01 ∷ 2 ∷ 0x0E ∷ 0x15 ∷ 8 ∷ 0x01 ∷ 0 ∷ 0x04 ∷ 0x01 ∷ 1 ∷ 0x04 ∷ 0x11 ∷ 0x18 ∷ 0x00 ∷ []

-- The program of `test_parity_pavlov`.
abbrev pub pavlov_test_code : List ℕ
pavlov_test_code =
    0x08 ∷ 0x01 ∷ 0 ∷ 0x0F ∷ 0x15 ∷ 9 ∷ 0x17 ∷ 0x01 ∷ 3 ∷ 0x0E ∷ 0x15 ∷ 3 ∷ 0x03 ∷ 0x18 ∷ 0x03
    ∷ 0x10 ∷ 0x18 ∷ 0x00 ∷ []

-- The program that a test takes to be a built-in strategy's, but for `Pavlov`, whose program is the
-- one above; the tests have none for `Random` and `Gradual`.
unfoldable pub code_for : StrategyBase → Option (List ℕ)
code_for tit_for_tat = some tit_for_tat_code
code_for always_defect = some always_defect_code
code_for always_cooperate = some always_cooperate_code
code_for grim_trigger = some grim_trigger_code
code_for suspicious_tit_for_tat = some suspicious_tit_for_tat_code
code_for tit_for_two_tats = some tit_for_two_tats_code
code_for _ = none
