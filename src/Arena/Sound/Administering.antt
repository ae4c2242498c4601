-- ===== src/Arena/Sound/Administering.antt =====
-- Well-formedness through the admin's instructions of programs/prisoners-arena.
use prisoners_arena_program.Base.{
  ℕ, ◌^◌, ◌<◌, ◌≡◌, arith, Option, none, some, ok, inl, inr, Option-cases, Result-cases,
}
use prisoners_arena_program.Arena.State.{Pubkey, Config}
use prisoners_arena_program.Arena.World.{Runtime, World}
use prisoners_arena_program.Arena.Admin.{
  UpdateConfigParams, update_terms, update_schedule, update_config, withdraw_fees,
}
use prisoners_arena_program.Arena.Sound.{IsSoundWorld}
use prisoners_arena_program.Arena.Sound.Paying.{SameTournament-IsSoundWorld}

pub withdraw_fees-IsSoundWorld :
    (rt : Runtime) (signer : Pubkey) (w w' : World)
    → IsSoundWorld w
    → withdraw_fees rt signer w ≡ ok w'
    → IsSoundWorld w'
unfolding withdraw_fees
withdraw_fees-IsSoundWorld rt signer w w' v h =
    SameTournament-IsSoundWorld w w' v (grind arith) (grind arith) (grind (arith, v.typed))

-- A u16 or nothing.
abbrev pub FitsU16 : Option ℕ → Type 0
FitsU16 none = Unit
FitsU16 (some n) = n < 2 ^ 16

update_terms-typed :
    (p : UpdateConfigParams) (c c' : Config)
    → FitsU16 p.max_participants
    → c.max_participants < 2 ^ 16
    → update_terms p c ≡ ok c'
    → c'.max_participants < 2 ^ 16
unfolding update_terms
update_terms-typed p c c' fits small h = elim (Option-cases p.max_participants) [
  | inl e ↦ grind arith
  | inr (n, e) ↦ (let room : n < 2 ^ 16 = rw e at fits in grind arith)
]

update_schedule-typed :
    (p : UpdateConfigParams) (c c' : Config)
    → update_schedule p c ≡ ok c'
    → c'.max_participants ≡ c.max_participants
unfolding update_schedule
update_schedule-typed p c c' h = grind arith

pub update_config-typed :
    (signer : Pubkey) (p : UpdateConfigParams) (c c' : Config)
    → FitsU16 p.max_participants
    → c.max_participants < 2 ^ 16
    → update_config signer p c ≡ ok c'
    → c'.max_participants < 2 ^ 16
unfolding update_config
update_config-typed signer p c c' fits small h = elim (Result-cases (update_terms p c)) [
  | inr e ↦ absurd (grind arith)
  | inl (c₁, e) ↦
      (let first = update_terms-typed p c c₁ fits small e in
        let second = update_schedule-typed p c₁ c' (grind arith) in omega arith)
]
