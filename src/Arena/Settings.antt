-- ===== src/Arena/Settings.antt =====
-- The settings of programs/prisoners-arena: the config as it is initialized, and what any number of
-- updates leave of it.
use prisoners_arena_program.Base.{
  ℕ, ◌≤◌, ◌<◌, ◌≡◌, arith, true, List, [], ◌∷◌, ok, ◌>>=◌, Result-cases, inl, inr, >>=-eq-ok,
}
use mathlib.Core.Path.{subst}
use prisoners_arena_program.Base.Int.{ℤ, pos, ltb_ℤ}
use prisoners_arena_program.Arena.Error.{Outcome}
use prisoners_arena_program.Arena.State.{Pubkey, Config, Tournament}
use prisoners_arena_program.Arena.Admin.{
  InitializeConfigParams, UpdateConfigParams, is_even_pair, initialize_config, update_terms,
  update_schedule, update_config,
}

-- The ranges of the settings: a fee of the house of at most the whole, a stake, an even number of at
-- least two players to begin with, matches for each of them, phases that take time, and at most
-- 0.1 SOL for a transaction of the operator.
pub record IsConfigured (c : Config) : Type 0 where
  pub fee : c.house_fee_bps ≤ 10000
  pub stake : 0 < c.stake
  pub minimum : is_even_pair c.min_participants ≡ true
  pub matches : 0 < c.matches_per_player
  pub registration : ltb_ℤ (pos 0) c.registration_duration ≡ true
  pub reveal : ltb_ℤ (pos 0) c.reveal_duration ≡ true
  pub costs : c.operator_tx_fee ≤ 100000000

initialize_config-IsConfigured :
    (admin : Pubkey) (p : InitializeConfigParams) (now : ℤ) (bump tournament_bump : ℕ) (c : Config)
    (t : Tournament)
    → initialize_config admin p now bump tournament_bump ≡ ok (c, t)
    → IsConfigured c
unfolding initialize_config
initialize_config-IsConfigured admin p now bump tournament_bump c t h = record {
  fee = grind arith;
  stake = grind arith;
  minimum = grind arith;
  matches = grind arith;
  registration = grind arith;
  reveal = grind arith;
  costs = grind arith;
}

update_terms-IsConfigured :
    (p : UpdateConfigParams) (c c' : Config)
    → IsConfigured c
    → update_terms p c ≡ ok c'
    → IsConfigured c'
unfolding update_terms
update_terms-IsConfigured p c c' v h = record {
  fee = grind (arith, v.fee);
  stake = grind (arith, v.stake);
  minimum = grind (arith, v.minimum);
  matches = grind (arith, v.matches);
  registration = grind (arith, v.registration);
  reveal = grind (arith, v.reveal);
  costs = grind (arith, v.costs);
}

update_schedule-IsConfigured :
    (p : UpdateConfigParams) (c c' : Config)
    → IsConfigured c
    → update_schedule p c ≡ ok c'
    → IsConfigured c'
unfolding update_schedule
update_schedule-IsConfigured p c c' v h = record {
  fee = grind (arith, v.fee);
  stake = grind (arith, v.stake);
  minimum = grind (arith, v.minimum);
  matches = grind (arith, v.matches);
  registration = grind (arith, v.registration);
  reveal = grind (arith, v.reveal);
  costs = grind (arith, v.costs);
}

update_config-IsConfigured :
    (signer : Pubkey) (p : UpdateConfigParams) (c c' : Config)
    → IsConfigured c
    → update_config signer p c ≡ ok c'
    → IsConfigured c'
unfolding update_config
update_config-IsConfigured signer p c c' v h = elim (Result-cases (update_terms p c)) [
  | inr e ↦ absurd (grind arith)
  | inl (c₁, e) ↦
      update_schedule-IsConfigured p c₁ c' (update_terms-IsConfigured p c c₁ v e) (grind arith)
]

-- Any number of updates, each with the key that signs it.
unfoldable pub update_all : List (Pubkey × UpdateConfigParams) → Config → Outcome Config
update_all [] c = ok c
update_all ((signer, p) ∷ updates) c = do c' ← update_config signer p c; update_all updates c'

update_all-IsConfigured :
    (updates : List (Pubkey × UpdateConfigParams)) (c c' : Config)
    → IsConfigured c
    → update_all updates c ≡ ok c'
    → IsConfigured c'
unfolding update_all
update_all-IsConfigured [] c c' v h = subst IsConfigured (grind arith) v
update_all-IsConfigured ((signer, p) ∷ updates) c c' v h =
    let (c₁, e, rest) = >>=-eq-ok (update_config signer p c) (update_all updates) h in
    update_all-IsConfigured updates c₁ c' (update_config-IsConfigured signer p c c₁ v e) rest

-- After an accepted `initialize_config` and any number of accepted calls of `update_config`, the
-- settings are in their ranges: the fee of the house at most the whole, the stake positive, the
-- least number of players even and at least two, matches for each player, phases that take time, and
-- at most 0.1 SOL for a transaction of the operator.
pub initialize_config-update_all :
    (admin : Pubkey) (p : InitializeConfigParams) (now : ℤ) (bump tournament_bump : ℕ)
    (c c' : Config) (t : Tournament) (updates : List (Pubkey × UpdateConfigParams))
    → initialize_config admin p now bump tournament_bump ≡ ok (c, t)
    → update_all updates c ≡ ok c'
    → IsConfigured c'
initialize_config-update_all admin p now bump tournament_bump c c' t updates h g =
    update_all-IsConfigured updates c c'
      (initialize_config-IsConfigured admin p now bump tournament_bump c t h) g
