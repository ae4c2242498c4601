-- ===== src/Arena/Admin.antt =====
-- programs/prisoners-arena/src/instructions/admin.rs: the admin's instructions, on the accounts.
use prisoners_arena_program.Base.{
  ℕ, ◌-◌, ◌%◌, Bool, ◌&&◌, Option, none, some, ok, require, ◌>>=◌, ◌>>◌, ltb, leb, ◌==◌, min, ok_or,
}
use prisoners_arena_program.Base.Int.{ℤ, pos, ltb_ℤ, add_i64}
use prisoners_arena_program.Arena.Error.{
  Outcome, unauthorized, invalid_min_participants, overflow, no_fees_to_withdraw, unbalanced,
}
use prisoners_arena_program.Arena.State.{Pubkey, Config, Tournament, new_tournament, config_len}
use prisoners_arena_program.Arena.Ledger.{credit, checked_sub}
use prisoners_arena_program.Arena.World.{Runtime, World}

pub record InitializeConfigParams : Type 0 where
  pub operator : Pubkey
  pub stake : ℕ
  pub min_participants : ℕ
  pub max_participants : ℕ
  pub registration_duration : ℤ
  pub matches_per_player : ℕ
  pub reveal_duration : ℤ

pub record UpdateConfigParams : Type 0 where
  pub operator : Option Pubkey
  pub house_fee_bps : Option ℕ
  pub stake : Option ℕ
  pub min_participants : Option ℕ
  pub max_participants : Option ℕ
  pub registration_duration : Option ℤ
  pub matches_per_player : Option ℕ
  pub reveal_duration : Option ℤ
  pub operator_tx_fee : Option ℕ

-- `min_participants >= 2 && min_participants % 2 == 0`
abbrev pub is_even_pair : ℕ → Bool
is_even_pair n = leb 2 n && (n % 2 == 0)

-- The new accounts; `bump` and `tournament_bump` are those of their addresses.
unfoldable pub initialize_config :
    Pubkey → InitializeConfigParams → ℤ → ℕ → ℕ → Outcome (Config × Tournament)
initialize_config admin p now bump tournament_bump = do
  require (is_even_pair p.min_participants) invalid_min_participants
  require (ltb 0 p.stake) overflow
  require (leb p.min_participants p.max_participants) overflow
  require (ltb_ℤ (pos 0) p.registration_duration) overflow
  require (ltb 0 p.matches_per_player) overflow
  require (ltb_ℤ (pos 0) p.reveal_duration) overflow
  ok (
    record {
      admin = admin;
      operator = p.operator;
      house_fee_bps = 0;
      stake = p.stake;
      min_participants = p.min_participants;
      max_participants = p.max_participants;
      registration_duration = p.registration_duration;
      matches_per_player = p.matches_per_player;
      accumulated_fees = 0;
      current_tournament_id = 0;
      reveal_duration = p.reveal_duration;
      bump = bump;
      operator_tx_fee = 0;
    },
    new_tournament 0 p.stake 0 p.matches_per_player p.registration_duration p.reveal_duration
        (add_i64 now p.registration_duration) tournament_bump,
  )

-- One `if let Some(value) = field` of `update_config`: a check against the config as it is, and a
-- write.
abbrev pub updating :
    {A : Type 0}
    → Option A
    → (Config → A → Outcome (Unit {0}))
    → (Config → A → Config)
    → Config
    → Outcome Config
updating none check write c = ok c
updating (some value) check write c = do check c value; ok (write c value)

-- The first five of its fields.
unfoldable pub update_terms : UpdateConfigParams → Config → Outcome Config
update_terms p c = do
  c₁ ← updating p.operator (λ _ _. ok tt) (λ c v. record c { operator = v }) c
  c₂ ←
      updating p.house_fee_bps (λ _ v. require (leb v 10000) overflow)
        (λ c v. record c { house_fee_bps = v }) c₁
  c₃ ← updating p.stake (λ _ v. require (ltb 0 v) overflow) (λ c v. record c { stake = v }) c₂
  c₄ ←
      updating p.min_participants (λ _ v. require (is_even_pair v) invalid_min_participants)
        (λ c v. record c { min_participants = v }) c₃
  updating p.max_participants (λ c v. require (leb c.min_participants v) overflow)
      (λ c v. record c { max_participants = v }) c₄

-- The other four.
unfoldable pub update_schedule : UpdateConfigParams → Config → Outcome Config
update_schedule p c = do
  c₁ ←
      updating p.registration_duration (λ _ v. require (ltb_ℤ (pos 0) v) overflow)
        (λ c v. record c { registration_duration = v }) c
  c₂ ←
      updating p.matches_per_player (λ _ v. require (ltb 0 v) overflow)
        (λ c v. record c { matches_per_player = v }) c₁
  c₃ ←
      updating p.reveal_duration (λ _ v. require (ltb_ℤ (pos 0) v) overflow)
        (λ c v. record c { reveal_duration = v }) c₂
  updating p.operator_tx_fee (λ _ v. require (leb v 100000000) overflow)
      (λ c v. record c { operator_tx_fee = v }) c₃

unfoldable pub update_config : Pubkey → UpdateConfigParams → Config → Outcome Config
update_config signer p c = do
  require (signer == c.admin) unauthorized
  c₁ ← update_terms p c
  update_schedule p c₁

-- `data_len` of the config's account is `Config::LEN`.
unfoldable pub withdraw_fees : Runtime → Pubkey → World → Outcome World
withdraw_fees rt signer w = do
  require (signer == w.config.admin) unauthorized
  require (ltb 0 w.config.accumulated_fees) no_fees_to_withdraw
  let amount = min w.config.accumulated_fees (w.config_lamports - rt.minimum_balance config_len)
  fees ← ok_or (checked_sub w.config.accumulated_fees amount) overflow
  lamports ← ok_or (checked_sub w.config_lamports amount) unbalanced
  ok (record w {
    config = record w.config { accumulated_fees = fees };
    config_lamports = lamports;
    wallets = credit signer amount w.wallets;
  })
