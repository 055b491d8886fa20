-- ===== src/Shadow/Sending.antt =====
-- What the flows of trident-tests/fuzz_0/test_fuzz.rs send to the program: the harness's keys, its
-- accounts for each instruction, and each flow beside what the shadow model expects of it.
use shake_escrow.Base.{ℕ, ◌*◌, Bool, List, [], ◌∷◌, Option, none, some}
use shake_escrow.Base.Int.{ℤ, pos}
use shake_escrow.Base.Dict.{lookup}
use shake_escrow.State.{Pubkey}
use shake_escrow.Runtime.{Runtime}
use shake_escrow.Runtime.Addresses.{wager_seeds, counter_seeds}
use shake_escrow.Instructions.UpdateConfig.{UpdateConfigArgs}
use shake_escrow.Instructions.InitializeConfig.{InitializeConfigArgs}
use shake_escrow.Instructions.CreateWager.{CreateWager, CreateWagerArgs}
use shake_escrow.Instructions.StakeSide.{StakeSide}
use shake_escrow.Instructions.UnstakeSide.{UnstakeSide}
use shake_escrow.Instructions.Resolve.{Resolve}
use shake_escrow.Instructions.Concede.{Concede}
use shake_escrow.Instructions.RefundSide.{RefundSide}
use shake_escrow.Instructions.Cancel.{CancelAccept}
use shake_escrow.Instructions.CloseExpired.{CloseExpired}
use shake_escrow.Program.{Instruction}
use shake_escrow.Shadow.{usdc, cap_per_wallet, global_cap, start_fee_bps, Side, MWager, Shadow}
use shake_escrow.Shadow.Flows.{
  flow_create, flow_stake, flow_unstake, flow_resolve, named_winner, flow_concede, actor_of,
  flow_refund, flow_close, flow_propose, flow_clear, flow_accept, flow_update_fee,
}

-- The keys that the harness fixes before the first flow.
pub record Fixture : Type 0 where
  pub admin : Pubkey
  pub ops : Pubkey
  pub resolver : Pubkey
  pub agent : Pubkey
  pub actors : List Pubkey
  pub mint : Pubkey
  pub terms_hash : ℕ

-- A flow with what its random choices gave. `resolve` carries the winner that is named, `concede`
-- whether the conceder names itself, `refund` and `close` the random key that signs.
pub data Flow : Type 0 where
  create_wager : (sa sb : Pubkey) (nonce stake : ℕ) (d_fund d_resolve : ℤ) → Flow
  stake_side : (k actor : Pubkey) → Flow
  unstake_side : (k actor : Pubkey) → Flow
  resolve : (k winner : Pubkey) → Flow
  concede : (k actor : Pubkey) (names_self : Bool) → Flow
  refund_side : (k : Pubkey) (s : Side) (cranker : Pubkey) → Flow
  close_expired : (k cranker : Pubkey) → Flow
  cancel_propose : (k actor : Pubkey) → Flow
  cancel_clear : (k actor : Pubkey) → Flow
  cancel_accept : (k actor : Pubkey) → Flow
  update_fee : (new_fee : ℕ) → Flow

-- `let w = self.wagers[wi].clone()`; nothing happens on a wager that is not the harness's.
abbrev pub chosen {ℓ} : {A : Type ℓ} → Pubkey → Shadow → (MWager → Option A) → Option A
chosen k m go = elim (lookup k m.wagers) [ none ↦ none | some g ↦ go g ]

module _ (rt : Runtime) (fx : Fixture) where
  abbrev pub ata : Pubkey → Pubkey
  ata owner = rt.associated_address fx.mint owner

  abbrev pub fee_token : Pubkey
  fee_token = ata fx.agent

  abbrev pub wager_pda : Pubkey → ℕ → Pubkey
  wager_pda side_a nonce = (rt.find_program_address (wager_seeds side_a nonce)).0

  abbrev pub counter_pda : Pubkey → Pubkey
  counter_pda wallet = (rt.find_program_address (counter_seeds wallet)).0

  -- The first config.
  abbrev pub init_args : InitializeConfigArgs
  init_args = record {
    mint = fx.mint;
    fee_bps = start_fee_bps;
    fee_destination = fee_token;
    rent_collector = fx.ops;
    min_stake = usdc;
    max_stake = 100 * usdc;
    max_open_per_wallet = cap_per_wallet;
    resolvers = fx.resolver ∷ [];
    max_window = pos (30 * 86400);
    max_total_open = global_cap;
  }

  abbrev pub create_accounts : (sa : Pubkey) (nonce : ℕ) → CreateWager
  create_accounts sa nonce = record {
    payer = fx.ops;
    wager = wager_pda sa nonce;
    mint = fx.mint;
    vault = ata (wager_pda sa nonce);
  }

  abbrev pub create_args :
      (sa sb : Pubkey) (nonce stake : ℕ) (d_fund d_resolve : ℤ) → CreateWagerArgs
  create_args sa sb nonce stake d_fund d_resolve = record {
    nonce = nonce;
    side_a = sa;
    side_b = sb;
    stake = stake;
    terms_hash = fx.terms_hash;
    deadline_fund = d_fund;
    deadline_resolve = d_resolve;
    resolver = fx.resolver;
  }

  abbrev pub stake_accounts : (k actor : Pubkey) → StakeSide
  stake_accounts k actor = record {
    staker = actor;
    payer = fx.ops;
    wager = k;
    counter = counter_pda actor;
    staker_token = ata actor;
    vault = ata k;
  }

  abbrev pub unstake_accounts : (k actor : Pubkey) → UnstakeSide
  unstake_accounts k actor = record {
    staker = actor;
    wager = k;
    counter = counter_pda actor;
    staker_token = ata actor;
    vault = ata k;
  }

  abbrev pub resolve_accounts : Pubkey → MWager → Pubkey → Resolve
  resolve_accounts k g winner = record {
    resolver = fx.resolver;
    wager = k;
    winner = winner;
    winner_token = ata winner;
    fee_token = fee_token;
    vault = ata k;
    counter_a = counter_pda g.sa;
    counter_b = counter_pda g.sb;
    rent_collector = fx.ops;
  }

  abbrev pub concede_accounts : Pubkey → MWager → Pubkey → Bool → Concede
  concede_accounts k g actor names_self = record {
    conceder = actor;
    wager = k;
    winner = named_winner g actor names_self;
    winner_token = ata (named_winner g actor names_self);
    fee_token = fee_token;
    vault = ata k;
    counter_a = counter_pda g.sa;
    counter_b = counter_pda g.sb;
    rent_collector = fx.ops;
  }

  abbrev pub refund_accounts : Pubkey → MWager → Side → Pubkey → RefundSide
  refund_accounts k g s cranker = record {
    cranker = cranker;
    wager = k;
    side = actor_of g s;
    side_token = ata (actor_of g s);
    counter = counter_pda (actor_of g s);
    vault = ata k;
  }

  abbrev pub close_accounts : (k cranker : Pubkey) → CloseExpired
  close_accounts k cranker = record {
    cranker = cranker;
    wager = k;
    vault = ata k;
    fee_token = some fee_token;
    rent_collector = fx.ops;
  }

  abbrev pub accept_accounts : Pubkey → MWager → Pubkey → CancelAccept
  accept_accounts k g actor = record {
    acceptor = actor;
    wager = k;
    side_a = g.sa;
    side_b = g.sb;
    side_a_token = ata g.sa;
    side_b_token = ata g.sb;
    counter_a = counter_pda g.sa;
    counter_b = counter_pda g.sb;
    fee_token = fee_token;
    vault = ata k;
    rent_collector = fx.ops;
  }

  -- The admin changes the fee and nothing else.
  abbrev pub fee_args : ℕ → UpdateConfigArgs
  fee_args new_fee = record {
    fee_bps = some new_fee;
    fee_destination = none;
    rent_collector = none;
    min_stake = none;
    max_stake = none;
    max_open_per_wallet = none;
    resolvers = none;
    paused = none;
    max_window = none;
    max_total_open = none;
  }

  -- The transaction of a flow.
  abbrev pub sent : Shadow → Flow → Option Instruction
  sent m (Flow.create_wager sa sb nonce stake d_fund d_resolve) = some (
      Instruction.create_wager (create_accounts sa nonce)
        (create_args sa sb nonce stake d_fund d_resolve))
  sent m (Flow.stake_side k actor) =
      chosen k m λ g. some (Instruction.stake_side (stake_accounts k actor))
  sent m (Flow.unstake_side k actor) =
      chosen k m λ g. some (Instruction.unstake_side (unstake_accounts k actor))
  sent m (Flow.resolve k winner) =
      chosen k m λ g. some (Instruction.resolve (resolve_accounts k g winner) winner)
  sent m (Flow.concede k actor names_self) =
      chosen k m λ g. some (Instruction.concede (concede_accounts k g actor names_self))
  sent m (Flow.refund_side k s cranker) =
      chosen k m λ g. some (Instruction.refund_side (refund_accounts k g s cranker))
  sent m (Flow.close_expired k cranker) =
      chosen k m λ g. some (Instruction.close_expired (close_accounts k cranker))
  sent m (Flow.cancel_propose k actor) =
      chosen k m λ g. some (Instruction.cancel_propose (record { participant = actor; wager = k }))
  sent m (Flow.cancel_clear k actor) =
      chosen k m λ g. some (Instruction.cancel_clear (record { participant = actor; wager = k }))
  sent m (Flow.cancel_accept k actor) =
      chosen k m λ g. some (Instruction.cancel_accept (accept_accounts k g actor))
  sent m (Flow.update_fee new_fee) =
      some (Instruction.update_config (record { admin = fx.admin }) (fee_args new_fee))

  -- The model after a flow at the time `now`, where it expects the program to accept.
  abbrev pub expect : Flow → ℤ → Shadow → Option Shadow
  expect (Flow.create_wager sa sb nonce stake d_fund d_resolve) now m =
      flow_create (wager_pda sa nonce) sa sb stake d_fund d_resolve m
  expect (Flow.stake_side k actor) now m = chosen k m (flow_stake k actor now m)
  expect (Flow.unstake_side k actor) now m = chosen k m (flow_unstake k actor now m)
  expect (Flow.resolve k winner) now m = chosen k m (flow_resolve k winner now m)
  expect (Flow.concede k actor names_self) now m =
      chosen k m (flow_concede k actor names_self now m)
  expect (Flow.refund_side k s cranker) now m = chosen k m (flow_refund k s now m)
  expect (Flow.close_expired k cranker) now m = chosen k m (flow_close k now m)
  expect (Flow.cancel_propose k actor) now m = chosen k m (flow_propose k actor now m)
  expect (Flow.cancel_clear k actor) now m = chosen k m (flow_clear k actor m)
  expect (Flow.cancel_accept k actor) now m = chosen k m (flow_accept k actor now m)
  expect (Flow.update_fee new_fee) now m = flow_update_fee new_fee m
