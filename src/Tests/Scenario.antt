-- ===== src/Tests/Scenario.antt =====
-- Runs of the program from a chain on which it has not yet run: a wager between two wallets that is
-- locked, and the ways that it ends.
use shake_escrow.Base.{
  ℕ, ◌+◌, ◌*◌, Bool, true, false, Option, none, some, List, [], ◌∷◌, ◌==◌, if◌then◌else◌, Result,
  ok, err,
}
use shake_escrow.Base.Int.{pos}
use shake_escrow.State.{Pubkey}
use shake_escrow.Runtime.{Tokens, TokenAccount}
use shake_escrow.World.{World}
use shake_escrow.World.{load_wager, load_counter, load_associated, transfer, close_account}
use shake_escrow.Base.Int.{leb_ℤ, ltb_ℤ, ◌-ℤ◌}
use shake_escrow.Base.Words.{sub_i64}
use shake_escrow.Base.Dict.{lookup, insert, erase}
use shake_escrow.State.{resolver_allowed}
use shake_escrow.Runtime.Laws.{moved}
use shake_escrow.Instructions.InitializeConfig.{
  InitializeConfig, InitializeConfigArgs, initialize_config, handle_initialize_config,
  validate_config_values, copy_resolvers,
}
use shake_escrow.Instructions.UpdateConfig.{update_config, handle_update_config, replace_resolvers}
use shake_escrow.Instructions.AdminTransfers.{propose_admin, accept_admin, cancel_admin_transfer}
use shake_escrow.Instructions.CreateWager.{create_wager, init_vault, check_create, windows_fit}
use shake_escrow.Instructions.StakeSide.{StakeSide, stake_side, handle_stake_side, check_stake}
use shake_escrow.Instructions.UnstakeSide.{unstake_side, handle_unstake_side, check_unstake}
use shake_escrow.Instructions.Resolve.{resolve, handle_resolve, check_resolve}
use shake_escrow.Instructions.Concede.{concede, handle_concede, check_concede}
use shake_escrow.Instructions.RefundSide.{refund_side, handle_refund_side, check_refund}
use shake_escrow.Instructions.Cancel.{
  cancel_propose, cancel_clear, cancel_accept, handle_cancel_accept, check_propose, check_clear,
  check_accept,
}
use shake_escrow.Instructions.CloseExpired.{close_expired, handle_close_expired, sweep_surplus}
use shake_escrow.Instructions.Payout.{split_pot, transfer_if_positive, pay_winner_and_close_vault}
use shake_escrow.Program.{Instruction, process}
use shake_escrow.Tests.Chain.{sample, sample_associated, address_of}

abbrev pub admin : Pubkey
admin = 4

abbrev pub judge : Pubkey
judge = 8

abbrev pub alice : Pubkey
alice = 12

abbrev pub bob : Pubkey
bob = 16

abbrev pub usdc : Pubkey
usdc = 20

abbrev pub collector : Pubkey
collector = 32

abbrev pub fee_token : Pubkey
fee_token = 28

abbrev pub ata : Pubkey → Pubkey
ata = sample_associated usdc

abbrev pub account : Pubkey → ℕ → Option TokenAccount
account owner n = some (record { mint = usdc; owner = owner; amount = n; frozen = false })

-- Alice and Bob hold 1000 each, and the fee account stands open.
abbrev pub purses : Tokens
purses k =
    if k == ata alice
    then account alice 1000
    else if k == ata bob
    then account bob 1000
    else if k == fee_token
    then account admin 0
    else none

abbrev pub genesis : World
genesis = record {
  config = none;
  admin_transfer = none;
  wagers = [];
  counters = λ k. none;
  tokens = purses;
  clock = pos 1000;
  events = [];
  rents = [];
}

abbrev pub wager_key : Pubkey
wager_key = 4 * (1000 * alice + 1) + 2

abbrev pub counter_key : Pubkey → Pubkey
counter_key x = 4 * x + 1

abbrev pub first_ctx : InitializeConfig
first_ctx = record { authority = admin; program_data = 7 }

abbrev pub first_args : InitializeConfigArgs
first_args = record {
  mint = usdc;
  fee_bps = 300;
  fee_destination = fee_token;
  rent_collector = collector;
  min_stake = 10;
  max_stake = 500;
  max_open_per_wallet = 5;
  resolvers = judge ∷ [];
  max_window = pos 86400;
  max_total_open = 100000;
}

abbrev pub initialize : Instruction
initialize = Instruction.initialize_config first_ctx first_args

abbrev pub create : Instruction
create =
    Instruction.create_wager
      (record { payer = admin; wager = wager_key; mint = usdc; vault = ata wager_key })
      (record {
        nonce = 1;
        side_a = alice;
        side_b = bob;
        stake = 100;
        terms_hash = 9;
        deadline_fund = pos 2000;
        deadline_resolve = pos 3000;
        resolver = judge;
      })

abbrev pub stake_of : Pubkey → StakeSide
stake_of x = record {
  staker = x;
  payer = admin;
  wager = wager_key;
  counter = counter_key x;
  staker_token = ata x;
  vault = ata wager_key;
}

abbrev pub stake_by : Pubkey → Instruction
stake_by x = Instruction.stake_side (stake_of x)

-- The world after an instruction; the same world where it fails.
abbrev pub after : Result World → World → World
after (ok w') w = w'
after (err e) w = w

-- The line opens the whole program, so that a run computes.
unfoldable pub execute : Instruction → World → Result World
unfolding process initialize_config handle_initialize_config validate_config_values copy_resolvers
    update_config handle_update_config replace_resolvers propose_admin accept_admin
    cancel_admin_transfer create_wager init_vault check_create windows_fit resolver_allowed sub_i64
    ◌-ℤ◌ leb_ℤ ltb_ℤ stake_side handle_stake_side check_stake unstake_side handle_unstake_side
    check_unstake resolve handle_resolve check_resolve concede handle_concede check_concede
    refund_side handle_refund_side check_refund cancel_propose cancel_clear cancel_accept
    handle_cancel_accept check_propose check_clear check_accept close_expired handle_close_expired
    sweep_surplus split_pot transfer_if_positive pay_winner_and_close_vault load_wager load_counter
    load_associated transfer close_account lookup insert erase moved address_of
execute = process sample

unfoldable pub run : List Instruction → World → World
unfolding execute
run [] w = w
run (ix ∷ ixs) w = run ixs (after (execute ix w) w)

abbrev pub is_ok : Result World → Bool
is_ok (ok w) = true
is_ok (err e) = false
