-- ===== src/Tests/Fuzz.antt =====
-- A short run of the fuzzing harness on the sample runtime: three wallets, a wager between two of
-- them, its two stakes, and its resolution.
use shake_escrow.Base.{◌≡◌, true, ◌*◌, refl, none, [], ◌∷◌, arith, ◌==◌, if◌then◌else◌}
use shake_escrow.Base.Int.{pos}
use shake_escrow.State.{Pubkey}
use shake_escrow.Runtime.{Tokens}
use shake_escrow.World.{World}
use shake_escrow.Program.{Instruction}
use shake_escrow.Shadow.{usdc, start_balance, Shadow, start}
use shake_escrow.Shadow.Circulation.{IsDistinct}
use shake_escrow.Shadow.Sending.{
  Fixture, Flow, init_args, create_accounts, create_args, stake_accounts, expect,
}
use shake_escrow.Shadow.Coupling.{IsActor, Follows}
use shake_escrow.Shadow.Coverage.{covers}
use shake_escrow.Shadow.Overflow.{process-covers}
use shake_escrow.Shadow.Simulation.{process-Follows}
use shake_escrow.Shadow.Campaign.{
  IsFunded, Campaign, started, flowed, model_after, Agree, Campaign-Agree,
}
use shake_escrow.Tests.Chain.{sample, sample-TokenLaws, sample-AddressLaws}
use shake_escrow.Tests.Scenario.{
  admin, judge, alice, bob, collector, account, first_ctx, wager_key, run,
}
use shake_escrow.Tests.Scenario.{ata}

abbrev pub carol : Pubkey
carol = 24

abbrev pub house : Pubkey
house = 36

abbrev pub stage : Fixture
stage = record {
  admin = admin;
  ops = collector;
  resolver = judge;
  agent = house;
  actors = alice ∷ bob ∷ carol ∷ [];
  mint = 20;
  terms_hash = 9;
}

abbrev pub stage_tokens : Tokens
stage_tokens k =
    if k == ata alice
    then account alice start_balance
    else if k == ata bob
    then account bob start_balance
    else if k == ata carol
    then account carol start_balance
    else if k == ata house
    then account house 0
    else none

abbrev pub stage_genesis : World
stage_genesis = record {
  config = none;
  admin_transfer = none;
  wagers = [];
  counters = λ k. none;
  tokens = stage_tokens;
  clock = pos 1000;
  events = [];
  rents = [];
}

alice-IsActor : IsActor sample stage alice
alice-IsActor = record {
  listed = refl;
  signs = refl;
  not_agent = ground arith;
  real = ground arith;
}

bob-IsActor : IsActor sample stage bob
bob-IsActor = record { listed = refl; signs = refl; not_agent = ground arith; real = ground arith }

stage-IsDistinct : IsDistinct stage.actors
stage-IsDistinct = (refl, (refl, (refl, tt)))

stage-IsFunded : IsFunded sample stage stage_genesis
stage-IsFunded = record {
  genesis = record { no_config = refl; no_wagers = refl; no_counters = λ k. refl };
  purses = λ x actor. ground (arith, actor.listed);
  no_fees = refl;
  no_vaults = λ k cannot. ground arith;
}

abbrev first : Instruction
first = Instruction.initialize_config first_ctx (init_args sample stage)

abbrev offering : Flow
offering = Flow.create_wager alice bob 1 (5 * usdc) (pos 2000) (pos 3000)

abbrev offer : Instruction
offer =
    Instruction.create_wager (create_accounts sample stage alice 1)
      (create_args sample stage alice bob 1 (5 * usdc) (pos 2000) (pos 3000))

abbrev staking : Pubkey → Instruction
staking x = Instruction.stake_side (stake_accounts sample stage wager_key x)

abbrev opened_world : World
opened_world = run (first ∷ offer ∷ []) stage_genesis

abbrev staked_world : World
staked_world = run (first ∷ offer ∷ staking alice ∷ []) stage_genesis

abbrev opened_shadow : Shadow
opened_shadow = model_after (expect sample stage offering (pos 1000) start) start

Campaign-opened : Campaign sample stage first_ctx stage_genesis opened_world opened_shadow
unfolding run
Campaign-opened =
    flowed offering offer (started (refl, tt) refl) (alice-IsActor, bob-IsActor, refl) refl
      (refl, tt) refl

opened-Agree : Agree sample stage opened_world opened_shadow
opened-Agree =
    Campaign-Agree sample stage sample-TokenLaws sample-AddressLaws refl stage-IsDistinct first_ctx
      stage_genesis stage-IsFunded Campaign-opened

Campaign-Agree_example : Agree sample stage opened_world opened_shadow
Campaign-Agree_example =
    Campaign-Agree sample stage sample-TokenLaws sample-AddressLaws refl stage-IsDistinct first_ctx
      stage_genesis stage-IsFunded Campaign-opened

process-Follows_example :
    Follows sample stage staked_world opened_shadow
      (expect sample stage (Flow.stake_side wager_key alice) opened_world.clock opened_shadow)
unfolding run
process-Follows_example =
    process-Follows sample stage sample-TokenLaws sample-AddressLaws refl stage-IsDistinct
      (Flow.stake_side wager_key alice) (staking alice) opened_world staked_world opened_shadow
      opened-Agree.sound opened-Agree.coupled alice-IsActor refl refl

process-covers_example : covers opened_shadow (Flow.stake_side wager_key alice) ≡ true
unfolding run
process-covers_example =
    process-covers sample stage sample-TokenLaws sample-AddressLaws
      (Flow.stake_side wager_key alice) (staking alice) opened_world staked_world opened_shadow
      opened-Agree.sound opened-Agree.coupled alice-IsActor refl refl
