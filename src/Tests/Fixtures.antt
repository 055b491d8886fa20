-- ===== src/Tests/Fixtures.antt =====
-- The worlds of Tests/Endings with their soundness, and the accounts that the exits name.
use shake_escrow.Base.{ℕ, refl, true, false, some, none, [], ◌∷◌, arith}
use shake_escrow.Base.Int.{pos, leb_ℤ, ltb_ℤ}
use shake_escrow.State.{funding, default_key, Config, Wager, active}
use shake_escrow.Instructions.InitializeConfig.{validate_config_values}
use shake_escrow.Instructions.UpdateConfig.{UpdateConfigArgs}
use shake_escrow.Instructions.Cancel.Returned.{AreApart}
use shake_escrow.Instructions.CloseExpired.{CloseExpired}
use shake_escrow.Custody.{IsSound}
use shake_escrow.Custody.Steps.{
  tick, instruction, Reach, here, next, IsGenesis, genesis-IsSound, Reach-IsSound,
}
use shake_escrow.Custody.Progress.{IsPresented}
use shake_escrow.Instructions.RefundSide.Effect.{MayRefund}
use shake_escrow.Configuration.{IsValidConfig}
use shake_escrow.Configuration.Validation.{validate_config_values_iff}
use shake_escrow.World.{World}
use shake_escrow.Tests.Chain.{sample, sample-TokenLaws, sample-AddressLaws}
use shake_escrow.Tests.Scenario.{
  admin, judge, alice, bob, usdc, collector, fee_token, ata, genesis, wager_key, initialize, create,
  stake_by, run,
}
use shake_escrow.Tests.Endings.{funding_world, configured, locked_world, refund_of, late_world}

pub genesis-IsGenesis : IsGenesis genesis
genesis-IsGenesis = record { no_config = refl; no_wagers = refl; no_counters = λ k. refl }

pub Reach-configured : Reach sample genesis configured
unfolding run
Reach-configured = next here (instruction initialize (refl, tt) refl)

pub Reach-locked : Reach sample genesis locked_world
unfolding run
Reach-locked =
    next
      (next (next Reach-configured (instruction create (refl, tt) refl))
        (instruction (stake_by alice) (refl, (refl, tt)) refl))
      (instruction (stake_by bob) (refl, (refl, tt)) refl)

pub locked-IsSound : IsSound sample locked_world
locked-IsSound =
    Reach-IsSound sample sample-TokenLaws sample-AddressLaws
      (genesis-IsSound sample sample-TokenLaws sample-AddressLaws genesis genesis-IsGenesis)
      Reach-locked

abbrev pub bets : Wager
bets = record {
  state = active;
  side_a = alice;
  side_b = bob;
  stake = 100;
  mint = usdc;
  funded_a = true;
  funded_b = true;
  refunded_a = false;
  refunded_b = false;
  resolver = judge;
  terms_hash = 9;
  deadline_fund = pos 2000;
  deadline_resolve = pos 3000;
  fee_bps = 300;
  fee_destination = fee_token;
  rent_collector = collector;
  nonce = 1;
  cancel_proposed_by = default_key;
  bump = 255;
}

abbrev pub config_with : ℕ → Config
config_with total = record {
  admin = admin;
  mint = usdc;
  fee_bps = 300;
  fee_destination = fee_token;
  rent_collector = collector;
  min_stake = 10;
  max_stake = 500;
  max_open_per_wallet = 5;
  resolver_allowlist = judge ∷ 0 ∷ 0 ∷ 0 ∷ [];
  resolver_count = 1;
  paused = false;
  max_window = pos 86400;
  max_total_open = 100000;
  total_open_value = total;
  bump = 255;
}

pub late-IsSound : IsSound sample late_world
unfolding run leb_ℤ
late-IsSound =
    Reach-IsSound sample sample-TokenLaws sample-AddressLaws
      (genesis-IsSound sample sample-TokenLaws sample-AddressLaws genesis genesis-IsGenesis)
      (next Reach-locked (tick (pos 3001) refl))

abbrev pub late_bets : MayRefund alice bets (pos 3001)
unfolding ltb_ℤ
late_bets = record { due = refl; participant = refl; staked = refl; not_out = refl }

abbrev pub presented : IsPresented sample (refund_of alice) bets late_world
unfolding run
presented = record {
  counter = record { count = 1; bump = 255 };
  target = record { mint = usdc; owner = alice; amount = 900; frozen = false };
  vault = record { mint = usdc; owner = wager_key; amount = 200; frozen = false };
  counter_at = record { found = refl; address = refl };
  target_at = record { found = refl; owned = refl; address = refl };
  vault_address = refl;
  vault_at = refl;
  same_mint = refl;
  thawed = (refl, refl);
  fits = omega arith;
}

pub four_accounts : AreApart (ata wager_key) (ata alice) (ata bob) fee_token
four_accounts = record {
  vault = (ground arith, ground arith, ground arith);
  sides = (ground arith, ground arith, ground arith);
}

abbrev pub closing : CloseExpired
closing = record {
  cranker = judge;
  wager = wager_key;
  vault = ata wager_key;
  fee_token = none;
  rent_collector = collector;
}

abbrev pub update_args : UpdateConfigArgs
update_args = record {
  fee_bps = some 1000;
  fee_destination = none;
  rent_collector = some judge;
  min_stake = none;
  max_stake = none;
  max_open_per_wallet = none;
  resolvers = some (judge ∷ collector ∷ []);
  paused = some true;
  max_window = none;
  max_total_open = none;
}

pub first-IsValidConfig : IsValidConfig (config_with 0)
unfolding validate_config_values ltb_ℤ leb_ℤ
first-IsValidConfig = record {
  listed = judge ∷ [];
  sliced = refl;
  in_bounds = (validate_config_values_iff 300 10 500 (judge ∷ []) (pos 86400) 5 100000).0 refl;
  real_addresses = (ground arith, ground arith, ground arith);
}

-- Nobody has staked, and the funding deadline is over.
abbrev pub expired_world : World
expired_world = record funding_world { clock = pos 2001 }

pub expired-IsSound : IsSound sample expired_world
unfolding run leb_ℤ
expired-IsSound =
    Reach-IsSound sample sample-TokenLaws sample-AddressLaws
      (genesis-IsSound sample sample-TokenLaws sample-AddressLaws genesis genesis-IsGenesis)
      (next (next Reach-configured (instruction create (refl, tt) refl)) (tick (pos 2001) refl))

-- The wager when it is new.
abbrev pub offer : Wager
offer = record bets { state = funding; funded_a = false; funded_b = false }
