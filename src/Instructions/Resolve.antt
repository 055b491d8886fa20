-- ===== src/Instructions/Resolve.antt =====
-- programs/shake-escrow/src/instructions/resolve.rs
pub mod Effect
use shake_escrow.Base.{
  ℕ, Bool, some, ◌==◌, Result, ok, ◌>>=◌, ◌>>◌, ensure, require, not_active, resolve_expired,
  winner_not_participant, not_resolver, wrong_fee_destination, wrong_rent_collector,
}
use shake_escrow.Base.Int.{leb_ℤ}
use shake_escrow.Base.Words.{saturating_sub, add_u64}
use shake_escrow.Base.Dict.{insert, erase, update}
use shake_escrow.State.{
  Pubkey, Config, Wager, active, resolved, same_state, is_participant, ExposureCounter,
}
use shake_escrow.Events.{wager_resolved, wager_closed}
use shake_escrow.Runtime.{Runtime}
use shake_escrow.World.{
  World, emit, return_rent, load_config, load_wager, check_close, load_counter, load_token,
  load_associated,
}
use shake_escrow.Instructions.Payout.{split_pot, pay_winner_and_close_vault}
use shake_escrow.Instructions.UnstakeSide.{release}

pub record Resolve : Type 0 where
  pub resolver : Pubkey
  pub wager : Pubkey
  pub winner : Pubkey
  pub winner_token : Pubkey
  pub fee_token : Pubkey
  pub vault : Pubkey
  pub counter_a : Pubkey
  pub counter_b : Pubkey
  pub rent_collector : Pubkey

-- The books of a settled wager: both exposures end, `total` leaves the global sum, and the wager's
-- account, last written as `final`, closes with its rent to the collector.
abbrev pub settle_books :
    (wager counter_a counter_b rent_collector : Pubkey) (total : ℕ) (final : Wager)
    → Config
    → ExposureCounter
    → ExposureCounter
    → World
    → World
settle_books wager counter_a counter_b rent_collector total final c ka kb w =
    return_rent wager rent_collector (record w {
      config = some (record c { total_open_value = saturating_sub c.total_open_value total });
      counters =
          update (update w.counters counter_a (some (release ka))) counter_b (some (release kb));
      wagers = erase wager (insert wager final w.wagers);
    })

unfoldable pub check_resolve : Resolve → Pubkey → Wager → World → Result (Unit {0})
check_resolve ctx winner g w = do
  require (same_state g.state active) not_active
  require (leb_ℤ w.clock g.deadline_resolve) resolve_expired
  require (is_participant g winner) winner_not_participant
  require (ctx.winner == winner) winner_not_participant

module _ (rt : Runtime) where
  unfoldable pub handle_resolve :
      Resolve → Pubkey → Config → Wager → ExposureCounter → ExposureCounter → World → Result World
  handle_resolve ctx winner c g ka kb w = do
    check_resolve ctx winner g w
    (payout, fee) ← split_pot g.stake g.fee_bps
    pot ← add_u64 payout fee
    (surplus, w₁) ←
        pay_winner_and_close_vault rt ctx.wager ctx.vault ctx.winner_token ctx.fee_token
          ctx.rent_collector payout fee w
    ok (
        emit (wager_closed ctx.wager surplus) (
          emit (wager_resolved ctx.wager winner payout fee) (
            settle_books ctx.wager ctx.counter_a ctx.counter_b ctx.rent_collector pot
              (record g { state = resolved }) c ka kb w₁)))

  unfoldable pub resolve : Resolve → Pubkey → World → Result World
  resolve ctx winner w = do
    c ← load_config w
    g ← load_wager rt ctx.wager w
    check_close ctx.wager ctx.rent_collector
    winner_token ← load_associated rt ctx.winner_token g.mint ctx.winner w
    fee_token ← load_token rt ctx.fee_token w
    vault ← load_associated rt ctx.vault g.mint ctx.wager w
    ka ← load_counter rt ctx.counter_a g.side_a w
    kb ← load_counter rt ctx.counter_b g.side_b w
    require (ctx.resolver == g.resolver) not_resolver
    require (ctx.fee_token == g.fee_destination) wrong_fee_destination
    require (ctx.rent_collector == g.rent_collector) wrong_rent_collector
    handle_resolve ctx winner c g ka kb w
