-- ===== src/Instructions/Concede.antt =====
-- programs/shake-escrow/src/instructions/concede.rs
pub mod Effect
pub mod Agreement
use shake_escrow.Base.{
  ℕ, Bool, some, ◌==◌, Result, ok, ◌>>=◌, ◌>>◌, ensure, require, not_active, resolve_expired,
  not_a_participant, not_counterparty, wrong_fee_destination, wrong_rent_collector, if◌then◌else◌,
}
use shake_escrow.Base.Int.{leb_ℤ}
use shake_escrow.Base.Words.{add_u64}
use shake_escrow.State.{
  Pubkey, Config, Wager, active, resolved, same_state, is_participant, ExposureCounter,
}
use shake_escrow.Events.{wager_conceded, wager_closed}
use shake_escrow.Runtime.{Runtime}
use shake_escrow.World.{
  World, emit, load_config, load_wager, check_close, load_counter, load_token, load_associated,
}
use shake_escrow.Instructions.Payout.{split_pot, pay_winner_and_close_vault}
use shake_escrow.Instructions.Resolve.{settle_books}

pub record Concede : Type 0 where
  pub conceder : Pubkey
  pub wager : Pubkey
  pub winner : Pubkey
  pub winner_token : Pubkey
  pub fee_token : Pubkey
  pub vault : Pubkey
  pub counter_a : Pubkey
  pub counter_b : Pubkey
  pub rent_collector : Pubkey

-- The other side of the wager.
abbrev pub counterparty : Wager → Pubkey → Pubkey
counterparty g conceder = if conceder == g.side_a then g.side_b else g.side_a

unfoldable pub check_concede : Concede → Wager → World → Result (Unit {0})
check_concede ctx g w = do
  require (same_state g.state active) not_active
  require (leb_ℤ w.clock g.deadline_resolve) resolve_expired
  require (is_participant g ctx.conceder) not_a_participant
  require (ctx.winner == counterparty g ctx.conceder) not_counterparty

module _ (rt : Runtime) where
  unfoldable pub handle_concede :
      Concede → Config → Wager → ExposureCounter → ExposureCounter → World → Result World
  handle_concede ctx c g ka kb w = do
    check_concede ctx g w
    let winner = counterparty g ctx.conceder
    (payout, fee) ← split_pot g.stake g.fee_bps
    pot ← add_u64 payout fee
    (surplus, w₁) ←
        pay_winner_and_close_vault rt ctx.wager ctx.vault ctx.winner_token ctx.fee_token
          ctx.rent_collector payout fee w
    ok (
        emit (wager_closed ctx.wager surplus) (
          emit (wager_conceded ctx.wager ctx.conceder winner payout fee) (
            settle_books ctx.wager ctx.counter_a ctx.counter_b ctx.rent_collector pot
              (record g { state = resolved }) c ka kb w₁)))

  unfoldable pub concede : Concede → World → Result World
  concede ctx w = do
    c ← load_config w
    g ← load_wager rt ctx.wager w
    check_close ctx.wager ctx.rent_collector
    winner_token ← load_associated rt ctx.winner_token g.mint ctx.winner w
    fee_token ← load_token rt ctx.fee_token w
    vault ← load_associated rt ctx.vault g.mint ctx.wager w
    ka ← load_counter rt ctx.counter_a g.side_a w
    kb ← load_counter rt ctx.counter_b g.side_b w
    require (ctx.fee_token == g.fee_destination) wrong_fee_destination
    require (ctx.rent_collector == g.rent_collector) wrong_rent_collector
    handle_concede ctx c g ka kb w
