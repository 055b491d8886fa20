-- ===== src/Instructions/Cancel.antt =====
-- programs/shake-escrow/src/instructions/cancel.rs
pub mod Effect
pub mod Returned
use shake_escrow.Base.{
  ℕ, Bool, true, not, some, ◌==◌, Result, ok, ◌>>=◌, ◌>>◌, ensure, require, cancel_window_closed,
  not_a_participant, cancel_already_open, cancel_not_open, cannot_accept_own_proposal,
  wrong_fee_destination, wrong_rent_collector,
}
use shake_escrow.Base.Int.{leb_ℤ}
use shake_escrow.Base.Words.{saturating_mul, u64_max}
use shake_escrow.Base.Dict.{insert}
use shake_escrow.State.{
  Pubkey, default_key, Config, Wager, active, cancelled, same_state, is_participant,
  ExposureCounter,
}
use shake_escrow.Events.{cancel_proposed, cancel_cleared, wager_cancelled, wager_closed}
use shake_escrow.Runtime.{Runtime}
use shake_escrow.Runtime.Laws.{balance}
use shake_escrow.World.{
  World, emit, load_config, load_wager, check_close, load_counter, load_token, load_associated,
  transfer, close_account,
}
use shake_escrow.Instructions.Payout.{transfer_if_positive}
use shake_escrow.Instructions.Resolve.{settle_books}

pub record CancelPropose : Type 0 where
  pub participant : Pubkey
  pub wager : Pubkey

pub record CancelClear : Type 0 where
  pub participant : Pubkey
  pub wager : Pubkey

pub record CancelAccept : Type 0 where
  pub acceptor : Pubkey
  pub wager : Pubkey
  pub side_a : Pubkey
  pub side_b : Pubkey
  pub side_a_token : Pubkey
  pub side_b_token : Pubkey
  pub counter_a : Pubkey
  pub counter_b : Pubkey
  pub fee_token : Pubkey
  pub vault : Pubkey
  pub rent_collector : Pubkey

unfoldable pub check_propose : Pubkey → Wager → World → Result (Unit {0})
check_propose signer g w = do
  require (same_state g.state active) cancel_window_closed
  require (leb_ℤ w.clock g.deadline_resolve) cancel_window_closed
  require (is_participant g signer) not_a_participant
  require (g.cancel_proposed_by == default_key) cancel_already_open

unfoldable pub check_clear : Pubkey → Wager → Result (Unit {0})
check_clear signer g = do
  require (is_participant g signer) not_a_participant
  require (not (g.cancel_proposed_by == default_key)) cancel_not_open

unfoldable pub check_accept : Pubkey → Wager → World → Result (Unit {0})
check_accept signer g w = do
  require (same_state g.state active) cancel_window_closed
  require (leb_ℤ w.clock g.deadline_resolve) cancel_window_closed
  require (not (g.cancel_proposed_by == default_key)) cancel_not_open
  require (is_participant g signer) not_a_participant
  require (not (signer == g.cancel_proposed_by)) cannot_accept_own_proposal

module _ (rt : Runtime) where
  unfoldable pub cancel_propose : CancelPropose → World → Result World
  cancel_propose ctx w = do
    g ← load_wager rt ctx.wager w
    check_propose ctx.participant g w
    ok (
        emit (cancel_proposed ctx.wager ctx.participant) (record w {
          wagers = insert ctx.wager (record g { cancel_proposed_by = ctx.participant }) w.wagers;
        }))

  unfoldable pub cancel_clear : CancelClear → World → Result World
  cancel_clear ctx w = do
    g ← load_wager rt ctx.wager w
    check_clear ctx.participant g
    ok (
        emit (cancel_cleared ctx.wager ctx.participant) (record w {
          wagers = insert ctx.wager (record g { cancel_proposed_by = default_key }) w.wagers;
        }))

  -- Both stakes go back, the rest of the vault to the fee account, and everything closes.
  unfoldable pub handle_cancel_accept :
      CancelAccept → Config → Wager → ExposureCounter → ExposureCounter → World → Result World
  handle_cancel_accept ctx c g ka kb w = do
    check_accept ctx.acceptor g w
    w₁ ← transfer rt ctx.vault ctx.side_a_token ctx.wager g.stake w
    w₂ ← transfer rt ctx.vault ctx.side_b_token ctx.wager g.stake w₁
    let surplus = balance w₂.tokens ctx.vault
    w₃ ← transfer_if_positive rt ctx.vault ctx.fee_token ctx.wager surplus w₂
    w₄ ← close_account rt ctx.vault ctx.rent_collector ctx.wager w₃
    ok (
        emit (wager_closed ctx.wager surplus) (
          emit (wager_cancelled ctx.wager) (
            settle_books ctx.wager ctx.counter_a ctx.counter_b ctx.rent_collector
              (saturating_mul u64_max g.stake 2)
              (record g { state = cancelled; refunded_a = true; refunded_b = true }) c ka kb w₄)))

  unfoldable pub cancel_accept : CancelAccept → World → Result World
  cancel_accept ctx w = do
    c ← load_config w
    g ← load_wager rt ctx.wager w
    check_close ctx.wager ctx.rent_collector
    side_a_token ← load_associated rt ctx.side_a_token g.mint ctx.side_a w
    side_b_token ← load_associated rt ctx.side_b_token g.mint ctx.side_b w
    ka ← load_counter rt ctx.counter_a g.side_a w
    kb ← load_counter rt ctx.counter_b g.side_b w
    fee_token ← load_token rt ctx.fee_token w
    vault ← load_associated rt ctx.vault g.mint ctx.wager w
    require (ctx.side_a == g.side_a) not_a_participant
    require (ctx.side_b == g.side_b) not_a_participant
    require (ctx.fee_token == g.fee_destination) wrong_fee_destination
    require (ctx.rent_collector == g.rent_collector) wrong_rent_collector
    handle_cancel_accept ctx c g ka kb w
