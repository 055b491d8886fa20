-- ===== src/Safety/Handlers.antt =====
-- Panics in the instructions on a wager that exists.
use shake_escrow.Base.{ℕ, ok, ◌≡◌, ◌+◌, ◌≤◌, Bool-cases, inl, inr, arith, ltb, none, some, Option}
use shake_escrow.Base.Words.{add_u64, u64_max}
use shake_escrow.State.{Pubkey, Wager}
use shake_escrow.Runtime.{Runtime}
use shake_escrow.World.{World, load_wager, load_counter, load_associated, transfer, close_account}
use shake_escrow.Safety.Rules.{NeverPanics, NeverPanics-eq_ok, calm_rules}
use shake_escrow.Instructions.Payout.{split_pot, transfer_if_positive, pay_winner_and_close_vault}
use shake_escrow.Instructions.StakeSide.{StakeSide, stake_side, handle_stake_side, check_stake}
use shake_escrow.Instructions.UnstakeSide.{
  UnstakeSide, unstake_side, handle_unstake_side, check_unstake,
}
use shake_escrow.Instructions.RefundSide.{RefundSide, refund_side, handle_refund_side, check_refund}
use shake_escrow.Instructions.Resolve.{Resolve, resolve, handle_resolve, check_resolve}
use shake_escrow.Instructions.Concede.{Concede, concede, handle_concede, check_concede}
use shake_escrow.Instructions.Cancel.{
  CancelPropose, CancelClear, CancelAccept, cancel_propose, cancel_clear, cancel_accept,
  handle_cancel_accept, check_propose, check_clear, check_accept,
}
use shake_escrow.Instructions.CloseExpired.{
  CloseExpired, close_expired, handle_close_expired, load_optional, sweep_surplus,
}

pub split_pot-NeverPanics : (stake fee_bps : ℕ) → NeverPanics (split_pot stake fee_bps)
unfolding split_pot
split_pot-NeverPanics stake fee_bps = search calm_rules depth 24

-- The pot is added up again from its parts, and it did fit.
pub add_u64-NeverPanics :
    (stake fee_bps : ℕ) (parts : ℕ × ℕ)
    → split_pot stake fee_bps ≡ ok parts
    → NeverPanics (add_u64 parts.0 parts.1)
unfolding split_pot
add_u64-NeverPanics stake fee_bps parts h =
    let fits : parts.0 + parts.1 ≤ u64_max = ground arith in
    NeverPanics-eq_ok _ (parts.0 + parts.1) (ground arith)

module _ (rt : Runtime) where
  pub load_wager-NeverPanics : (k : Pubkey) (w : World) → NeverPanics (load_wager rt k w)
  unfolding load_wager
  load_wager-NeverPanics k w = search calm_rules

  pub load_counter-NeverPanics : (k x : Pubkey) (w : World) → NeverPanics (load_counter rt k x w)
  unfolding load_counter
  load_counter-NeverPanics k x w = search calm_rules

  pub load_associated-NeverPanics :
      (k m a : Pubkey) (w : World) → NeverPanics (load_associated rt k m a w)
  unfolding load_associated
  load_associated-NeverPanics k m a w = search calm_rules

  pub transfer-NeverPanics :
      (from to authority : Pubkey) (n : ℕ) (w : World)
      → NeverPanics (transfer rt from to authority n w)
  unfolding transfer
  transfer-NeverPanics from to authority n w = search calm_rules

  pub close_account-NeverPanics :
      (account destination authority : Pubkey) (w : World)
      → NeverPanics (close_account rt account destination authority w)
  unfolding close_account
  close_account-NeverPanics account destination authority w = search calm_rules

  pub transfer_if_positive-NeverPanics :
      (from to authority : Pubkey) (n : ℕ) (w : World)
      → NeverPanics (transfer_if_positive rt from to authority n w)
  unfolding transfer_if_positive
  transfer_if_positive-NeverPanics from to authority n w = elim (Bool-cases (ltb 0 n)) [
    | inl some_left ↦ rw some_left (transfer-NeverPanics from to authority n w)
    | inr none_left ↦ rw none_left (search calm_rules)
  ]

  ruleset calls = (
    calm_rules, load_wager-NeverPanics, load_counter-NeverPanics, load_associated-NeverPanics,
    transfer-NeverPanics, close_account-NeverPanics, transfer_if_positive-NeverPanics,
    split_pot-NeverPanics, add_u64-NeverPanics,
  )

  pub stake_side-NeverPanics : (ctx : StakeSide) (w : World) → NeverPanics (stake_side rt ctx w)
  unfolding stake_side handle_stake_side check_stake
  stake_side-NeverPanics ctx w = search calls depth 40

  pub unstake_side-NeverPanics :
      (ctx : UnstakeSide) (w : World) → NeverPanics (unstake_side rt ctx w)
  unfolding unstake_side handle_unstake_side check_unstake
  unstake_side-NeverPanics ctx w = search calls depth 40

  pub refund_side-NeverPanics : (ctx : RefundSide) (w : World) → NeverPanics (refund_side rt ctx w)
  unfolding refund_side handle_refund_side check_refund
  refund_side-NeverPanics ctx w = search calls depth 40

  pay_winner-NeverPanics :
      (wager vault winner_token fee_token rent_collector : Pubkey) (payout fee : ℕ) (w : World)
      → NeverPanics (
          pay_winner_and_close_vault rt wager vault winner_token fee_token rent_collector payout fee
            w)
  unfolding pay_winner_and_close_vault
  pay_winner-NeverPanics wager vault winner_token fee_token rent_collector payout fee w =
      search calls depth 40

  pub resolve-NeverPanics :
      (ctx : Resolve) (winner : Pubkey) (w : World) → NeverPanics (resolve rt ctx winner w)
  unfolding resolve handle_resolve check_resolve
  resolve-NeverPanics ctx winner w = search (calls, pay_winner-NeverPanics) depth 40

  pub concede-NeverPanics : (ctx : Concede) (w : World) → NeverPanics (concede rt ctx w)
  unfolding concede handle_concede check_concede
  concede-NeverPanics ctx w = search (calls, pay_winner-NeverPanics) depth 40

  pub cancel_propose-NeverPanics :
      (ctx : CancelPropose) (w : World) → NeverPanics (cancel_propose rt ctx w)
  unfolding cancel_propose check_propose
  cancel_propose-NeverPanics ctx w = search calls depth 40

  pub cancel_clear-NeverPanics :
      (ctx : CancelClear) (w : World) → NeverPanics (cancel_clear rt ctx w)
  unfolding cancel_clear check_clear
  cancel_clear-NeverPanics ctx w = search calls depth 40

  pub cancel_accept-NeverPanics :
      (ctx : CancelAccept) (w : World) → NeverPanics (cancel_accept rt ctx w)
  unfolding cancel_accept handle_cancel_accept check_accept
  cancel_accept-NeverPanics ctx w = search calls depth 40

  sweep_surplus-NeverPanics :
      (ctx : CloseExpired) (g : Wager) (n : ℕ) (w : World)
      → NeverPanics (sweep_surplus rt ctx g n w)
  unfolding sweep_surplus
  sweep_surplus-NeverPanics ctx g n w = elim (Bool-cases (ltb 0 n)) [
    | inl some_left ↦ rw (some_left, sweep_surplus) (search calls depth 40)
    | inr none_left ↦ rw (none_left, sweep_surplus) (search calm_rules)
  ]

  load_optional-NeverPanics : (o : Option Pubkey) (w : World) → NeverPanics (load_optional rt o w)
  load_optional-NeverPanics none w = search calm_rules
  load_optional-NeverPanics (some k) w = search calm_rules

  pub close_expired-NeverPanics :
      (ctx : CloseExpired) (w : World) → NeverPanics (close_expired rt ctx w)
  unfolding close_expired handle_close_expired
  close_expired-NeverPanics ctx w =
      search (calls, sweep_surplus-NeverPanics, load_optional-NeverPanics) depth 40
