-- ===== src/Instructions/CloseExpired.antt =====
-- programs/shake-escrow/src/instructions/close_expired.rs
pub mod Effect
use shake_escrow.Base.{
  ℕ, Bool, true, false, Option, none, some, ltb, ◌==◌, Result, ok, ◌>>=◌, ◌>>◌, ensure, require,
  ok_or, shake, close_not_due, not_fully_exited, wrong_fee_destination, wrong_rent_collector,
}
use shake_escrow.Base.Int.{ℤ, ltb_ℤ}
use shake_escrow.Base.Dict.{erase}
use shake_escrow.State.{
  Pubkey, Wager, WagerState, funding, active, resolved, cancelled, fully_exited,
}
use shake_escrow.Events.{wager_closed}
use shake_escrow.Runtime.{Runtime, TokenAccount}
use shake_escrow.World.{
  World, emit, return_rent, load_wager, check_close, load_token, load_associated, transfer,
  close_account,
}

-- `fee_token` is optional.
pub record CloseExpired : Type 0 where
  pub cranker : Pubkey
  pub wager : Pubkey
  pub vault : Pubkey
  pub fee_token : Option Pubkey
  pub rent_collector : Pubkey

-- The `match wager.state` of the close.
abbrev pub close_due : WagerState → (now deadline_fund deadline_resolve : ℤ) → Bool
close_due funding now deadline_fund deadline_resolve = ltb_ℤ deadline_fund now
close_due active now deadline_fund deadline_resolve = ltb_ℤ deadline_resolve now
close_due cancelled now deadline_fund deadline_resolve = true
close_due resolved now deadline_fund deadline_resolve = false

module _ (rt : Runtime) where
  -- A fee account that is passed must be a token account.
  abbrev pub load_optional : Option Pubkey → World → Result (Unit {0})
  load_optional none w = ok tt
  load_optional (some k) w = do a ← load_token rt k w; ok tt

  -- A surplus needs the pinned fee account; without one nothing is transferred.
  unfoldable pub sweep_surplus : CloseExpired → Wager → ℕ → World → Result World
  sweep_surplus ctx g surplus w = elim (ltb 0 surplus) [
    | true ↦ do
      fee_token ← ok_or ctx.fee_token (shake wrong_fee_destination)
      require (fee_token == g.fee_destination) wrong_fee_destination
      transfer rt ctx.vault fee_token ctx.wager surplus w
    | false ↦ ok w
  ]

  unfoldable pub handle_close_expired : CloseExpired → Wager → TokenAccount → World → Result World
  handle_close_expired ctx g vault w = do
    require (close_due g.state w.clock g.deadline_fund g.deadline_resolve) close_not_due
    require (fully_exited g) not_fully_exited
    let surplus = vault.amount
    w₁ ← sweep_surplus ctx g surplus w
    w₂ ← close_account rt ctx.vault ctx.rent_collector ctx.wager w₁
    ok (
        return_rent ctx.wager ctx.rent_collector (
          emit (wager_closed ctx.wager surplus) (record w₂ { wagers = erase ctx.wager w₂.wagers })))

  unfoldable pub close_expired : CloseExpired → World → Result World
  close_expired ctx w = do
    g ← load_wager rt ctx.wager w
    check_close ctx.wager ctx.rent_collector
    vault ← load_associated rt ctx.vault g.mint ctx.wager w
    load_optional ctx.fee_token w
    require (ctx.rent_collector == g.rent_collector) wrong_rent_collector
    handle_close_expired ctx g vault w
