-- ===== src/Instructions/RefundSide.antt =====
-- programs/shake-escrow/src/instructions/refund_side.rs
pub mod Effect
use shake_escrow.Base.{
  ℕ, Bool, true, false, not, some, ◌==◌, Result, ok, ◌>>=◌, ◌>>◌, ensure, require, refund_not_due,
  not_a_participant, side_not_funded, already_exited, if◌then◌else◌,
}
use shake_escrow.Base.Int.{ℤ, ltb_ℤ}
use shake_escrow.Base.Words.{saturating_sub}
use shake_escrow.Base.Dict.{insert, update}
use shake_escrow.State.{
  Pubkey, Config, Wager, WagerState, funding, active, resolved, cancelled, is_participant,
  ExposureCounter,
}
use shake_escrow.Events.{side_refunded}
use shake_escrow.Runtime.{Runtime}
use shake_escrow.World.{
  World, emit, load_config, load_wager, load_counter, load_associated, transfer,
}
use shake_escrow.Instructions.UnstakeSide.{release}

pub record RefundSide : Type 0 where
  pub cranker : Pubkey
  pub wager : Pubkey
  pub side : Pubkey
  pub side_token : Pubkey
  pub counter : Pubkey
  pub vault : Pubkey

-- The `match wager.state` of the refund: strictly after the deadline that applies.
abbrev pub refund_due : WagerState → (now deadline_fund deadline_resolve : ℤ) → Bool
refund_due funding now deadline_fund deadline_resolve = ltb_ℤ deadline_fund now
refund_due active now deadline_fund deadline_resolve = ltb_ℤ deadline_resolve now
refund_due cancelled now deadline_fund deadline_resolve = true
refund_due resolved now deadline_fund deadline_resolve = false

abbrev pub mark_refunded : Bool → Wager → Wager
mark_refunded is_a g =
    if is_a then record g { refunded_a = true } else record g { refunded_b = true }

unfoldable pub check_refund : Pubkey → Wager → ℤ → Result (Unit {0})
check_refund side g now = do
  require (refund_due g.state now g.deadline_fund g.deadline_resolve) refund_not_due
  require (is_participant g side) not_a_participant
  let is_a = side == g.side_a
  require (if is_a then g.funded_a else g.funded_b) side_not_funded
  require (not (if is_a then g.refunded_a else g.refunded_b)) already_exited

-- The writes after the transfer.
abbrev pub write_refund : RefundSide → Config → Wager → ExposureCounter → World → World
write_refund ctx c g k w = emit (side_refunded ctx.wager ctx.side g.stake) (record w {
  config = some (record c { total_open_value = saturating_sub c.total_open_value g.stake });
  counters = update w.counters ctx.counter (some (release k));
  wagers = insert ctx.wager (mark_refunded (ctx.side == g.side_a) g) w.wagers;
})

module _ (rt : Runtime) where
  unfoldable pub handle_refund_side :
      RefundSide → Config → Wager → ExposureCounter → World → Result World
  handle_refund_side ctx c g k w = do
    check_refund ctx.side g w.clock
    w₁ ← transfer rt ctx.vault ctx.side_token ctx.wager g.stake w
    ok (write_refund ctx c g k w₁)

  unfoldable pub refund_side : RefundSide → World → Result World
  refund_side ctx w = do
    c ← load_config w
    g ← load_wager rt ctx.wager w
    side_token ← load_associated rt ctx.side_token g.mint ctx.side w
    k ← load_counter rt ctx.counter ctx.side w
    vault ← load_associated rt ctx.vault g.mint ctx.wager w
    handle_refund_side ctx c g k w
