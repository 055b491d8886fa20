-- ===== src/Instructions/UnstakeSide.antt =====
-- programs/shake-escrow/src/instructions/unstake_side.rs
pub mod Effect
pub mod RoundTrip
use shake_escrow.Base.{
  ℕ, Bool, false, ◌||◌, some, ◌==◌, Result, ok, ◌>>=◌, ◌>>◌, ensure, require, not_funding,
  funding_closed, not_a_participant, side_not_funded, if◌then◌else◌,
}
use shake_escrow.Base.Int.{leb_ℤ}
use shake_escrow.Base.Words.{saturating_sub}
use shake_escrow.Base.Dict.{insert, update}
use shake_escrow.State.{Pubkey, Config, Wager, funding, same_state, ExposureCounter}
use shake_escrow.Events.{side_unstaked}
use shake_escrow.Runtime.{Runtime}
use shake_escrow.World.{
  World, emit, load_config, load_wager, load_counter, load_associated, transfer,
}

pub record UnstakeSide : Type 0 where
  pub staker : Pubkey
  pub wager : Pubkey
  pub counter : Pubkey
  pub staker_token : Pubkey
  pub vault : Pubkey

-- `if is_a { funded_a = false } else { funded_b = false }`
abbrev pub unfund : Bool → Wager → Wager
unfund is_a g = if is_a then record g { funded_a = false } else record g { funded_b = false }

-- A side leaves: its wallet's counter falls by one, saturating.
abbrev pub release : ExposureCounter → ExposureCounter
release k = record k { count = saturating_sub k.count 1 }

unfoldable pub check_unstake : Pubkey → Wager → World → Result (Unit {0})
check_unstake staker g w = do
  require (same_state g.state funding) not_funding
  require (leb_ℤ w.clock g.deadline_fund) funding_closed
  let is_a = staker == g.side_a
  require (is_a || staker == g.side_b) not_a_participant
  require (if is_a then g.funded_a else g.funded_b) side_not_funded

-- The writes after the transfer.
abbrev pub write_unstake : UnstakeSide → Config → Wager → ExposureCounter → World → World
write_unstake ctx c g k w = emit (side_unstaked ctx.wager ctx.staker g.stake) (record w {
  config = some (record c { total_open_value = saturating_sub c.total_open_value g.stake });
  counters = update w.counters ctx.counter (some (release k));
  wagers = insert ctx.wager (unfund (ctx.staker == g.side_a) g) w.wagers;
})

module _ (rt : Runtime) where
  unfoldable pub handle_unstake_side :
      UnstakeSide → Config → Wager → ExposureCounter → World → Result World
  handle_unstake_side ctx c g k w = do
    check_unstake ctx.staker g w
    w₁ ← transfer rt ctx.vault ctx.staker_token ctx.wager g.stake w
    ok (write_unstake ctx c g k w₁)

  unfoldable pub unstake_side : UnstakeSide → World → Result World
  unstake_side ctx w = do
    c ← load_config w
    g ← load_wager rt ctx.wager w
    k ← load_counter rt ctx.counter ctx.staker w
    staker_token ← load_associated rt ctx.staker_token g.mint ctx.staker w
    vault ← load_associated rt ctx.vault g.mint ctx.wager w
    handle_unstake_side ctx c g k w
