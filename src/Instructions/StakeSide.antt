-- ===== src/Instructions/StakeSide.antt =====
-- programs/shake-escrow/src/instructions/stake_side.rs
pub mod Effect
use shake_escrow.Base.{
  ℕ, ◌+◌, Bool, true, not, ◌&&◌, ◌||◌, Option, none, some, ltb, leb, ◌==◌, Result, ok, ◌>>=◌, ◌>>◌,
  ensure, require, ok_or, shake, anchor, constraint_seeds, not_funding, funding_closed,
  not_a_participant, already_funded, wallet_cap_exceeded, global_cap_exceeded, math_overflow,
  wrong_token_owner, wrong_mint, if◌then◌else◌,
}
use shake_escrow.Base.Int.{leb_ℤ}
use shake_escrow.Base.Words.{checked_add, u8_max, u64_max}
use shake_escrow.Base.Dict.{insert, update}
use shake_escrow.State.{Pubkey, Config, Wager, funding, active, same_state, ExposureCounter}
use shake_escrow.Events.{side_staked}
use shake_escrow.Runtime.{Runtime}
use shake_escrow.Runtime.Addresses.{counter_seeds}
use shake_escrow.World.{World, emit, load_config, load_wager, load_token, load_associated, transfer}

pub record StakeSide : Type 0 where
  pub staker : Pubkey
  pub payer : Pubkey
  pub wager : Pubkey
  pub counter : Pubkey
  pub staker_token : Pubkey
  pub vault : Pubkey

-- `init_if_needed` on the counter: a wallet's first stake opens it at zero.
abbrev pub counter_or_new : Option ExposureCounter → ExposureCounter
counter_or_new none = record { count = 0; bump = 0 }
counter_or_new (some c) = c

-- `if is_a { funded_a = true } else { funded_b = true }`
abbrev pub fund : Bool → Wager → Wager
fund is_a g = if is_a then record g { funded_a = true } else record g { funded_b = true }

abbrev pub both_funded : Wager → Bool
both_funded g = g.funded_a && g.funded_b

-- The second stake locks the wager.
abbrev pub lock_if_funded : Wager → Wager
lock_if_funded g = if both_funded g then record g { state = active } else g

-- The checks before the transfer; they give the new total.
unfoldable pub check_stake : StakeSide → Config → Wager → ExposureCounter → World → Result ℕ
check_stake ctx c g k w = do
  require (same_state g.state funding) not_funding
  require (leb_ℤ w.clock g.deadline_fund) funding_closed
  let is_a = ctx.staker == g.side_a
  require (is_a || ctx.staker == g.side_b) not_a_participant
  require (not (if is_a then g.funded_a else g.funded_b)) already_funded
  require (ltb k.count c.max_open_per_wallet) wallet_cap_exceeded
  new_total ← ok_or (checked_add u64_max c.total_open_value g.stake) (shake math_overflow)
  require (leb new_total c.max_total_open) global_cap_exceeded
  ok new_total

module _ (rt : Runtime) where
  -- The writes after the transfer.
  abbrev pub write_stake : StakeSide → Config → Wager → (new_total count : ℕ) → World → World
  write_stake ctx c g new_total count w =
      let is_a = ctx.staker == g.side_a in
      let g' = fund is_a g in
      let bump = (rt.find_program_address (counter_seeds ctx.staker)).1 in
      emit (side_staked ctx.wager ctx.staker is_a g.stake (both_funded g')) (record w {
        config = some (record c { total_open_value = new_total });
        counters = update w.counters ctx.counter (some (record { count = count; bump = bump }));
        wagers = insert ctx.wager (lock_if_funded g') w.wagers;
      })

  unfoldable pub handle_stake_side :
      StakeSide → Config → Wager → ExposureCounter → World → Result World
  handle_stake_side ctx c g k w = do
    new_total ← check_stake ctx c g k w
    w₁ ← transfer rt ctx.staker_token ctx.vault ctx.staker g.stake w
    count ← ok_or (checked_add u8_max k.count 1) (shake math_overflow)
    ok (write_stake ctx c g new_total count w₁)

  unfoldable pub stake_side : StakeSide → World → Result World
  stake_side ctx w = do
    c ← load_config w
    g ← load_wager rt ctx.wager w
    ensure ((rt.find_program_address (counter_seeds ctx.staker)).0 == ctx.counter)
        (anchor constraint_seeds)
    staker_token ← load_token rt ctx.staker_token w
    require (staker_token.owner == ctx.staker) wrong_token_owner
    require (staker_token.mint == g.mint) wrong_mint
    vault ← load_associated rt ctx.vault g.mint ctx.wager w
    handle_stake_side ctx c g (counter_or_new (w.counters ctx.counter)) w
