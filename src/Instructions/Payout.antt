-- ===== src/Instructions/Payout.antt =====
-- programs/shake-escrow/src/instructions/payout.rs
pub mod Effect
pub mod Split
pub mod Payments
use shake_escrow.Base.{
  ℕ, ◌/◌, Bool, ltb, Result, ok, ◌>>=◌, ok_or, shake, math_overflow, if◌then◌else◌,
}
use shake_escrow.Base.Words.{checked_mul, checked_sub, try_u64, u64_max, u128_max}
use shake_escrow.State.{Pubkey}
use shake_escrow.Runtime.{Runtime}
use shake_escrow.Runtime.Laws.{balance}
use shake_escrow.World.{World, transfer, close_account}

-- The payout and the fee.
unfoldable pub split_pot : ℕ → ℕ → Result (ℕ × ℕ)
split_pot stake fee_bps = do
  pot ← ok_or (checked_mul u64_max stake 2) (shake math_overflow)
  scaled ← ok_or (checked_mul u128_max pot fee_bps) (shake math_overflow)
  fee ← ok_or (try_u64 (scaled / 10000)) (shake math_overflow)
  payout ← ok_or (checked_sub pot fee) (shake math_overflow)
  ok (payout, fee)

module _ (rt : Runtime) where
  -- `if amount > 0 { token::transfer(...) }`
  unfoldable pub transfer_if_positive : Pubkey → Pubkey → Pubkey → ℕ → World → Result World
  transfer_if_positive from to authority n w =
      if ltb 0 n then transfer rt from to authority n w else ok w

  -- Pays the winner and the fee, sweeps the rest to the fee account and closes the vault. The
  -- amount swept is read from the vault after the payments (`vault.reload()`).
  unfoldable pub pay_winner_and_close_vault :
      (wager vault winner_token fee_token rent_collector : Pubkey) (payout fee : ℕ)
      → World
      → Result (ℕ × World)
  pay_winner_and_close_vault wager vault winner_token fee_token rent_collector payout fee w = do
    w₁ ← transfer rt vault winner_token wager payout w
    w₂ ← transfer_if_positive vault fee_token wager fee w₁
    let surplus = balance w₂.tokens vault
    w₃ ← transfer_if_positive vault fee_token wager surplus w₂
    w₄ ← close_account rt vault rent_collector wager w₃
    ok (surplus, w₄)
