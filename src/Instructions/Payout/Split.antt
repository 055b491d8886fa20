-- ===== src/Instructions/Payout/Split.antt =====
-- The arithmetic of `split_pot`.
use shake_escrow.Base.{
  ℕ, ◌+◌, ◌-◌, ◌*◌, ◌/◌, ◌≤◌, ◌<◌, ◌≡◌, if◌then◌else◌, ok, err, shake, math_overflow, arith, leb,
}
use shake_escrow.Base.Words.{u64_max, u128_max}
use shake_escrow.State.{max_fee_bps}
use shake_escrow.Instructions.Payout.{split_pot}

-- What `split_pot` promises of a payout and a fee: together they are the pot, and the fee is the
-- pot's share in basis points, rounded down.
pub record IsSplit (stake fee_bps payout fee : ℕ) : Type 0 where
  pub whole : payout + fee ≡ stake + stake
  pub floor : 10000 * fee ≤ (stake + stake) * fee_bps
  pub below : (stake + stake) * fee_bps < 10000 * (fee + 1)

-- The parts of a successful split are the pot, and the fee is rounded down.
pub split_pot-IsSplit :
    (stake fee_bps payout fee : ℕ)
    → split_pot stake fee_bps ≡ ok (payout, fee)
    → IsSplit stake fee_bps payout fee
unfolding split_pot
split_pot-IsSplit stake fee_bps payout fee h = ground arith

pub scaled_fits : (pot fee_bps : ℕ) → pot ≤ u64_max → fee_bps ≤ 10000 → pot * fee_bps ≤ u128_max
scaled_fits pot fee_bps h k = grind arith

pub fee-le-pot : (pot fee_bps : ℕ) → fee_bps ≤ 10000 → pot * fee_bps / 10000 ≤ pot
fee-le-pot pot fee_bps h = grind arith

-- With a fee of at most the whole, the split succeeds exactly when the pot fits a u64.
pub split_pot-total :
    (stake fee_bps : ℕ)
    → fee_bps ≤ 10000
    → split_pot stake fee_bps ≡ (
        if leb (stake * 2) u64_max
        then ok (stake * 2 - stake * 2 * fee_bps / 10000, stake * 2 * fee_bps / 10000)
        else err (shake math_overflow))
unfolding split_pot
split_pot-total stake fee_bps h =
    ground (arith, scaled_fits (stake * 2) fee_bps, fee-le-pot (stake * 2) fee_bps)

pub mul-le-mul : (p b m : ℕ) → b ≤ m → p * b ≤ p * m
mul-le-mul p b m h = grind arith

-- With a fee rate of at most the coded cap, a successful split keeps nine tenths of the pot for the
-- winner, and the fee is at most one tenth.
pub split_pot-winner_share :
    (stake fee_bps payout fee : ℕ)
    → fee_bps ≤ max_fee_bps
    → split_pot stake fee_bps ≡ ok (payout, fee)
    → (9 * (stake + stake) ≤ 10 * payout) × (10 * fee ≤ stake + stake)
split_pot-winner_share stake fee_bps payout fee cap h =
    let s = split_pot-IsSplit stake fee_bps payout fee h in
    omega (arith, s.whole, s.floor, mul-le-mul (stake + stake) fee_bps 1000 cap)
