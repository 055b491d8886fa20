-- ===== src/Custody.antt =====
-- The books of the whole system: what each wager still owes, what each wallet has at stake, and the
-- invariant `IsSound` that ties the vaults, the counters and the global sum of state.rs to them.
mod Sums
pub mod Ledger
pub mod Frames
pub mod Counters
pub mod Sides
pub mod Staking
pub mod Exits
pub mod Settlement
pub mod Creation
pub mod Steps
pub mod Solvency
pub mod Progress
pub mod Reclaiming
pub use Sums.*
use shake_escrow.Base.{
  ℕ, ◌+◌, ◌≤◌, ◌≡◌, ◌≢◌, ◌⊎◌, Bool, true, false, not, ◌&&◌, ◌||◌, Option, none, some, List, [],
  ◌==◌,
}
use shake_escrow.Base.Int.{ℤ}
use shake_escrow.Base.Words.{u64_max}
use shake_escrow.Base.Dict.{lookup, IsKeyed}
use shake_escrow.State.{Pubkey, Config, Wager, funding, active, ExposureCounter}
use shake_escrow.Runtime.{Runtime, TokenAccount, Tokens}
use shake_escrow.Runtime.Addresses.{wager_seeds, counter_seeds}
use shake_escrow.World.{World}
use shake_escrow.Instructions.RefundSide.{refund_due}
use shake_escrow.Instructions.StakeSide.{both_funded}

-- A side's stake lies in the vault while it is funded and not refunded.
abbrev pub holds_a : Wager → Bool
holds_a g = g.funded_a && not g.refunded_a

abbrev pub holds_b : Wager → Bool
holds_b g = g.funded_b && not g.refunded_b

abbrev pub worth : Bool → ℕ → ℕ
worth true n = n
worth false n = 0

-- What the vault owes to the two sides.
abbrev pub locked : Wager → ℕ
locked g = worth (holds_a g) g.stake + worth (holds_b g) g.stake

-- How many of the wager's two stakes in the vault are those of a wallet.
abbrev pub exposure : Pubkey → Wager → ℕ
exposure x g = worth (holds_a g && g.side_a == x) 1 + worth (holds_b g && g.side_b == x) 1

abbrev pub total_of : Option Config → ℕ
total_of none = 0
total_of (some c) = c.total_open_value

abbrev pub mint_of : Option Config → Pubkey
mint_of none = 0
mint_of (some c) = c.mint

abbrev pub count_of : Option ExposureCounter → ℕ
count_of none = 0
count_of (some k) = k.count

-- The count of a wallet's counter.
abbrev pub count_at : Runtime → World → Pubkey → ℕ
count_at rt w x = count_of (w.counters (rt.find_program_address (counter_seeds x)).0)

-- A live wager by itself: it is in its funding or its active state, and locked exactly when both
-- sides have staked; only a stake that was made is refunded.
pub record IsWellFormed (g : Wager) : Type 0 where
  pub sides_apart : g.side_a ≢ g.side_b
  pub live :
      ((g.state ≡ funding) × (both_funded g ≡ false))
      ⊎ ((g.state ≡ active) × (both_funded g ≡ true))
  pub refund_a_funded : g.refunded_a ≡ true → g.funded_a ≡ true
  pub refund_b_funded : g.refunded_b ≡ true → g.funded_b ≡ true

-- A refund was made only once it was due.
abbrev pub IsTimely : ℤ → Wager → Type 0
IsTimely now g =
    (g.refunded_a || g.refunded_b) ≡ true
    → refund_due g.state now g.deadline_fund g.deadline_resolve ≡ true

-- The token account at `v` belongs to `owner` and holds `n` or more.
pub record IsBacked (t : Tokens) (v owner : Pubkey) (n : ℕ) : Type 0 where
  pub account : TokenAccount
  pub account_at : t v ≡ some account
  pub owned : account.owner ≡ owner
  pub covers : n ≤ account.amount

pub record IsCustodied (rt : Runtime) (t : Tokens) (now : ℤ) (k : Pubkey) (g : Wager) : Type 0 where
  pub address : rt.create_program_address (wager_seeds g.side_a g.nonce) g.bump ≡ some k
  pub well_formed : IsWellFormed g
  pub timely : IsTimely now g
  pub backed : IsBacked t (rt.associated_address g.mint k) k (locked g)

-- A counter stands at the canonical address of some wallet.
pub record IsCanonical (rt : Runtime) (k : Pubkey) (c : ExposureCounter) : Type 0 where
  pub wallet : Pubkey
  pub address : k ≡ (rt.find_program_address (counter_seeds wallet)).0

pub record IsSound (rt : Runtime) (w : World) : Type 0 where
  pub keyed : IsKeyed w.wagers
  pub unconfigured : w.config ≡ none → w.wagers ≡ []
  pub minted : (k : Pubkey) (g : Wager) → lookup k w.wagers ≡ some g → g.mint ≡ mint_of w.config
  pub custodied :
      (k : Pubkey) (g : Wager) → lookup k w.wagers ≡ some g → IsCustodied rt w.tokens w.clock k g
  pub canonical : (k : Pubkey) (c : ExposureCounter) → w.counters k ≡ some c → IsCanonical rt k c
  pub bounded : total_of w.config ≤ u64_max
  pub booked : total_of w.config ≡ sum_of locked w.wagers
  pub counted : (x : Pubkey) → count_at rt w x ≡ sum_of (exposure x) w.wagers
