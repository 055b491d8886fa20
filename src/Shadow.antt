-- ===== src/Shadow.antt =====
-- The shadow model of the fuzzing harness, trident-tests/fuzz_0/test_fuzz.rs: what the harness keeps
-- beside the chain, with wallets and wagers named by their keys in place of their indices.
pub mod Flows
pub mod Sending
pub mod Circulation
pub mod Coupling
pub mod Frames
pub mod Purses
pub mod Staking
pub mod Returning
pub mod Exiting
pub mod Pots
pub mod Settling
pub mod Cancelling
pub mod Accepting
pub mod Closing
pub mod Opening
pub mod Simulation
pub mod Coverage
pub mod Overflow
pub mod Campaign
use shake_escrow.Base.{
  ℕ, ◌+◌, ◌*◌, Bool, true, false, not, ◌&&◌, ◌||◌, Option, none, some, [], ◌==◌, if◌then◌else◌,
}
use shake_escrow.Base.Int.{ℤ}
use shake_escrow.Base.Dict.{Dict}
use shake_escrow.State.{Pubkey}

abbrev pub usdc : ℕ
usdc = 1000000

abbrev pub cap_per_wallet : ℕ
cap_per_wallet = 5

abbrev pub global_cap : ℕ
global_cap = 400 * usdc

abbrev pub start_balance : ℕ
start_balance = 10000 * usdc

abbrev pub start_fee_bps : ℕ
start_fee_bps = 300

-- A settled or closed wager has no state of its own: it is `closed`.
pub data MState : Type 0 where
  funding active : MState

abbrev pub is_funding : MState → Bool
is_funding MState.funding = true
is_funding MState.active = false

abbrev pub is_active : MState → Bool
is_active MState.funding = false
is_active MState.active = true

-- The index of a side in the arrays of two.
pub data Side : Type 0 where
  side_0 side_1 : Side

-- The key of the wager is its key in `Shadow.wagers`.
pub record MWager : Type 0 where
  pub sa : Pubkey
  pub sb : Pubkey
  pub stake : ℕ  -- u64
  pub fee_bps : ℕ  -- u16
  pub d_fund : ℤ  -- i64
  pub d_resolve : ℤ  -- i64
  pub state : MState
  pub funded_0 : Bool
  pub funded_1 : Bool
  pub refunded_0 : Bool
  pub refunded_1 : Bool
  pub proposal : Option Pubkey
  pub closed : Bool

abbrev pub side_of : MWager → Pubkey → Option Side
side_of g actor = if actor == g.sa then some side_0 else if actor == g.sb then some side_1 else none

abbrev pub is_some {ℓ} : {A : Type ℓ} → Option A → Bool
is_some none = false
is_some (some a) = true

abbrev pub funded : MWager → Side → Bool
funded g side_0 = g.funded_0
funded g side_1 = g.funded_1

abbrev pub refunded : MWager → Side → Bool
refunded g side_0 = g.refunded_0
refunded g side_1 = g.refunded_1

-- The stake of one side, if it lies in the vault.
abbrev pub held : MWager → Side → ℕ
held g s = if funded g s && not (refunded g s) then g.stake else 0

abbrev pub vault_expected : MWager → ℕ
vault_expected g = held g side_0 + held g side_1

abbrev pub all_exited : MWager → Bool
all_exited g = (not g.funded_0 || g.refunded_0) && (not g.funded_1 || g.refunded_1)

pub record Shadow : Type 0 where
  pub balances : Pubkey → ℕ  -- u64
  pub fee_balance : ℕ  -- u64
  pub counters : Pubkey → ℕ  -- u8
  pub total_open : ℕ  -- u64
  pub fee_bps_current : ℕ  -- u16
  pub wagers : Dict MWager

abbrev pub start : Shadow
start = record {
  balances = λ actor. start_balance;
  fee_balance = 0;
  counters = λ actor. 0;
  total_open = 0;
  fee_bps_current = start_fee_bps;
  wagers = [];
}
