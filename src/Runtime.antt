-- ===== src/Runtime.antt =====
-- What the program calls and does not implement: the SPL token program (`token::transfer`,
-- `token::close_account`), the associated token program, the derivation of program addresses, and
-- the loader's record of the upgrade authority. All of it is a parameter, `Runtime`, and
-- `Runtime.Laws` states the documented behaviour that some theorems take as a hypothesis.
pub mod Laws
pub mod Addresses
use shake_escrow.Base.{ℕ, Bool, Option, List}
use shake_escrow.State.{Pubkey, Seed}

-- A token account, as the program reads it, and whether its mint's authority has frozen it.
pub record TokenAccount : Type 0 where
  pub mint : Pubkey
  pub owner : Pubkey
  pub amount : ℕ
  pub frozen : Bool

-- The token accounts of the chain, by address.
abbrev pub Tokens : Type 0
Tokens = Pubkey → Option TokenAccount

-- `none` is a failed call.
pub record Runtime : Type 0 where
  -- from, to, authority, amount
  pub transfer : Pubkey → Pubkey → Pubkey → ℕ → Tokens → Option Tokens
  -- account, destination of its rent, authority
  pub close_account : Pubkey → Pubkey → Pubkey → Tokens → Option Tokens
  -- mint, owner
  pub create_associated : Pubkey → Pubkey → Tokens → Option Tokens
  pub associated_address : Pubkey → Pubkey → Pubkey
  -- the address and its canonical bump
  pub find_program_address : List Seed → Pubkey × ℕ
  pub create_program_address : List Seed → ℕ → Option Pubkey
  pub can_sign : Pubkey → Bool
  -- the address of this program's data account, and the upgrade authority that an account records
  pub programdata_address : Option Pubkey
  pub upgrade_authority : Pubkey → Option Pubkey
