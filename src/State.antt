-- ===== src/State.antt =====
-- The program's accounts and constants: programs/shake-escrow/src/state.rs and constants.rs.
-- A `Pubkey` is its 32 bytes read as one number, so `Pubkey::default()` is 0; a terms hash likewise.
use shake_escrow.Base.{
  ℕ, Bool, true, false, not, ◌&&◌, ◌||◌, List, ◌∷◌, [], ◌==◌, Result, ok_or, ok, ◌>>=◌, panic,
}
use shake_escrow.Base.Int.{ℤ, pos}
use shake_escrow.Base.Lists.{slice_to, contains}

abbrev pub Pubkey : Type 0
Pubkey = ℕ

abbrev pub default_key : Pubkey
default_key = 0

-- One part of a seed list: the bytes of a literal, a key, or a little-endian u64.
pub data Seed : Type 0 where
  bytes : List ℕ → Seed
  key : Pubkey → Seed
  le_bytes : ℕ → Seed

abbrev pub config_seed : Seed
config_seed = bytes (b'c' ∷ b'o' ∷ b'n' ∷ b'f' ∷ b'i' ∷ b'g' ∷ [])

abbrev pub wager_seed : Seed
wager_seed = bytes (b'w' ∷ b'a' ∷ b'g' ∷ b'e' ∷ b'r' ∷ [])

abbrev pub counter_seed : Seed
counter_seed = bytes (b'c' ∷ b'o' ∷ b'u' ∷ b'n' ∷ b't' ∷ b'e' ∷ b'r' ∷ [])

abbrev pub admin_transfer_seed : Seed
admin_transfer_seed = bytes (
    b'a' ∷ b'd' ∷ b'm' ∷ b'i' ∷ b'n' ∷ b'_' ∷ b't' ∷ b'r' ∷ b'a' ∷ b'n' ∷ b's' ∷ b'f' ∷ b'e' ∷ b'r'
    ∷ [])

abbrev pub max_fee_bps : ℕ
max_fee_bps = 1000

abbrev pub resolver_allowlist_len : ℕ
resolver_allowlist_len = 4

-- 180 days in seconds.
abbrev pub max_window_cap : ℤ
max_window_cap = pos 15552000

pub record Config : Type 0 where
  pub admin : Pubkey
  pub mint : Pubkey
  pub fee_bps : ℕ  -- u16
  pub fee_destination : Pubkey
  pub rent_collector : Pubkey
  pub min_stake : ℕ  -- u64
  pub max_stake : ℕ  -- u64
  pub max_open_per_wallet : ℕ  -- u8
  pub resolver_allowlist : List Pubkey  -- an array of four
  pub resolver_count : ℕ  -- u8
  pub paused : Bool
  pub max_window : ℤ  -- i64
  pub max_total_open : ℕ  -- u64
  pub total_open_value : ℕ  -- u64
  pub bump : ℕ  -- u8

-- `resolver_allowed`; a count past the array's end is a panic of the slice.
unfoldable pub resolver_allowed : Config → Pubkey → Result Bool
resolver_allowed c k = do
  listed ← ok_or (slice_to c.resolver_allowlist c.resolver_count) panic
  ok (contains listed k)

pub data WagerState : Type 0 where
  funding active resolved cancelled : WagerState

-- The derived `==`.
abbrev pub same_state : WagerState → WagerState → Bool
same_state funding funding = true
same_state active active = true
same_state resolved resolved = true
same_state cancelled cancelled = true
same_state _ _ = false

pub record Wager : Type 0 where
  pub state : WagerState
  pub side_a : Pubkey
  pub side_b : Pubkey
  pub stake : ℕ  -- u64
  pub mint : Pubkey
  pub funded_a : Bool
  pub funded_b : Bool
  pub refunded_a : Bool
  pub refunded_b : Bool
  pub resolver : Pubkey
  pub terms_hash : ℕ
  pub deadline_fund : ℤ  -- i64
  pub deadline_resolve : ℤ  -- i64
  pub fee_bps : ℕ  -- u16
  pub fee_destination : Pubkey
  pub rent_collector : Pubkey
  pub nonce : ℕ  -- u64
  pub cancel_proposed_by : Pubkey
  pub bump : ℕ  -- u8

abbrev pub is_participant : Wager → Pubkey → Bool
is_participant g k = k == g.side_a || k == g.side_b

abbrev pub fully_exited : Wager → Bool
fully_exited g = (not g.funded_a || g.refunded_a) && (not g.funded_b || g.refunded_b)

pub record AdminTransfer : Type 0 where
  pub proposed : Pubkey
  pub bump : ℕ  -- u8

pub record ExposureCounter : Type 0 where
  pub count : ℕ  -- u8
  pub bump : ℕ  -- u8
