-- ===== src/Configuration.antt =====
-- The config account (state.rs, initialize_config.rs, update_config.rs): which values it can hold,
-- what its resolver allowlist means, and who can change it.
pub mod Validation
pub mod Allowlist
pub mod Upkeep
pub mod Authority
use shake_escrow.Base.{ℕ, ◌/◌, ◌≤◌, ◌<◌, ◌≡◌, ◌≢◌, true, false, List, some}
use shake_escrow.Base.Int.{ℤ, pos, ◌≤ℤ◌, ◌<ℤ◌}
use shake_escrow.Base.Lists.{length, slice_to, all_ne}
use shake_escrow.State.{
  Pubkey, default_key, Config, max_fee_bps, resolver_allowlist_len, max_window_cap,
}

-- The bounds that the code promises for the values of a config, whoever sets them.
pub record IsInBounds (fee_bps min_stake max_stake : ℕ) (resolvers : List Pubkey) (max_window : ℤ)
    (max_open_per_wallet max_total_open : ℕ) : Type 0 where
  pub fee_capped : fee_bps ≤ max_fee_bps
  pub stakes_ordered : (0 < min_stake) × (min_stake ≤ max_stake)
  pub resolvers_few : (0 < length resolvers) × (length resolvers ≤ resolver_allowlist_len)
  pub resolvers_real : all_ne resolvers default_key ≡ true
  pub window_capped : (pos 0 <ℤ max_window) × (max_window ≤ℤ max_window_cap)
  pub wallet_cap : 0 < max_open_per_wallet
  pub room_for_two : max_stake ≤ max_total_open / 2

-- A config whose values are in bounds, and whose allowlist holds as many resolvers as it counts.
pub record IsValidConfig (c : Config) : Type 0 where
  pub listed : List Pubkey
  pub sliced : slice_to c.resolver_allowlist c.resolver_count ≡ some listed
  pub in_bounds :
      IsInBounds c.fee_bps c.min_stake c.max_stake listed c.max_window c.max_open_per_wallet
        c.max_total_open
  pub real_addresses :
      (c.mint ≢ default_key) × (c.fee_destination ≢ default_key) × (c.rent_collector ≢ default_key)
