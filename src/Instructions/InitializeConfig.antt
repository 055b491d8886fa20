-- ===== src/Instructions/InitializeConfig.antt =====
-- programs/shake-escrow/src/instructions/initialize_config.rs
pub mod Effect
use shake_escrow.Base.{
  ℕ, suc, ◌/◌, ◌%◌, Bool, false, not, ◌&&◌, Option, none, some, List, [], ◌∷◌, ltb, leb, ◌==◌,
  Result, ok, err, ◌>>=◌, ◌>>◌, ensure, require, ok_or, panic, anchor, account_in_use, fee_too_high,
  bad_stake_bounds, bad_resolver_list, bad_window, bad_exposure_caps, default_address,
  not_upgrade_authority,
}
use shake_escrow.Base.Int.{ℤ, pos, ltb_ℤ, leb_ℤ}
use shake_escrow.Base.Lists.{length, is_empty, all_ne, set_at}
use shake_escrow.State.{
  Pubkey, default_key, Config, max_fee_bps, resolver_allowlist_len, max_window_cap,
}
use shake_escrow.Runtime.{Runtime}
use shake_escrow.Runtime.Addresses.{config_seeds, is_some_key}
use shake_escrow.World.{World}

pub record InitializeConfigArgs : Type 0 where
  pub mint : Pubkey
  pub fee_bps : ℕ
  pub fee_destination : Pubkey
  pub rent_collector : Pubkey
  pub min_stake : ℕ
  pub max_stake : ℕ
  pub max_open_per_wallet : ℕ
  pub resolvers : List Pubkey
  pub max_window : ℤ
  pub max_total_open : ℕ

pub record InitializeConfig : Type 0 where
  pub authority : Pubkey
  pub program_data : Pubkey

unfoldable pub validate_config_values :
    (fee_bps min_stake max_stake : ℕ) (resolvers : List Pubkey) (max_window : ℤ)
    (max_open_per_wallet max_total_open : ℕ)
    → Result (Unit {0})
validate_config_values fee_bps min_stake max_stake resolvers max_window per_wallet total = do
  require (leb fee_bps max_fee_bps) fee_too_high
  require (ltb 0 min_stake && leb min_stake max_stake) bad_stake_bounds
  require
      (not (is_empty resolvers)
        && leb (length resolvers) resolver_allowlist_len
        && all_ne resolvers default_key)
      bad_resolver_list
  require (ltb_ℤ (pos 0) max_window && leb_ℤ max_window max_window_cap) bad_window
  require (ltb 0 per_wallet && leb max_stake (total / 2)) bad_exposure_caps

-- `[Pubkey::default(); RESOLVER_ALLOWLIST_LEN]`
abbrev pub empty_allowlist : List Pubkey
empty_allowlist = default_key ∷ default_key ∷ default_key ∷ default_key ∷ []

-- The loop that writes `resolvers` into the array from index `i` on.
unfoldable pub copy_resolvers : ℕ → List Pubkey → List Pubkey → Result (List Pubkey)
copy_resolvers i [] l = ok l
copy_resolvers i (r ∷ rs) l = do l' ← ok_or (set_at l i r) panic; copy_resolvers (suc i) rs l'

-- `init` on the config's slot: it must be free.
abbrev pub ensure_free {ℓ} : {A : Type ℓ} → Option A → Result (Unit {0})
ensure_free none = ok tt
ensure_free (some a) = err (anchor account_in_use)

unfoldable pub handle_initialize_config :
    Runtime → InitializeConfig → InitializeConfigArgs → World → Result World
handle_initialize_config rt ctx args w = do
  validate_config_values args.fee_bps args.min_stake args.max_stake args.resolvers args.max_window
      args.max_open_per_wallet args.max_total_open
  require
      (not (args.mint == default_key)
        && not (args.fee_destination == default_key)
        && not (args.rent_collector == default_key))
      default_address
  listed ← copy_resolvers 0 args.resolvers empty_allowlist
  ok (record w {
    config = some (record {
      admin = ctx.authority;
      mint = args.mint;
      fee_bps = args.fee_bps;
      fee_destination = args.fee_destination;
      rent_collector = args.rent_collector;
      min_stake = args.min_stake;
      max_stake = args.max_stake;
      max_open_per_wallet = args.max_open_per_wallet;
      resolver_allowlist = listed;
      resolver_count = length args.resolvers % 256;
      paused = false;
      max_window = args.max_window;
      max_total_open = args.max_total_open;
      total_open_value = 0;
      bump = (rt.find_program_address config_seeds).1;
    });
  })

-- With the constraints of the accounts struct: the slot is free, and the signer is the upgrade
-- authority that the program's own data account records.
unfoldable pub initialize_config :
    Runtime → InitializeConfig → InitializeConfigArgs → World → Result World
unfolding handle_initialize_config
initialize_config rt ctx args w = do
  ensure_free w.config
  require (is_some_key rt.programdata_address ctx.program_data) not_upgrade_authority
  require (is_some_key (rt.upgrade_authority ctx.program_data) ctx.authority) not_upgrade_authority
  handle_initialize_config rt ctx args w
