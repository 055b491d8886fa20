-- ===== src/Instructions/UpdateConfig.antt =====
-- programs/shake-escrow/src/instructions/update_config.rs
pub mod Effect
use shake_escrow.Base.{
  ℕ, ◌%◌, Bool, not, Option, none, some, List, ◌==◌, Result, ok, ◌>>=◌, ◌>>◌, ensure, require,
  ok_or, panic, default_address, not_admin,
}
use shake_escrow.Base.Int.{ℤ}
use shake_escrow.Base.Lists.{length, slice_to}
use shake_escrow.State.{Pubkey, default_key, Config}
use shake_escrow.World.{World, load_config}
use shake_escrow.Instructions.InitializeConfig.{
  validate_config_values, copy_resolvers, empty_allowlist,
}

pub record UpdateConfigArgs : Type 0 where
  pub fee_bps : Option ℕ
  pub fee_destination : Option Pubkey
  pub rent_collector : Option Pubkey
  pub min_stake : Option ℕ
  pub max_stake : Option ℕ
  pub max_open_per_wallet : Option ℕ
  pub resolvers : Option (List Pubkey)
  pub paused : Option Bool
  pub max_window : Option ℤ
  pub max_total_open : Option ℕ

pub record UpdateConfig : Type 0 where
  pub admin : Pubkey

-- `arg.unwrap_or(old)`
abbrev pub unwrap_or {ℓ} : {A : Type ℓ} → Option A → A → A
unwrap_or none old = old
unwrap_or (some v) old = v

-- `if let Some(v) = arg { require!(v != Pubkey::default()); field = v }`
abbrev pub replace_key : Option Pubkey → Pubkey → Result Pubkey
replace_key none old = ok old
replace_key (some v) old = do require (not (v == default_key)) default_address; ok v

-- `if args.resolvers.is_some()`: the array is cleared and written anew.
unfoldable pub replace_resolvers : Option (List Pubkey) → Config → Result Config
unfolding copy_resolvers
replace_resolvers none c = ok c
replace_resolvers (some rs) c = do
  listed ← copy_resolvers 0 rs empty_allowlist
  ok (record c { resolver_allowlist = listed; resolver_count = length rs % 256 })

unfoldable pub handle_update_config : UpdateConfigArgs → Config → Result Config
handle_update_config args c = do
  default_resolvers ← ok_or (slice_to c.resolver_allowlist c.resolver_count) panic
  let fee_bps = unwrap_or args.fee_bps c.fee_bps
  let min_stake = unwrap_or args.min_stake c.min_stake
  let max_stake = unwrap_or args.max_stake c.max_stake
  let max_window = unwrap_or args.max_window c.max_window
  let max_open_per_wallet = unwrap_or args.max_open_per_wallet c.max_open_per_wallet
  let max_total_open = unwrap_or args.max_total_open c.max_total_open
  validate_config_values fee_bps min_stake max_stake (unwrap_or args.resolvers default_resolvers)
      max_window max_open_per_wallet max_total_open
  fee_destination ← replace_key args.fee_destination c.fee_destination
  rent_collector ← replace_key args.rent_collector c.rent_collector
  replace_resolvers args.resolvers (record c {
    fee_bps = fee_bps;
    min_stake = min_stake;
    max_stake = max_stake;
    max_window = max_window;
    max_open_per_wallet = max_open_per_wallet;
    max_total_open = max_total_open;
    fee_destination = fee_destination;
    rent_collector = rent_collector;
    paused = unwrap_or args.paused c.paused;
  })

-- With the constraint `address = config.admin` on the signer.
unfoldable pub update_config : UpdateConfig → UpdateConfigArgs → World → Result World
update_config ctx args w = do
  c ← load_config w
  require (ctx.admin == c.admin) not_admin
  c' ← handle_update_config args c
  ok (record w { config = some c' })
