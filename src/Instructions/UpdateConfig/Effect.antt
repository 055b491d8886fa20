-- ===== src/Instructions/UpdateConfig/Effect.antt =====
-- What a successful `update_config` read and wrote.
use shake_escrow.Base.{
  ◌≡◌, ◌≢◌, ◌%◌, Option, none, some, List, ok, ◌==◌, arith, on_ok, on_pass, on_some, ok-injective,
  sym, ==_iff, panic, refl,
}
use shake_escrow.Base.Lists.{slice_to, length}
use shake_escrow.State.{Pubkey, Config, default_key}
use shake_escrow.World.{World}
use shake_escrow.Instructions.InitializeConfig.{
  validate_config_values, copy_resolvers, empty_allowlist,
}
use shake_escrow.Instructions.UpdateConfig.{
  UpdateConfig, UpdateConfigArgs, update_config, handle_update_config, unwrap_or, replace_key,
  replace_resolvers,
}

-- A key is replaced by a real one, or kept.
abbrev pub Replaced : Option Pubkey → Pubkey → Pubkey → Type 0
Replaced o old new = (new ≡ unwrap_or o old) × (o ≢ some default_key)

replace_key-ok :
    (o : Option Pubkey) (old : Pubkey) {new : Pubkey}
    → replace_key o old ≡ ok new
    → Replaced o old new
replace_key-ok none old h = ground arith
replace_key-ok (some v) old h = ground arith

-- The allowlist is written anew, or kept.
abbrev pub Relisted : Option (List Pubkey) → Config → Config → Type 0
Relisted none c c' = c' ≡ c
Relisted (some rs) c c' =
    (listed : List Pubkey) × (copy_resolvers 0 rs empty_allowlist ≡ ok listed)
    × (c' ≡ record c { resolver_allowlist = listed; resolver_count = length rs % 256 })

replace_resolvers-ok :
    (o : Option (List Pubkey)) (c : Config) {c' : Config}
    → replace_resolvers o c ≡ ok c'
    → Relisted o c c'
unfolding replace_resolvers
replace_resolvers-ok none c h = sym (ok-injective h)
replace_resolvers-ok (some rs) c h =
    on_ok (copy_resolvers 0 rs empty_allowlist) h
      λ listed copied last. (listed, copied, sym (ok-injective last))

-- The config with every argument but the resolvers put in.
abbrev pub revised : UpdateConfigArgs → Config → (fee_destination rent_collector : Pubkey) → Config
revised args c fee_destination rent_collector = record c {
  fee_bps = unwrap_or args.fee_bps c.fee_bps;
  min_stake = unwrap_or args.min_stake c.min_stake;
  max_stake = unwrap_or args.max_stake c.max_stake;
  max_window = unwrap_or args.max_window c.max_window;
  max_open_per_wallet = unwrap_or args.max_open_per_wallet c.max_open_per_wallet;
  max_total_open = unwrap_or args.max_total_open c.max_total_open;
  fee_destination = fee_destination;
  rent_collector = rent_collector;
  paused = unwrap_or args.paused c.paused;
}

pub record Updated (ctx : UpdateConfig) (args : UpdateConfigArgs) (w w' : World) : Type 0 where
  pub old : Config
  pub new : Config
  pub default_resolvers : List Pubkey
  pub fee_destination : Pubkey
  pub rent_collector : Pubkey
  pub old_at : w.config ≡ some old
  pub by_admin : ctx.admin ≡ old.admin
  pub sliced : slice_to old.resolver_allowlist old.resolver_count ≡ some default_resolvers
  pub validated :
      validate_config_values
        (unwrap_or args.fee_bps old.fee_bps)
        (unwrap_or args.min_stake old.min_stake)
        (unwrap_or args.max_stake old.max_stake)
        (unwrap_or args.resolvers default_resolvers)
        (unwrap_or args.max_window old.max_window)
        (unwrap_or args.max_open_per_wallet old.max_open_per_wallet)
        (unwrap_or args.max_total_open old.max_total_open)
      ≡ ok tt
  pub fee_replaced : Replaced args.fee_destination old.fee_destination fee_destination
  pub rent_replaced : Replaced args.rent_collector old.rent_collector rent_collector
  pub relisted : Relisted args.resolvers (revised args old fee_destination rent_collector) new
  pub result : w' ≡ record w { config = some new }

pub update_config-ok :
    (ctx : UpdateConfig) (args : UpdateConfigArgs) (w : World) {w' : World}
    → update_config ctx args w ≡ ok w'
    → Updated ctx args w w'
unfolding update_config handle_update_config
update_config-ok ctx args w h = on_some w.config _ h λ c old_at h₁.
    on_pass (ctx.admin == c.admin) _ h₁ λ by_admin h₂.
      on_ok (handle_update_config args c) h₂ λ new handled last.
        on_some (slice_to c.resolver_allowlist c.resolver_count) panic handled λ listed sliced h₃.
          on_ok
            (validate_config_values (unwrap_or args.fee_bps c.fee_bps)
              (unwrap_or args.min_stake c.min_stake) (unwrap_or args.max_stake c.max_stake)
              (unwrap_or args.resolvers listed) (unwrap_or args.max_window c.max_window)
              (unwrap_or args.max_open_per_wallet c.max_open_per_wallet)
              (unwrap_or args.max_total_open c.max_total_open))
            h₃
            λ v validated h₄.
              on_ok (replace_key args.fee_destination c.fee_destination) h₄
                λ fee_destination fee_replaced h₅.
                  on_ok (replace_key args.rent_collector c.rent_collector) h₅
                    λ rent_collector rent_replaced h₆. record {
                      old = c;
                      new = new;
                      default_resolvers = listed;
                      fee_destination = fee_destination;
                      rent_collector = rent_collector;
                      old_at = old_at;
                      by_admin = (==_iff _ _).0 by_admin;
                      sliced = sliced;
                      validated = validated;
                      fee_replaced = replace_key-ok _ _ fee_replaced;
                      rent_replaced = replace_key-ok _ _ rent_replaced;
                      relisted = replace_resolvers-ok _ _ h₆;
                      result = sym (ok-injective last);
                    }

-- No update touches the admin, the mint, the global sum or the bump.
pub Relisted-fixed :
    (o : Option (List Pubkey)) (c c' : Config)
    → Relisted o c c'
    → (c'.admin ≡ c.admin)
      × (c'.mint ≡ c.mint)
      × (c'.total_open_value ≡ c.total_open_value)
      × (c'.bump ≡ c.bump)
Relisted-fixed none c c' h = rw h (refl, refl, refl, refl)
Relisted-fixed (some rs) c c' (listed, copied, e) = rw e (refl, refl, refl, refl)
