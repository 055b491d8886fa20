-- ===== src/Instructions/InitializeConfig/Effect.antt =====
-- What a successful `initialize_config` read and wrote.
use shake_escrow.Base.{
  ◌≡◌, false, Option, none, some, List, ok, ◌==◌, arith, on_ok, on_pass, ok-injective, sym, refl,
  ◌%◌, ◌≢◌, not, ◌&&◌,
}
use shake_escrow.Base.Lists.{length}
use shake_escrow.State.{Pubkey, Config, default_key}
use shake_escrow.Runtime.{Runtime}
use shake_escrow.Runtime.Addresses.{config_seeds, is_some_key}
use shake_escrow.World.{World}
use shake_escrow.World.Loads.{is_some_key_sound}
use shake_escrow.Instructions.InitializeConfig.{
  InitializeConfig, InitializeConfigArgs, initialize_config, validate_config_values, copy_resolvers,
  empty_allowlist, ensure_free,
}

abbrev pub first_config : Runtime → InitializeConfig → InitializeConfigArgs → List Pubkey → Config
first_config rt ctx args listed = record {
  admin = ctx.authority;
  mint = args.mint;
  fee_bps = args.fee_bps;
  fee_destination = args.fee_destination;
  rent_collector = args.rent_collector;
  min_stake = args.min_stake;
  max_stake = args.max_stake;
  max_open_per_wallet = args.max_open_per_wallet;
  resolver_allowlist = listed;
  resolver_count = length args.resolvers % 256;
  paused = false;
  max_window = args.max_window;
  max_total_open = args.max_total_open;
  total_open_value = 0;
  bump = (rt.find_program_address config_seeds).1;
}

pub record Initialized (rt : Runtime) (ctx : InitializeConfig) (args : InitializeConfigArgs)
    (w w' : World) : Type 0 where
  pub listed : List Pubkey
  pub was_free : w.config ≡ none
  pub program_data : rt.programdata_address ≡ some ctx.program_data
  pub authorised : rt.upgrade_authority ctx.program_data ≡ some ctx.authority
  pub validated :
      validate_config_values args.fee_bps args.min_stake args.max_stake args.resolvers
        args.max_window args.max_open_per_wallet args.max_total_open
      ≡ ok tt
  pub addresses :
      (args.mint ≢ default_key)
      × (args.fee_destination ≢ default_key)
      × (args.rent_collector ≢ default_key)
  pub copied : copy_resolvers 0 args.resolvers empty_allowlist ≡ ok listed
  pub result : w' ≡ record w { config = some (first_config rt ctx args listed) }

ensure_free-ok {ℓ} : {A : Type ℓ} (o : Option A) {u : Unit {0}} → ensure_free o ≡ ok u → o ≡ none
ensure_free-ok none h = refl
ensure_free-ok (some a) h = cc

pub initialize_config-ok :
    (rt : Runtime) (ctx : InitializeConfig) (args : InitializeConfigArgs) (w : World) {w' : World}
    → initialize_config rt ctx args w ≡ ok w'
    → Initialized rt ctx args w w'
unfolding initialize_config
initialize_config-ok rt ctx args w h = on_ok (ensure_free w.config) h λ u free h₁.
    on_pass (is_some_key rt.programdata_address ctx.program_data) _ h₁ λ program_data h₂.
      on_pass (is_some_key (rt.upgrade_authority ctx.program_data) ctx.authority) _ h₂
        λ authority h₃.
          on_ok
            (validate_config_values args.fee_bps args.min_stake args.max_stake args.resolvers
              args.max_window args.max_open_per_wallet args.max_total_open)
            h₃
            λ v validated h₄.
              on_pass
                (not (args.mint == default_key)
                  && not (args.fee_destination == default_key)
                  && not (args.rent_collector == default_key))
                _ h₄
                λ addresses h₅.
                  on_ok (copy_resolvers 0 args.resolvers empty_allowlist) h₅ λ listed copied last.
                    record {
                      listed = listed;
                      was_free = ensure_free-ok w.config free;
                      program_data = is_some_key_sound _ _ program_data;
                      authorised = is_some_key_sound _ _ authority;
                      validated = validated;
                      addresses = ground arith;
                      copied = copied;
                      result = sym (ok-injective last);
                    }
