-- ===== src/Configuration/Upkeep.antt =====
-- The handlers that write the config, initialize_config.rs and update_config.rs, against
-- `IsValidConfig`.
use shake_escrow.Base.{◌≤◌, ◌≡◌, ◌≢◌, refl, Option, none, some, List, ok, arith, ap, sym, subst}
use shake_escrow.Base.Lists.{length, slice_to, contains}
use shake_escrow.State.{Pubkey, Config, resolver_allowed, default_key}
use shake_escrow.Runtime.{Runtime}
use shake_escrow.World.{World}
use shake_escrow.Instructions.InitializeConfig.{
  InitializeConfig, InitializeConfigArgs, initialize_config,
}
use shake_escrow.Instructions.InitializeConfig.Effect.{initialize_config-ok, first_config}
use shake_escrow.Instructions.UpdateConfig.{
  UpdateConfig, UpdateConfigArgs, update_config, unwrap_or,
}
use shake_escrow.Instructions.UpdateConfig.Effect.{update_config-ok, Replaced, Relisted, revised}
use shake_escrow.Configuration.{IsValidConfig}
use shake_escrow.Configuration.Validation.{validate_config_values_iff}
use shake_escrow.Configuration.Allowlist.{copied-slice, allowed-of_slice}

-- A first config is valid; its admin is the upgrade authority that the program's own program data
-- account names, nothing is open, and a resolver is allowed exactly if it was listed.
pub initialize_config-IsValidConfig :
    (rt : Runtime) (ctx : InitializeConfig) (args : InitializeConfigArgs) (w : World) {w' : World}
    → initialize_config rt ctx args w ≡ ok w'
    → (c : Config) × (w'.config ≡ some c)
      × IsValidConfig c
      × (rt.programdata_address ≡ some ctx.program_data)
      × (rt.upgrade_authority ctx.program_data ≡ some c.admin)
      × (c.total_open_value ≡ 0)
      × ((k : Pubkey) → resolver_allowed c k ≡ ok (contains args.resolvers k))
initialize_config-IsValidConfig rt ctx args w h =
    let s = initialize_config-ok rt ctx args w h in
    let bounds = (validate_config_values_iff _ _ _ args.resolvers _ _ _).0 s.validated in
    let c = first_config rt ctx args s.listed in
    let sliced = copied-slice args.resolvers s.listed bounds.resolvers_few.1 s.copied in
    (
      c,
      ap (λ (x : World). x.config) s.result,
      record {
        listed = args.resolvers;
        sliced = sliced;
        in_bounds = bounds;
        real_addresses = s.addresses;
      },
      s.program_data,
      s.authorised,
      refl,
      λ k. allowed-of_slice c args.resolvers k sliced,
    )

-- The list that an update leaves in the array.
Relisted-slice :
    (o : Option (List Pubkey)) (old rs : List Pubkey) (c c' : Config)
    → slice_to c.resolver_allowlist c.resolver_count ≡ some old
    → unwrap_or o old ≡ rs
    → length rs ≤ 4
    → Relisted o c c'
    → slice_to c'.resolver_allowlist c'.resolver_count ≡ some rs
Relisted-slice none old rs c c' sliced e few same = rw (same, ← e) sliced
Relisted-slice (some l) old rs c c' sliced e few (listed, copied, same) =
    rw (same, ← e) (copied-slice l listed (rw e few) copied)

-- The values of an update that stand outside the allowlist.
Relisted-values :
    (o : Option (List Pubkey)) (c c' : Config)
    → Relisted o c c'
    → (c'.fee_bps ≡ c.fee_bps)
      × (c'.min_stake ≡ c.min_stake)
      × (c'.max_stake ≡ c.max_stake)
      × (c'.max_window ≡ c.max_window)
      × (c'.max_open_per_wallet ≡ c.max_open_per_wallet)
      × (c'.max_total_open ≡ c.max_total_open)
      × (c'.mint ≡ c.mint)
      × (c'.fee_destination ≡ c.fee_destination)
      × (c'.rent_collector ≡ c.rent_collector)
Relisted-values none c c' h = rw h (refl, refl, refl, refl, refl, refl, refl, refl, refl)
Relisted-values (some rs) c c' (listed, copied, e) =
    rw e (refl, refl, refl, refl, refl, refl, refl, refl, refl)

Replaced-real :
    (o : Option Pubkey) (old new : Pubkey)
    → Replaced o old new
    → old ≢ default_key
    → new ≢ default_key
Replaced-real none old new h real = ground (arith, h)
Replaced-real (some v) old new h real = ground (arith, h)

-- An update keeps a config valid.
pub update_config-IsValidConfig :
    (ctx : UpdateConfig) (args : UpdateConfigArgs) (w : World) {w' : World} (c : Config)
    → w.config ≡ some c
    → IsValidConfig c
    → update_config ctx args w ≡ ok w'
    → (c' : Config) × (w'.config ≡ some c') × IsValidConfig c'
update_config-IsValidConfig ctx args w c at v h =
    let s = update_config-ok ctx args w h in
    let same : s.old ≡ c = cc (s.old_at, at) in
    let v' = subst IsValidConfig (sym same) v in
    let rs = unwrap_or args.resolvers s.default_resolvers in
    let bounds = (validate_config_values_iff _ _ _ rs _ _ _).0 s.validated in
    let next = revised args s.old s.fee_destination s.rent_collector in
    let (fee, low, high, window, wallet, total, mint, destination, collector) =
      Relisted-values args.resolvers next s.new s.relisted in
    (
      s.new,
      ap (λ (x : World). x.config) s.result,
      record {
        listed = rs;
        sliced =
            Relisted-slice args.resolvers s.default_resolvers rs next s.new s.sliced refl
              bounds.resolvers_few.1 s.relisted;
        in_bounds = rw (fee, low, high, window, wallet, total) bounds;
        real_addresses = (
          rw mint v'.real_addresses.0,
          rw destination (Replaced-real _ _ _ s.fee_replaced v'.real_addresses.1),
          rw collector (Replaced-real _ _ _ s.rent_replaced v'.real_addresses.2),
        );
      },
    )
