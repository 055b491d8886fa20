-- ===== src/Safety/Administration.antt =====
-- Panics in the instructions on the config and on the admin role.
use shake_escrow.Base.{
  ℕ, ◌≡◌, none, some, List, Option, ok, panic, arith, ok_or, anchor, account_not_initialized,
}
use shake_escrow.Base.Int.{ℤ}
use shake_escrow.State.{Pubkey, Config}
use shake_escrow.Runtime.{Runtime}
use shake_escrow.World.{World}
use shake_escrow.Configuration.{IsValidConfig}
use shake_escrow.Configuration.Validation.{validate_config_values_iff}
use shake_escrow.Configuration.Allowlist.{copy_resolvers-slice}
use shake_escrow.Safety.Rules.{
  NeverPanics, NeverPanics-ok, NeverPanics-some, NeverPanics-eq_ok, NeverPanics-bind, calm_rules,
}
use shake_escrow.Instructions.InitializeConfig.{
  InitializeConfig, InitializeConfigArgs, initialize_config, handle_initialize_config,
  validate_config_values, copy_resolvers, empty_allowlist, ensure_free,
}
use shake_escrow.Instructions.UpdateConfig.{
  UpdateConfig, UpdateConfigArgs, update_config, handle_update_config, replace_resolvers,
  replace_key, unwrap_or,
}
use shake_escrow.Instructions.AdminTransfers.{
  ProposeAdmin, AcceptAdmin, CancelAdminTransfer, propose_admin, accept_admin,
  cancel_admin_transfer,
}

pub ensure_free-NeverPanics {ℓ} : {A : Type ℓ} (o : Option A) → NeverPanics (ensure_free o)
ensure_free-NeverPanics none = search calm_rules
ensure_free-NeverPanics (some a) = record { calm = λ e. cc }

validate-NeverPanics :
    (fee low high : ℕ) (rs : List Pubkey) (window : ℤ) (wallet total : ℕ)
    → NeverPanics (validate_config_values fee low high rs window wallet total)
unfolding validate_config_values
validate-NeverPanics fee low high rs window wallet total = search calm_rules depth 20

-- A list that passed the validation fits the array.
copy-NeverPanics :
    (fee low high : ℕ) (rs : List Pubkey) (window : ℤ) (wallet total : ℕ) (u : Unit {0})
    → validate_config_values fee low high rs window wallet total ≡ ok u
    → NeverPanics (copy_resolvers 0 rs empty_allowlist)
copy-NeverPanics fee low high rs window wallet total tt h =
    let bounds = (validate_config_values_iff fee low high rs window wallet total).0 h in
    let copied = copy_resolvers-slice rs bounds.resolvers_few.1 in
    NeverPanics-eq_ok _ copied.0 copied.1

handle_initialize-NeverPanics :
    (rt : Runtime) (ctx : InitializeConfig) (args : InitializeConfigArgs) (w : World)
    → NeverPanics (handle_initialize_config rt ctx args w)
unfolding handle_initialize_config
handle_initialize-NeverPanics rt ctx args w =
    let validated =
      validate-NeverPanics args.fee_bps args.min_stake args.max_stake args.resolvers args.max_window
        args.max_open_per_wallet args.max_total_open in
    NeverPanics-bind _ _ validated λ u e.
      let copied = (copy-NeverPanics _ _ _ args.resolvers _ _ _ u e).calm in
      record { calm = λ h. ground (arith, copied) }

pub initialize_config-NeverPanics :
    (rt : Runtime) (ctx : InitializeConfig) (args : InitializeConfigArgs) (w : World)
    → NeverPanics (initialize_config rt ctx args w)
unfolding initialize_config
initialize_config-NeverPanics rt ctx args w =
    search (calm_rules, ensure_free-NeverPanics, handle_initialize-NeverPanics) depth 40

replace_key-NeverPanics : (o : Option Pubkey) (old : Pubkey) → NeverPanics (replace_key o old)
replace_key-NeverPanics none old = search calm_rules
replace_key-NeverPanics (some v) old = search calm_rules

replace_resolvers-NeverPanics :
    (o : Option (List Pubkey)) (old : List Pubkey) (c : Config) (fee low high : ℕ) (window : ℤ)
    (wallet total : ℕ) (u : Unit {0})
    → validate_config_values fee low high (unwrap_or o old) window wallet total ≡ ok u
    → NeverPanics (replace_resolvers o c)
unfolding replace_resolvers
replace_resolvers-NeverPanics none old c fee low high window wallet total u h = search calm_rules
replace_resolvers-NeverPanics (some rs) old c fee low high window wallet total u h =
    NeverPanics-bind _ _ (copy-NeverPanics fee low high rs window wallet total u h)
      (λ l e. NeverPanics-ok _)

handle_update-NeverPanics :
    (args : UpdateConfigArgs) (c : Config)
    → IsValidConfig c
    → NeverPanics (handle_update_config args c)
unfolding handle_update_config
handle_update-NeverPanics args c v =
    NeverPanics-bind _ _ (NeverPanics-some _ panic v.listed v.sliced) λ old e.
      NeverPanics-bind _ _ (validate-NeverPanics _ _ _ (unwrap_or args.resolvers old) _ _ _)
        λ u validated.
          NeverPanics-bind _ _ (replace_key-NeverPanics args.fee_destination c.fee_destination)
            λ f ef.
              NeverPanics-bind _ _ (replace_key-NeverPanics args.rent_collector c.rent_collector)
                λ r er. replace_resolvers-NeverPanics args.resolvers old _ _ _ _ _ _ _ u validated

pub loaded :
    (o : Option Config) (c : Config) → ok_or o (anchor account_not_initialized) ≡ ok c → o ≡ some c
loaded none c h = cc
loaded (some d) c h = cc

pub update_config-NeverPanics :
    (ctx : UpdateConfig) (args : UpdateConfigArgs) (w : World)
    → ((c : Config) → w.config ≡ some c → IsValidConfig c)
    → NeverPanics (update_config ctx args w)
unfolding update_config
update_config-NeverPanics ctx args w valid =
    let handle = λ (c : Config) (found : ok_or w.config (anchor account_not_initialized) ≡ ok c).
      handle_update-NeverPanics args c (valid c (loaded w.config c found)) in
    search (calm_rules, handle) depth 20

pub propose_admin-NeverPanics :
    (rt : Runtime) (ctx : ProposeAdmin) (k : Pubkey) (w : World)
    → NeverPanics (propose_admin rt ctx k w)
unfolding propose_admin
propose_admin-NeverPanics rt ctx k w = search calm_rules depth 20

pub accept_admin-NeverPanics :
    (rt : Runtime) (ctx : AcceptAdmin) (w : World) → NeverPanics (accept_admin rt ctx w)
unfolding accept_admin
accept_admin-NeverPanics rt ctx w = search calm_rules depth 20

pub cancel_admin-NeverPanics :
    (rt : Runtime) (ctx : CancelAdminTransfer) (w : World)
    → NeverPanics (cancel_admin_transfer rt ctx w)
unfolding cancel_admin_transfer
cancel_admin-NeverPanics rt ctx w = search calm_rules depth 20
