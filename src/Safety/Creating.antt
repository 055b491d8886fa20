-- ===== src/Safety/Creating.antt =====
-- Panics in `create_wager`: the slice of the allowlist and the two subtractions of times.
use shake_escrow.Base.{
  ◌≡◌, refl, Bool, true, false, Bool-cases, inl, inr, none, some, Option, ok, Error, panic, arith,
  ensure, ok_or, anchor, account_not_initialized, ◌&&◌,
}
use shake_escrow.Base.Int.{ℤ, pos, ◌≤ℤ◌, ◌-ℤ◌, leb_ℤ, ltb_ℤ, -ℤ_parts}
use shake_escrow.Base.Words.{i64_max, sub_i64}
use shake_escrow.State.{Pubkey, Config, resolver_allowed}
use shake_escrow.Runtime.{Runtime, TokenAccount}
use shake_escrow.World.{World}
use shake_escrow.Configuration.{IsValidConfig}
use shake_escrow.Safety.{IsOrdinary}
use shake_escrow.Safety.Rules.{
  NeverPanics, NeverPanics-ok, NeverPanics-some, NeverPanics-eq_ok, NeverPanics-bind, calm_rules,
}
use shake_escrow.Instructions.CreateWager.{
  CreateWager, CreateWagerArgs, create_wager, init_vault, check_create, windows_fit,
}
use shake_escrow.Safety.Administration.{ensure_free-NeverPanics, loaded}

init_vault-NeverPanics :
    (rt : Runtime) (vault mint wager : Pubkey) (o : Option TokenAccount) (w : World)
    → NeverPanics (init_vault rt vault mint wager o w)
unfolding init_vault
init_vault-NeverPanics rt vault mint wager none w = search calm_rules depth 20
init_vault-NeverPanics rt vault mint wager (some a) w = search calm_rules depth 20

resolver_allowed-NeverPanics :
    (c : Config) (k : Pubkey) → IsValidConfig c → NeverPanics (resolver_allowed c k)
unfolding resolver_allowed
resolver_allowed-NeverPanics c k v =
    NeverPanics-bind _ _ (NeverPanics-some _ panic v.listed v.sliced) (λ l e. NeverPanics-ok _)

-- Two times in order, the first of which is not negative, differ by an i64.
passed : (b : Bool) (e : Error) {u : Unit {0}} → ensure b e ≡ ok u → b ≡ true
passed true e h = refl
passed false e h = cc

sub_i64-NeverPanics : (a b : ℤ) → pos 0 ≤ℤ b → b ≤ℤ a → a ≤ℤ i64_max → NeverPanics (sub_i64 a b)
unfolding sub_i64 leb_ℤ
sub_i64-NeverPanics a b positive order fits =
    NeverPanics-eq_ok _ (a -ℤ b) (ground (arith, -ℤ_parts a b))

windows_fit-NeverPanics :
    (now deadline_fund deadline_resolve max_window : ℤ)
    → pos 0 ≤ℤ now
    → deadline_fund ≤ℤ i64_max
    → deadline_resolve ≤ℤ i64_max
    → (ltb_ℤ now deadline_fund && ltb_ℤ deadline_fund deadline_resolve) ≡ true
    → NeverPanics (windows_fit now deadline_fund deadline_resolve max_window)
unfolding windows_fit ltb_ℤ
windows_fit-NeverPanics now fund resolve window positive fits fits' ordered =
    let first : now ≤ℤ fund = ground arith in
    let second : fund ≤ℤ resolve = ground arith in
    let later : pos 0 ≤ℤ fund = omega arith in
    NeverPanics-bind _ _ (sub_i64-NeverPanics fund now positive first fits) λ d e.
      elim (Bool-cases (leb_ℤ d window)) [
        | inl yes_fits ↦ rw yes_fits (
            NeverPanics-bind _ _ (sub_i64-NeverPanics resolve fund later second fits')
              (λ d' e'. NeverPanics-ok _))
        | inr no_fit ↦ rw no_fit (NeverPanics-ok _)
      ]

check_create-NeverPanics :
    (c : Config) (args : CreateWagerArgs) (now : ℤ)
    → IsValidConfig c
    → pos 0 ≤ℤ now
    → args.deadline_fund ≤ℤ i64_max
    → args.deadline_resolve ≤ℤ i64_max
    → NeverPanics (check_create c args now)
unfolding check_create
check_create-NeverPanics c args now v positive fits fits' =
    let allowed = (resolver_allowed-NeverPanics c args.resolver v).calm in
    let windows =
      λ (e : (ltb_ℤ now args.deadline_fund && ltb_ℤ args.deadline_fund args.deadline_resolve)
          ≡ true).
        (windows_fit-NeverPanics now args.deadline_fund args.deadline_resolve c.max_window positive
          fits fits' e).calm in
    record { calm = λ h. ground (arith, allowed, windows) }

pub create_wager-NeverPanics :
    (rt : Runtime) (ctx : CreateWager) (args : CreateWagerArgs) (w : World)
    → IsOrdinary w
    → args.deadline_fund ≤ℤ i64_max
    → args.deadline_resolve ≤ℤ i64_max
    → NeverPanics (create_wager rt ctx args w)
unfolding create_wager
create_wager-NeverPanics rt ctx args w ordinary fits fits' =
    let create = λ (c : Config) (found : ok_or w.config (anchor account_not_initialized) ≡ ok c).
      check_create-NeverPanics c args w.clock (ordinary.config_valid c (loaded w.config c found))
        ordinary.clock_positive fits fits' in
    search (calm_rules, ensure_free-NeverPanics, init_vault-NeverPanics, create) depth 40
