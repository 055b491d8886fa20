-- ===== src/Base/Results.antt =====
-- Results: what an instruction returns. The errors of the program (error.rs), those that Anchor's
-- account constraints raise, the failure of a token instruction, and a Rust panic.
use mathlib.Core.Path.{◌≡◌, refl}
use mathlib.Core.Bool.{Bool, true, false}
use mathlib.Core.Option.{Option, none, some}

-- error.rs, in the order of the source (Anchor numbers the codes by position).
pub data ShakeError : Type 0 where
  not_upgrade_authority fee_too_high bad_stake_bounds bad_resolver_list bad_window not_admin :
      ShakeError
  paused stake_too_small stake_too_large resolver_not_allowed resolver_is_participant : ShakeError
  self_wager open_side_not_allowed bad_deadlines window_too_long empty_terms_hash : ShakeError
  not_funding funding_closed already_funded not_a_participant wallet_cap_exceeded : ShakeError
  global_cap_exceeded side_not_funded : ShakeError
  not_active resolve_expired winner_not_participant not_resolver : ShakeError
  refund_not_due already_exited not_fully_exited close_not_due : ShakeError
  cancel_window_closed cancel_already_open cancel_not_open cannot_accept_own_proposal : ShakeError
  wrong_token_owner wrong_mint wrong_fee_destination wrong_rent_collector duplicate_accounts :
      ShakeError
  math_overflow default_address : ShakeError
  bad_exposure_caps bad_new_admin not_proposed_admin not_counterparty : ShakeError

-- The errors of Anchor's own constraints that the account structs can meet.
pub data AnchorError : Type 0 where
  account_not_initialized account_in_use constraint_seeds constraint_token_owner : AnchorError
  constraint_associated constraint_address constraint_close : AnchorError

pub data Error : Type 0 where
  shake : ShakeError → Error
  anchor : AnchorError → Error
  token_error : Error
  panic : Error

-- `Result<T>` of anchor_lang.
pub data Result {ℓ} (T : Type ℓ) : Type ℓ where
  err : Error → Result T
  ok : T → Result T

-- `?` hands the value of a success to the rest; where there is no value to use, the rest follows.
infixl 5 ◌>>◌ ◌>>=◌
abbrev pub ◌>>=◌ {ℓ μ} : {T : Type ℓ} {U : Type μ} → Result T → (T → Result U) → Result U
err failure >>= rest = err failure
ok value >>= rest = rest value

abbrev pub ◌>>◌ {μ} : {U : Type μ} → Result (Unit {0}) → Result U → Result U
step >> rest = step >>= λ done. rest

abbrev pub ensure : Bool → Error → Result (Unit {0})
ensure true e = ok tt
ensure false e = err e

-- `require!(test, error)`
abbrev pub require : Bool → ShakeError → Result (Unit {0})
require b e = ensure b (shake e)

-- `.ok_or(error)?`
abbrev pub ok_or {ℓ} : {A : Type ℓ} → Option A → Error → Result A
ok_or none e = err e
ok_or (some a) e = ok a

-- Inversion of a successful bind or guard, handed to a continuation, so that what was computed
-- is a variable there.
pub on_ok {ℓ κ μ} :
    {A : Type ℓ} {B : Type κ} {C : Type μ} (m : Result A) {f : A → Result B} {b : B}
    → (m >>= f) ≡ ok b
    → ((a : A) → m ≡ ok a → f a ≡ ok b → C)
    → C
on_ok (ok a) h k = k a refl h
on_ok (err e) h k = cc

pub on_pass {ℓ μ} :
    {B : Type ℓ} {C : Type μ} (c : Bool) (e : Error) {r : Result B} {b : B}
    → (ensure c e >> r) ≡ ok b
    → (c ≡ true → r ≡ ok b → C)
    → C
on_pass true e h k = k refl h
on_pass false e h k = cc

pub on_some {ℓ κ μ} :
    {A : Type ℓ} {B : Type κ} {C : Type μ} (o : Option A) (e : Error) {f : A → Result B} {b : B}
    → (ok_or o e >>= f) ≡ ok b
    → ((a : A) → o ≡ some a → f a ≡ ok b → C)
    → C
on_some none e h k = cc
on_some (some a) e h k = k a refl h

pub ok-injective {ℓ} : {A : Type ℓ} {a b : A} → ok a ≡ ok b → a ≡ b
ok-injective h = cc

-- A successful first step gives its value to the rest.
pub then_ok {ℓ κ} :
    {A : Type ℓ} {B : Type κ} {m : Result A} {a : A} (f : A → Result B) {r : Result B}
    → m ≡ ok a
    → f a ≡ r
    → (m >>= f) ≡ r
then_ok f e h = rw e h
