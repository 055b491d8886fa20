-- ===== src/Instructions/CreateWager.antt =====
-- programs/shake-escrow/src/instructions/create_wager.rs
pub mod Effect
use shake_escrow.Base.{
  ℕ, Bool, true, false, not, ◌&&◌, Option, none, some, leb, ◌==◌, Result, ok, err, ◌>>=◌, ◌>>◌,
  ensure, require, ok_or, anchor, token_error, account_in_use, constraint_seeds,
  constraint_token_owner, constraint_associated, paused, stake_too_small, stake_too_large,
  resolver_not_allowed, resolver_is_participant, open_side_not_allowed, self_wager, bad_deadlines,
  window_too_long, empty_terms_hash, wrong_mint,
}
use shake_escrow.Base.Int.{ℤ, ltb_ℤ, leb_ℤ}
use shake_escrow.Base.Words.{sub_i64}
use shake_escrow.Base.Dict.{lookup, insert}
use shake_escrow.State.{Pubkey, default_key, Config, resolver_allowed, Wager, funding}
use shake_escrow.Events.{wager_created}
use shake_escrow.Runtime.{Runtime, TokenAccount}
use shake_escrow.Runtime.Addresses.{wager_seeds}
use shake_escrow.World.{World, emit, load_config}
use shake_escrow.Instructions.InitializeConfig.{ensure_free}

pub record CreateWagerArgs : Type 0 where
  pub nonce : ℕ
  pub side_a : Pubkey
  pub side_b : Pubkey
  pub stake : ℕ
  pub terms_hash : ℕ
  pub deadline_fund : ℤ
  pub deadline_resolve : ℤ
  pub resolver : Pubkey

pub record CreateWager : Type 0 where
  pub payer : Pubkey
  pub wager : Pubkey
  pub mint : Pubkey
  pub vault : Pubkey

-- The two windows, each at most `max_window`. `&&` skips the second subtraction if the first fails.
unfoldable pub windows_fit : (now deadline_fund deadline_resolve max_window : ℤ) → Result Bool
windows_fit now deadline_fund deadline_resolve max_window = do
  fund_window ← sub_i64 deadline_fund now
  let second = do
    resolve_window ← sub_i64 deadline_resolve deadline_fund
    ok (leb_ℤ resolve_window max_window)
  elim (leb_ℤ fund_window max_window) [ true ↦ second | false ↦ ok false ]

-- The `require!`s of the handler, in its order.
unfoldable pub check_create : Config → CreateWagerArgs → ℤ → Result (Unit {0})
unfolding resolver_allowed
check_create c args now = do
  require (not c.paused) paused
  require (leb c.min_stake args.stake) stake_too_small
  require (leb args.stake c.max_stake) stake_too_large
  allowed ← resolver_allowed c args.resolver
  require allowed resolver_not_allowed
  require (not (args.resolver == args.side_a) && not (args.resolver == args.side_b))
      resolver_is_participant
  require (not (args.side_b == default_key)) open_side_not_allowed
  require (not (args.side_a == default_key)) open_side_not_allowed
  require (not (args.side_b == args.side_a)) self_wager
  require (ltb_ℤ now args.deadline_fund && ltb_ℤ args.deadline_fund args.deadline_resolve)
      bad_deadlines
  fit ← windows_fit now args.deadline_fund args.deadline_resolve c.max_window
  require fit window_too_long
  require (not (args.terms_hash == 0)) empty_terms_hash

-- The wager that the handler writes.
abbrev pub new_wager : Config → CreateWagerArgs → ℕ → Wager
new_wager c args bump = record {
  state = funding;
  side_a = args.side_a;
  side_b = args.side_b;
  stake = args.stake;
  mint = c.mint;
  funded_a = false;
  funded_b = false;
  refunded_a = false;
  refunded_b = false;
  resolver = args.resolver;
  terms_hash = args.terms_hash;
  deadline_fund = args.deadline_fund;
  deadline_resolve = args.deadline_resolve;
  fee_bps = c.fee_bps;
  fee_destination = c.fee_destination;
  rent_collector = c.rent_collector;
  nonce = args.nonce;
  cancel_proposed_by = default_key;
  bump = bump;
}

module _ (rt : Runtime) where
  -- `init_if_needed` on the vault: it is the wager's associated token account, opened now or before.
  unfoldable pub init_vault : Pubkey → Pubkey → Pubkey → Option TokenAccount → World → Result World
  init_vault vault mint wager none w = do
    ensure (rt.associated_address mint wager == vault) (anchor constraint_associated)
    t ← ok_or (rt.create_associated mint wager w.tokens) token_error
    ok (record w { tokens = t })
  init_vault vault mint wager (some a) w = do
    ensure (a.owner == wager) (anchor constraint_token_owner)
    ensure (rt.associated_address mint wager == vault) (anchor constraint_associated)
    ok w

  unfoldable pub create_wager : CreateWager → CreateWagerArgs → World → Result World
  unfolding init_vault
  create_wager ctx args w = do
    c ← load_config w
    let (address, bump) = rt.find_program_address (wager_seeds args.side_a args.nonce)
    ensure (address == ctx.wager) (anchor constraint_seeds)
    ensure_free (lookup ctx.wager w.wagers)
    require (ctx.mint == c.mint) wrong_mint
    w₁ ← init_vault ctx.vault ctx.mint ctx.wager (w.tokens ctx.vault) w
    check_create c args w.clock
    ok (
        emit
          (wager_created ctx.wager args.side_a args.side_b args.stake c.mint args.resolver
            args.terms_hash args.deadline_fund args.deadline_resolve args.nonce)
          (record w₁ { wagers = insert ctx.wager (new_wager c args bump) w₁.wagers }))
