-- ===== src/Instructions/CreateWager/Effect.antt =====
-- What a successful `create_wager` read and wrote.
use shake_escrow.Base.{
  ◌≤◌, ◌≡◌, ◌≢◌, true, false, Option, none, some, ok, ◌==◌, arith, on_ok, on_pass, on_some,
  ok-injective, sym, ==_iff, refl,
}
use shake_escrow.Base.Int.{ℤ, ltb_ℤ}
use shake_escrow.Base.Dict.{lookup, insert}
use shake_escrow.State.{Pubkey, default_key, Config, resolver_allowed}
use shake_escrow.Events.{wager_created}
use shake_escrow.Runtime.{Runtime, TokenAccount, Tokens}
use shake_escrow.Runtime.Addresses.{wager_seeds}
use shake_escrow.Runtime.Laws.{TokenLaws, fresh_account}
use shake_escrow.World.{World, emit}
use shake_escrow.Instructions.InitializeConfig.{ensure_free}
use shake_escrow.Instructions.CreateWager.{
  CreateWager, CreateWagerArgs, create_wager, check_create, windows_fit, new_wager, init_vault,
}

-- What the handler checked.
pub record MayCreate (c : Config) (args : CreateWagerArgs) (now : ℤ) : Type 0 where
  pub not_paused : c.paused ≡ false
  pub stake_in_range : (c.min_stake ≤ args.stake) × (args.stake ≤ c.max_stake)
  pub resolver_listed : resolver_allowed c args.resolver ≡ ok true
  pub resolver_apart : (args.resolver ≢ args.side_a) × (args.resolver ≢ args.side_b)
  pub sides_real : (args.side_a ≢ default_key) × (args.side_b ≢ default_key)
  pub sides_apart : args.side_a ≢ args.side_b
  pub deadlines_ordered :
      (ltb_ℤ now args.deadline_fund ≡ true)
      × (ltb_ℤ args.deadline_fund args.deadline_resolve ≡ true)
  pub windows : windows_fit now args.deadline_fund args.deadline_resolve c.max_window ≡ ok true
  pub terms : args.terms_hash ≢ 0

pub check_create-ok :
    (c : Config) (args : CreateWagerArgs) (now : ℤ) {u : Unit {0}}
    → check_create c args now ≡ ok u
    → MayCreate c args now
unfolding check_create
check_create-ok c args now h = ground arith

-- The vault's account after `init_if_needed`.
abbrev pub vault_or_new : Pubkey → Pubkey → Option TokenAccount → TokenAccount
vault_or_new mint owner none = fresh_account mint owner
vault_or_new mint owner (some a) = a

pub record Opened (rt : Runtime) (vault mint wager : Pubkey) (o : Option TokenAccount)
    (w w₁ : World) : Type 0 where
  pub address : rt.associated_address mint wager ≡ vault
  pub owned : (vault_or_new mint wager o).owner ≡ wager
  pub tokens : Tokens
  pub vault_at : tokens vault ≡ some (vault_or_new mint wager o)
  pub others : (k : Pubkey) → k ≢ vault → tokens k ≡ w.tokens k
  pub result : w₁ ≡ record w { tokens = tokens }

init_vault-ok :
    (rt : Runtime)
    → TokenLaws rt
    → (vault mint wager : Pubkey) (o : Option TokenAccount) (w : World) {w₁ : World}
    → w.tokens vault ≡ o
    → init_vault rt vault mint wager o w ≡ ok w₁
    → Opened rt vault mint wager o w w₁
unfolding init_vault
init_vault-ok rt laws vault mint wager none w e h =
    on_pass (rt.associated_address mint wager == vault) _ h λ address h₁.
      on_some (rt.create_associated mint wager w.tokens) _ h₁ λ t opened last.
        let same = (==_iff _ _).0 address in
        let made = laws.create_opens mint wager w.tokens t opened in
        record {
          address = same;
          owned = refl;
          tokens = t;
          vault_at = rw (made, same) (ground arith);
          others = λ k ne. rw (made, same) (ground arith);
          result = sym (ok-injective last);
        }
init_vault-ok rt laws vault mint wager (some a) w e h = on_pass (a.owner == wager) _ h λ owned h₁.
    on_pass (rt.associated_address mint wager == vault) _ h₁ λ address last. record {
      address = (==_iff _ _).0 address;
      owned = (==_iff _ _).0 owned;
      tokens = w.tokens;
      vault_at = e;
      others = λ k ne. refl;
      result = sym (ok-injective last);
    }

pub record Created (rt : Runtime) (ctx : CreateWager) (args : CreateWagerArgs) (w w' : World)
    : Type 0 where
  pub config : Config
  pub opened_world : World
  pub config_at : w.config ≡ some config
  pub address : (rt.find_program_address (wager_seeds args.side_a args.nonce)).0 ≡ ctx.wager
  pub was_free : lookup ctx.wager w.wagers ≡ none
  pub mint_pinned : ctx.mint ≡ config.mint
  pub opened : Opened rt ctx.vault ctx.mint ctx.wager (w.tokens ctx.vault) w opened_world
  pub allowed : MayCreate config args w.clock
  pub result :
      w'
      ≡ emit
          (wager_created ctx.wager args.side_a args.side_b args.stake config.mint args.resolver
            args.terms_hash args.deadline_fund args.deadline_resolve args.nonce)
          (record opened_world {
            wagers =
                insert ctx.wager
                  (new_wager config args
                    (rt.find_program_address (wager_seeds args.side_a args.nonce)).1)
                  opened_world.wagers;
          })

ensure_free-ok {ℓ} : {A : Type ℓ} (o : Option A) {u : Unit {0}} → ensure_free o ≡ ok u → o ≡ none
ensure_free-ok none h = refl
ensure_free-ok (some a) h = cc

pub create_wager-ok :
    (rt : Runtime)
    → TokenLaws rt
    → (ctx : CreateWager) (args : CreateWagerArgs) (w : World) {w' : World}
    → create_wager rt ctx args w ≡ ok w'
    → Created rt ctx args w w'
unfolding create_wager
create_wager-ok rt laws ctx args w h = on_some w.config _ h λ c config_at h₁.
    on_pass ((rt.find_program_address (wager_seeds args.side_a args.nonce)).0 == ctx.wager) _ h₁
      λ address h₂. on_ok (ensure_free (lookup ctx.wager w.wagers)) h₂ λ u was_free h₃.
        on_pass (ctx.mint == c.mint) _ h₃ λ mint_pinned h₄.
          on_ok (init_vault rt ctx.vault ctx.mint ctx.wager (w.tokens ctx.vault) w) h₄
            λ w₁ opened h₅. on_ok (check_create c args w.clock) h₅ λ v checked last. record {
              config = c;
              opened_world = w₁;
              config_at = config_at;
              address = (==_iff _ _).0 address;
              was_free = ensure_free-ok _ was_free;
              mint_pinned = (==_iff _ _).0 mint_pinned;
              opened =
                  init_vault-ok rt laws ctx.vault ctx.mint ctx.wager (w.tokens ctx.vault) w refl
                    opened;
              allowed = check_create-ok c args w.clock checked;
              result = sym (ok-injective last);
            }
