-- ===== src/Instructions/UnstakeSide/Effect.antt =====
-- What a successful `unstake_side` read and wrote.
use shake_escrow.Base.{
  ◌≤◌, ◌≡◌, true, ◌||◌, some, ◌==◌, ok, arith, on_ok, on_some, ok-injective, sym, if◌then◌else◌,
}
use shake_escrow.Base.Int.{leb_ℤ}
use shake_escrow.State.{Pubkey, Config, Wager, funding, ExposureCounter}
use shake_escrow.Runtime.{Runtime, TokenAccount}
use shake_escrow.Runtime.Laws.{TokenLaws, balance, moved}
use shake_escrow.World.{World}
use shake_escrow.World.Loads.{WagerAt, CounterAt, AssociatedAt, on_wager, on_counter, on_associated}
use shake_escrow.Instructions.Payout.Effect.{on_moved}
use shake_escrow.Instructions.UnstakeSide.{
  UnstakeSide, unstake_side, handle_unstake_side, check_unstake, write_unstake,
}

pub record MayUnstake (staker : Pubkey) (g : Wager) (w : World) : Type 0 where
  pub is_funding : g.state ≡ funding
  pub in_time : leb_ℤ w.clock g.deadline_fund ≡ true
  pub participant : (staker == g.side_a || staker == g.side_b) ≡ true
  pub staked : (if staker == g.side_a then g.funded_a else g.funded_b) ≡ true

check_unstake-ok :
    (staker : Pubkey) (g : Wager) (w : World) {u : Unit {0}}
    → check_unstake staker g w ≡ ok u
    → MayUnstake staker g w
unfolding check_unstake
check_unstake-ok staker g w h = ground arith

pub record Unstaked (rt : Runtime) (ctx : UnstakeSide) (w w' : World) : Type 0 where
  pub config : Config
  pub wager : Wager
  pub counter : ExposureCounter
  pub target : TokenAccount
  pub vault : TokenAccount
  pub config_at : w.config ≡ some config
  pub wager_at : WagerAt rt ctx.wager w wager
  pub counter_at : CounterAt rt ctx.counter ctx.staker w counter
  pub target_at : AssociatedAt rt ctx.staker_token wager.mint ctx.staker w target
  pub vault_at : AssociatedAt rt ctx.vault wager.mint ctx.wager w vault
  pub allowed : MayUnstake ctx.staker wager w
  pub covered : wager.stake ≤ balance w.tokens ctx.vault
  pub result :
      w'
      ≡ write_unstake ctx config wager counter
          (record w { tokens = moved ctx.vault ctx.staker_token wager.stake w.tokens })

pub unstake_side-ok :
    (rt : Runtime)
    → TokenLaws rt
    → (ctx : UnstakeSide) (w : World) {w' : World} → unstake_side rt ctx w ≡ ok w'
    → Unstaked rt ctx w w'
unfolding unstake_side handle_unstake_side
unstake_side-ok rt laws ctx w h = on_some w.config _ h λ c config_at h₁.
    on_wager rt ctx.wager w h₁ λ g wager_at h₂.
      on_counter rt ctx.counter ctx.staker w h₂ λ k counter_at h₃.
        on_associated rt ctx.staker_token g.mint ctx.staker w h₃ λ target target_at h₄.
          on_associated rt ctx.vault g.mint ctx.wager w h₄ λ vault vault_at h₅.
            on_ok (check_unstake ctx.staker g w) h₅ λ u checked h₆.
              on_moved rt laws ctx.vault ctx.staker_token ctx.wager g.stake w _ h₆ λ covered last.
                record {
                  config = c;
                  wager = g;
                  counter = k;
                  target = target;
                  vault = vault;
                  config_at = config_at;
                  wager_at = wager_at;
                  counter_at = counter_at;
                  target_at = target_at;
                  vault_at = vault_at;
                  allowed = check_unstake-ok ctx.staker g w checked;
                  covered = covered;
                  result = sym (ok-injective last);
                }
