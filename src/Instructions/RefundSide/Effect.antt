-- ===== src/Instructions/RefundSide/Effect.antt =====
-- What a successful `refund_side` read and wrote.
use shake_escrow.Base.{
  ◌≤◌, ◌≡◌, true, false, some, ◌==◌, ok, arith, on_ok, on_some, ok-injective, sym, if◌then◌else◌,
}
use shake_escrow.Base.Int.{ℤ}
use shake_escrow.State.{Pubkey, Config, Wager, is_participant, ExposureCounter}
use shake_escrow.Runtime.{Runtime, TokenAccount}
use shake_escrow.Runtime.Laws.{TokenLaws, balance, moved}
use shake_escrow.World.{World}
use shake_escrow.World.Loads.{WagerAt, CounterAt, AssociatedAt, on_wager, on_counter, on_associated}
use shake_escrow.Instructions.Payout.Effect.{on_moved}
use shake_escrow.Instructions.RefundSide.{
  RefundSide, refund_side, handle_refund_side, check_refund, write_refund, refund_due,
}

pub record MayRefund (side : Pubkey) (g : Wager) (now : ℤ) : Type 0 where
  pub due : refund_due g.state now g.deadline_fund g.deadline_resolve ≡ true
  pub participant : is_participant g side ≡ true
  pub staked : (if side == g.side_a then g.funded_a else g.funded_b) ≡ true
  pub not_out : (if side == g.side_a then g.refunded_a else g.refunded_b) ≡ false

pub check_refund-ok :
    (side : Pubkey) (g : Wager) (now : ℤ) {u : Unit {0}}
    → check_refund side g now ≡ ok u
    → MayRefund side g now
unfolding check_refund
check_refund-ok side g now h = ground arith

pub record Refunded (rt : Runtime) (ctx : RefundSide) (w w' : World) : Type 0 where
  pub config : Config
  pub wager : Wager
  pub counter : ExposureCounter
  pub target : TokenAccount
  pub vault : TokenAccount
  pub config_at : w.config ≡ some config
  pub wager_at : WagerAt rt ctx.wager w wager
  pub target_at : AssociatedAt rt ctx.side_token wager.mint ctx.side w target
  pub counter_at : CounterAt rt ctx.counter ctx.side w counter
  pub vault_at : AssociatedAt rt ctx.vault wager.mint ctx.wager w vault
  pub allowed : MayRefund ctx.side wager w.clock
  pub covered : wager.stake ≤ balance w.tokens ctx.vault
  pub result :
      w'
      ≡ write_refund ctx config wager counter
          (record w { tokens = moved ctx.vault ctx.side_token wager.stake w.tokens })

pub refund_side-ok :
    (rt : Runtime)
    → TokenLaws rt
    → (ctx : RefundSide) (w : World) {w' : World} → refund_side rt ctx w ≡ ok w'
    → Refunded rt ctx w w'
unfolding refund_side handle_refund_side
refund_side-ok rt laws ctx w h = on_some w.config _ h λ c config_at h₁.
    on_wager rt ctx.wager w h₁ λ g wager_at h₂.
      on_associated rt ctx.side_token g.mint ctx.side w h₂ λ target target_at h₃.
        on_counter rt ctx.counter ctx.side w h₃ λ k counter_at h₄.
          on_associated rt ctx.vault g.mint ctx.wager w h₄ λ vault vault_at h₅.
            on_ok (check_refund ctx.side g w.clock) h₅ λ u checked h₆.
              on_moved rt laws ctx.vault ctx.side_token ctx.wager g.stake w _ h₆ λ covered last.
                record {
                  config = c;
                  wager = g;
                  counter = k;
                  target = target;
                  vault = vault;
                  config_at = config_at;
                  wager_at = wager_at;
                  target_at = target_at;
                  counter_at = counter_at;
                  vault_at = vault_at;
                  allowed = check_refund-ok ctx.side g w.clock checked;
                  covered = covered;
                  result = sym (ok-injective last);
                }
