-- ===== src/Lifecycle/Windows.antt =====
-- The deadlines: what may happen to one wager before them and after them.
use shake_escrow.Base.{◌≡◌, ok, ap, refl}
use shake_escrow.Base.Int.{ℤ}
use shake_escrow.Base.Dict.{lookup_unique}
use shake_escrow.State.{Pubkey, WagerState, funding, active, resolved, cancelled}
use shake_escrow.Runtime.{Runtime}
use shake_escrow.Runtime.Laws.{TokenLaws}
use shake_escrow.World.{World}
use shake_escrow.Custody.Sides.{active_early}
use shake_escrow.Instructions.Resolve.{Resolve, resolve}
use shake_escrow.Instructions.Resolve.Effect.{resolve-ok}
use shake_escrow.Instructions.RefundSide.{RefundSide, refund_side, refund_due}
use shake_escrow.Instructions.RefundSide.Effect.{refund_side-ok}
use shake_escrow.Instructions.CloseExpired.{CloseExpired, close_expired, close_due}
use shake_escrow.Instructions.CloseExpired.Effect.{close_expired-ok}

pub close_due-eq-refund_due :
    (s : WagerState) (now deadline_fund deadline_resolve : ℤ)
    → close_due s now deadline_fund deadline_resolve
      ≡ refund_due s now deadline_fund deadline_resolve
close_due-eq-refund_due funding now deadline_fund deadline_resolve = refl
close_due-eq-refund_due active now deadline_fund deadline_resolve = refl
close_due-eq-refund_due resolved now deadline_fund deadline_resolve = refl
close_due-eq-refund_due cancelled now deadline_fund deadline_resolve = refl

-- While a wager can be resolved, neither a refund nor a close of it succeeds.
-- It is stated under the laws of the token program.
pub resolve_excludes_exits :
    (rt : Runtime)
    → TokenLaws rt
    → (ctx : Resolve) (winner : Pubkey) (refund : RefundSide) (close : CloseExpired) (w : World)
      {w₁ w₂ w₃ : World}
    → refund.wager ≡ ctx.wager
    → close.wager ≡ ctx.wager
    → resolve rt ctx winner w ≡ ok w₁
    → (¬ (refund_side rt refund w ≡ ok w₂)) × (¬ (close_expired rt close w ≡ ok w₃))
resolve_excludes_exits rt laws ctx winner refund close w same same' h =
    let s = (resolve-ok rt laws ctx winner w h).0 in
    let g = s.wager in
    let early = active_early g w.clock s.is_active s.in_time in
    (
      λ r.
          let t = refund_side-ok rt laws refund w r in
          let e : t.wager ≡ g =
            lookup_unique refund.wager ctx.wager w.wagers same t.wager_at.found s.wager_at.found in
          cc (
            early,
            ap (λ x. refund_due x.state w.clock x.deadline_fund x.deadline_resolve) e,
            t.allowed.due,
          ),
      λ r.
          let t = close_expired-ok rt laws close w r in
          let e : t.wager ≡ g =
            lookup_unique close.wager ctx.wager w.wagers same' t.wager_at.found s.wager_at.found in
          cc (
            early,
            ap (λ x. refund_due x.state w.clock x.deadline_fund x.deadline_resolve) e,
            t.due,
            close_due-eq-refund_due t.wager.state w.clock t.wager.deadline_fund
                t.wager.deadline_resolve,
          ),
    )
