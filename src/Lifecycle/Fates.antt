-- ===== src/Lifecycle/Fates.antt =====
-- The fate of every live wager under every instruction.
use shake_escrow.Base.{
  ◌≡◌, ◌≢◌, refl, sym, ap, ◌∙◌, none-ne-some, some, ok, ◌==◌, ==_iff, arith, Bool-cases, inl, inr,
}
use shake_escrow.Base.Dict.{
  Dict, lookup, insert, erase, IsKeyed, lookup-insert, lookup-erase_self, lookup-erase_ne,
  erase-insert, lookup_unique,
}
use shake_escrow.State.{Pubkey, Wager}
use shake_escrow.Runtime.{Runtime}
use shake_escrow.Runtime.Laws.{TokenLaws}
use shake_escrow.World.{World}
use shake_escrow.Program.{Instruction, process}
use shake_escrow.Lifecycle.{SameDeal, Edge, stay, Fate, lives, gone, MayGo}
use shake_escrow.Lifecycle.Deals.{
  SameDeal-refl, fund-SameDeal, fund-Edge, unfund-SameDeal, unfund-Edge, mark-SameDeal, mark-Edge,
  proposal-SameDeal,
}
use shake_escrow.Instructions.InitializeConfig.Effect.{initialize_config-ok}
use shake_escrow.Instructions.UpdateConfig.Effect.{update_config-ok}
use shake_escrow.Instructions.AdminTransfers.Effect.{
  propose_admin-ok, accept_admin-ok, cancel_admin_transfer-ok,
}
use shake_escrow.Instructions.CreateWager.Effect.{create_wager-ok}
use shake_escrow.Instructions.StakeSide.Effect.{stake_side-ok}
use shake_escrow.Instructions.UnstakeSide.Effect.{unstake_side-ok}
use shake_escrow.Instructions.RefundSide.Effect.{refund_side-ok}
use shake_escrow.Instructions.Resolve.Effect.{Parties, Settled, resolve_parties, resolve-ok}
use shake_escrow.Instructions.Concede.Effect.{concede_parties, concede-ok}
use shake_escrow.Instructions.Cancel.Effect.{cancel_propose-ok, cancel_clear-ok, cancel_accept-ok}
use shake_escrow.Instructions.CloseExpired.Effect.{close_expired-ok}

abbrev wagers_of : World → Dict Wager
wagers_of w = w.wagers

module _ (w w' : World) (keyed : IsKeyed w.wagers) (k : Pubkey) (g : Wager)
    (at : lookup k w.wagers ≡ some g) where
  unchanged : w'.wagers ≡ w.wagers → Fate w w' k g
  unchanged same = lives g (rw same at) (SameDeal-refl g) stay

  rewritten :
      (j : Pubkey) (h h' : Wager)
      → lookup j w.wagers ≡ some h
      → w'.wagers ≡ insert j h' w.wagers
      → SameDeal h h'
      → Edge h.state h'.state
      → Fate w w' k g
  rewritten j h h' found written deal edge = elim (Bool-cases (k == j)) [
    | inl here ↦
        let e = (==_iff k j).0 here in
        let same : h ≡ g = lookup_unique j k w.wagers (sym e) found at in
        lives h' (rw written (lookup-insert k j h' w.wagers ∙ rw here refl)) (rw same at deal)
          (rw same at edge)
    | inr other ↦
        lives g (rw written (lookup-insert k j h' w.wagers ∙ rw other at)) (SameDeal-refl g) stay
  ]

  removed :
      (j : Pubkey) (h : Wager)
      → lookup j w.wagers ≡ some h
      → w'.wagers ≡ erase j w.wagers
      → MayGo h w.clock
      → Fate w w' k g
  removed j h found written may = elim (Bool-cases (k == j)) [
    | inl here ↦
        let e = (==_iff k j).0 here in
        let same : h ≡ g = lookup_unique j k w.wagers (sym e) found at in
        gone (rw (written, e) (lookup-erase_self j w.wagers keyed)) (rw same at may)
    | inr other ↦
        let ne : k ≢ j = ground arith in
        lives g (rw written (lookup-erase_ne k j w.wagers ne ∙ at)) (SameDeal-refl g) stay
  ]

  Settled-Fate : (rt : Runtime) (p : Parties) → Settled rt p w w' → Fate w w' k g
  Settled-Fate rt p s =
      removed p.wager s.wager s.wager_at.found
        (ap wagers_of s.result ∙ erase-insert p.wager _ w.wagers) (inl (s.is_active, s.in_time))

-- A live wager survives a successful instruction with its deal unchanged, in its state or newly
-- locked; or its account goes, which happens only to a locked wager before its resolve deadline, or
-- when the close is due and every funded side has left.
-- It is stated under the laws of the token program, and for wagers whose addresses
-- stand once.
pub process-Fate :
    (rt : Runtime)
    → TokenLaws rt
    → (ix : Instruction) (w : World) {w' : World} (k : Pubkey) (g : Wager) → IsKeyed w.wagers
    → lookup k w.wagers ≡ some g
    → process rt ix w ≡ ok w'
    → Fate w w' k g
unfolding process
process-Fate rt laws (Instruction.initialize_config ctx args) w {w'} k g keyed at h =
    let s = initialize_config-ok rt ctx args w h in
    unchanged w w' keyed k g at (ap wagers_of s.result)
process-Fate rt laws (Instruction.update_config ctx args) w {w'} k g keyed at h =
    let s = update_config-ok ctx args w h in unchanged w w' keyed k g at (ap wagers_of s.result)
process-Fate rt laws (Instruction.create_wager ctx args) w {w'} k g keyed at h =
    let s = create_wager-ok rt laws ctx args w h in
    elim (Bool-cases (k == ctx.wager)) [
      | inl here ↦
          let e = (==_iff k ctx.wager).0 here in
          absurd (none-ne-some (sym s.was_free ∙ (ap (λ j. lookup j w.wagers) (sym e) ∙ at)))
      | inr other ↦
          lives g
            (rw (s.result, s.opened.result) (lookup-insert k ctx.wager _ w.wagers ∙ rw other at))
            (SameDeal-refl g) stay
    ]
process-Fate rt laws (Instruction.stake_side ctx) w {w'} k g keyed at h =
    let s = stake_side-ok rt ctx w h in
    let is_a = ctx.staker == s.wager.side_a in
    rewritten w w' keyed k g at ctx.wager s.wager _ s.wager_at.found (ap wagers_of s.result)
      (fund-SameDeal s.wager is_a) (fund-Edge s.wager is_a s.allowed.is_funding)
process-Fate rt laws (Instruction.unstake_side ctx) w {w'} k g keyed at h =
    let s = unstake_side-ok rt laws ctx w h in
    let is_a = ctx.staker == s.wager.side_a in
    rewritten w w' keyed k g at ctx.wager s.wager _ s.wager_at.found (ap wagers_of s.result)
      (unfund-SameDeal s.wager is_a) (unfund-Edge s.wager is_a)
process-Fate rt laws (Instruction.propose_admin ctx new_admin) w {w'} k g keyed at h =
    let s = propose_admin-ok rt ctx new_admin w h in
    unchanged w w' keyed k g at (ap wagers_of s.result)
process-Fate rt laws (Instruction.accept_admin ctx) w {w'} k g keyed at h =
    let s = accept_admin-ok rt ctx w h in unchanged w w' keyed k g at (ap wagers_of s.result)
process-Fate rt laws (Instruction.cancel_admin_transfer ctx) w {w'} k g keyed at h =
    let s = cancel_admin_transfer-ok rt ctx w h in
    unchanged w w' keyed k g at (ap wagers_of s.result)
process-Fate rt laws (Instruction.resolve ctx winner) w {w'} k g keyed at h =
    Settled-Fate w w' keyed k g at rt (resolve_parties ctx) (resolve-ok rt laws ctx winner w h).0
process-Fate rt laws (Instruction.concede ctx) w {w'} k g keyed at h =
    Settled-Fate w w' keyed k g at rt (concede_parties ctx) (concede-ok rt laws ctx w h).0
process-Fate rt laws (Instruction.refund_side ctx) w {w'} k g keyed at h =
    let s = refund_side-ok rt laws ctx w h in
    let is_a = ctx.side == s.wager.side_a in
    rewritten w w' keyed k g at ctx.wager s.wager _ s.wager_at.found (ap wagers_of s.result)
      (mark-SameDeal s.wager is_a) (mark-Edge s.wager is_a)
process-Fate rt laws (Instruction.cancel_propose ctx) w {w'} k g keyed at h =
    let s = cancel_propose-ok rt ctx w h in
    rewritten w w' keyed k g at ctx.wager s.wager _ s.wager_at.found (ap wagers_of s.result)
      (proposal-SameDeal s.wager ctx.participant) stay
process-Fate rt laws (Instruction.cancel_clear ctx) w {w'} k g keyed at h =
    let s = cancel_clear-ok rt ctx w h in
    rewritten w w' keyed k g at ctx.wager s.wager _ s.wager_at.found (ap wagers_of s.result)
      (proposal-SameDeal s.wager 0) stay
process-Fate rt laws (Instruction.cancel_accept ctx) w {w'} k g keyed at h =
    let s = cancel_accept-ok rt laws ctx w h in
    removed w w' keyed k g at ctx.wager s.wager s.wager_at.found
      (ap wagers_of s.result ∙ erase-insert ctx.wager _ w.wagers)
      (inl (s.allowed.is_active, s.allowed.in_time))
process-Fate rt laws (Instruction.close_expired ctx) w {w'} k g keyed at h =
    let s = close_expired-ok rt laws ctx w h in
    removed w w' keyed k g at ctx.wager s.wager s.wager_at.found (ap wagers_of s.result)
      (inr (s.due, s.exited))
