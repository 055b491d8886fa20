-- ===== src/Shadow/Exiting.antt =====
-- `flow_unstake` and `flow_refund` of trident-tests/fuzz_0/test_fuzz.rs against the program's
-- `unstake_side` and `refund_side`: one stake goes back from the vault.
use shake_escrow.Base.{
  ℕ, ◌+◌, ◌≡◌, ◌≢◌, ◌||◌, true, false, some, ◌==◌, arith, sym, ap, ◌∙◌, refl, if◌then◌else◌,
}
use shake_escrow.Base.Int.{ℤ}
use shake_escrow.Base.Dict.{lookup}
use shake_escrow.State.{Pubkey, Wager}
use shake_escrow.Runtime.{Runtime}
use shake_escrow.Runtime.Laws.{AddressLaws}
use shake_escrow.World.{World}
use shake_escrow.Custody.{IsSound, count_of}
use shake_escrow.Custody.Sides.{unrefunded, funding_early}
use shake_escrow.Instructions.UnstakeSide.{unfund}
use shake_escrow.Instructions.UnstakeSide.Effect.{MayUnstake, Unstaked}
use shake_escrow.Instructions.RefundSide.{mark_refunded}
use shake_escrow.Instructions.RefundSide.Effect.{MayRefund, Refunded}
use shake_escrow.Shadow.{
  Side, side_0, side_1, MWager, Shadow, side_of, vault_expected, funded, refunded,
}
use shake_escrow.Shadow.Flows.{
  may_unstake, on_side, set_funded, set_refunded, due, actor_of, flow_unstake, flow_refund,
}
use shake_escrow.Shadow.Circulation.{IsDistinct}
use shake_escrow.Shadow.Sending.{Fixture, unstake_accounts, refund_accounts}
use shake_escrow.Shadow.Coupling.{IsActor, IsLive, Coupled, wager_of, Follows}
use shake_escrow.Shadow.Returning.{left-Follows}

module _ (rt : Runtime) (fx : Fixture) where
  wager_of-unfund :
      (g : MWager) (x : Pubkey) (nonce bump : ℕ)
      → (x == g.sa || x == g.sb) ≡ true
      → unfund (x == g.sa) (wager_of rt fx g nonce bump)
        ≡ wager_of rt fx (on_side (side_of g x) (set_funded false) g) nonce bump
  wager_of-unfund g x nonce bump member = ground arith

  vault-unfund :
      (g : MWager) (x : Pubkey)
      → (x == g.sa || x == g.sb) ≡ true
      → (g.refunded_0 ≡ false) × (g.refunded_1 ≡ false)
      → (if x == g.sa then g.funded_0 else g.funded_1) ≡ true
      → vault_expected (on_side (side_of g x) (set_funded false) g) + g.stake ≡ vault_expected g
  vault-unfund g x member fresh staked = ground arith

  unfund_kept :
      (g : MWager) (x : Pubkey)
      → let new = on_side (side_of g x) (set_funded false) g in
        (new.sa ≡ g.sa) × (new.sb ≡ g.sb) × (new.closed ≡ g.closed) × (new.proposal ≡ g.proposal)
  unfund_kept g x = ground arith

  unstake_decided :
      (g : MWager) (x : Pubkey) (nonce bump : ℕ) (w : World)
      → g.closed ≡ false
      → MayUnstake x (wager_of rt fx g nonce bump) w
      → may_unstake g x w.clock ≡ true
  unstake_decided g x nonce bump w is_open s =
      ground (arith, s.is_funding, s.in_time, s.participant, s.staked)

  module _ (addresses : AddressLaws rt) (agent_signs : rt.can_sign fx.agent ≡ true) (w w' : World)
      (m : Shadow) (k x : Pubkey) (g : MWager) (sound : IsSound rt w) (co : Coupled rt fx w m)
      (actor : IsActor rt fx x) (l : IsLive rt fx w k g) (distinct : IsDistinct fx.actors)
      (known : lookup k m.wagers ≡ some g) where
    abbrev old : Wager
    old = wager_of rt fx g l.nonce l.bump

    pub unstake-Follows :
        Unstaked rt (unstake_accounts rt fx k x) w w'
        → Follows rt fx w' m (flow_unstake k x w.clock m g)
    unfolding flow_unstake
    unstake-Follows s =
        let same : s.wager ≡ old = cc (s.wager_at.found, l.found) in
        let same_config : s.config ≡ co.config = cc (s.config_at, co.config_at) in
        let allowed : MayUnstake x old w = rw same at s.allowed in
        let fresh =
          unrefunded old w.clock (sound.custodied k old l.found).timely
            (funding_early old w.clock allowed.is_funding allowed.in_time) in
        let count : s.counter.count ≡ m.counters x =
          ap count_of (sym s.counter_at.found) ∙ co.counters x in
        rw (s.result, same, same_config, wager_of-unfund g x l.nonce l.bump allowed.participant)
          (left-Follows rt fx addresses agent_signs w m k x g co actor l distinct known
            (addresses.off_curve _ _ _ s.wager_at.address) _ s.counter _ s.target s.vault
            s.target_at.found s.vault_at.found count (unfund_kept g x)
            (vault-unfund g x allowed.participant fresh allowed.staked) _
            (unstake_decided g x l.nonce l.bump w l.is_open allowed))

  side-IsActor :
      (g : MWager) (s : Side)
      → IsActor rt fx g.sa
      → IsActor rt fx g.sb
      → IsActor rt fx (actor_of g s)
  side-IsActor g side_0 a b = a
  side-IsActor g side_1 a b = b

  -- A side by its index is the side by its key.
  module _ (g : MWager) (nonce bump : ℕ) (apart : g.sa ≢ g.sb) where
    wager_of-mark :
        (s : Side)
        → mark_refunded (actor_of g s == g.sa) (wager_of rt fx g nonce bump)
          ≡ wager_of rt fx (set_refunded s g) nonce bump
    wager_of-mark side_0 = ground arith
    wager_of-mark side_1 = ground arith

    vault-mark :
        (s : Side)
        → funded g s ≡ true
        → refunded g s ≡ false
        → vault_expected (set_refunded s g) + g.stake ≡ vault_expected g
    vault-mark side_0 staked inside = ground arith
    vault-mark side_1 staked inside = ground arith

    mark_kept :
        (s : Side)
        → let new = set_refunded s g in
          (new.sa ≡ g.sa) × (new.sb ≡ g.sb) × (new.closed ≡ g.closed) × (new.proposal ≡ g.proposal)
    mark_kept side_0 = (refl, refl, refl, refl)
    mark_kept side_1 = (refl, refl, refl, refl)

    refund_allows :
        (s : Side) (now : ℤ)
        → MayRefund (actor_of g s) (wager_of rt fx g nonce bump) now
        → (due g now ≡ true) × (funded g s ≡ true) × (refunded g s ≡ false)
    refund_allows side_0 now r = ground (arith, r.due, r.staked, r.not_out)
    refund_allows side_1 now r = ground (arith, r.due, r.staked, r.not_out)

  module _ (addresses : AddressLaws rt) (agent_signs : rt.can_sign fx.agent ≡ true) (w w' : World)
      (m : Shadow) (k cranker : Pubkey) (s : Side) (g : MWager) (sound : IsSound rt w)
      (co : Coupled rt fx w m) (l : IsLive rt fx w k g) (distinct : IsDistinct fx.actors)
      (known : lookup k m.wagers ≡ some g) where
    pub refund-Follows :
        Refunded rt (refund_accounts rt fx k g s cranker) w w'
        → Follows rt fx w' m (flow_refund k s w.clock m g)
    unfolding flow_refund
    refund-Follows r =
        let old = wager_of rt fx g l.nonce l.bump in
        let same : r.wager ≡ old = cc (r.wager_at.found, l.found) in
        let same_config : r.config ≡ co.config = cc (r.config_at, co.config_at) in
        let apart : g.sa ≢ g.sb = (sound.custodied k old l.found).well_formed.sides_apart in
        let (is_due, staked, inside) =
          refund_allows g l.nonce l.bump apart s w.clock (rw same at r.allowed) in
        let x = actor_of g s in
        let count : r.counter.count ≡ m.counters x =
          ap count_of (sym r.counter_at.found) ∙ co.counters x in
        rw (r.result, same, same_config, wager_of-mark g l.nonce l.bump apart s)
          (left-Follows rt fx addresses agent_signs w m k x g co
            (side-IsActor g s l.side_0_actor l.side_1_actor) l distinct known
            (addresses.off_curve _ _ _ r.wager_at.address) _ r.counter _ r.target r.vault
            r.target_at.found r.vault_at.found count (mark_kept g l.nonce l.bump apart s)
            (vault-mark g l.nonce l.bump apart s staked inside) _
            (ground (arith, l.is_open, is_due, staked, inside)))
