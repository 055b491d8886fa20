-- ===== src/Custody/Exits.antt =====
-- The books under `unstake_side` and `refund_side`, where one side's stake leaves the vault.
use shake_escrow.Base.{◌+◌, ◌-◌, ◌≡◌, Bool, true, some, ◌==◌, ok, arith, refl}
use shake_escrow.Base.Int.{ℤ}
use shake_escrow.Base.Words.{saturating_sub}
use shake_escrow.Base.Dict.{insert, update}
use shake_escrow.State.{Pubkey, Config, Wager, ExposureCounter}
use shake_escrow.Events.{Event}
use shake_escrow.Runtime.{Runtime}
use shake_escrow.Runtime.Laws.{AddressLaws, TokenLaws, moved}
use shake_escrow.World.{World, emit}
use shake_escrow.World.Loads.{WagerAt, CounterAt}
use shake_escrow.Custody.{
  IsSound, IsCustodied, IsWellFormed, IsTimely, locked, exposure, worth, count_at, le-sum_of,
}
use shake_escrow.Custody.Ledger.{IsBacked-moved, IsBacked-sent}
use shake_escrow.Custody.Frames.{Frame, IsSound-replace}
use shake_escrow.Custody.Counters.{
  counter_address, count_of-update, update-IsCanonical, CounterAt-canonical,
}
use shake_escrow.Custody.Sides.{
  unrefunded, funding_early, locked-unfund, exposure-unfund, unfund-IsWellFormed, locked-mark,
  exposure-mark, mark-IsWellFormed,
}
use shake_escrow.Custody.Staking.{SameTerms}
use shake_escrow.Instructions.UnstakeSide.{UnstakeSide, unstake_side, unfund, release}
use shake_escrow.Instructions.UnstakeSide.Effect.{unstake_side-ok}
use shake_escrow.Instructions.RefundSide.{RefundSide, refund_side, mark_refunded, refund_due}
use shake_escrow.Instructions.RefundSide.Effect.{refund_side-ok}

-- A wallet's counter that is found holds the wallet's exposure.
pub counter_count :
    (rt : Runtime)
    → AddressLaws rt
    → (w : World) → IsSound rt w
    → (k x : Pubkey) (c : ExposureCounter) → CounterAt rt k x w c
    → count_at rt w x ≡ c.count
counter_count rt addresses w sound k x c at =
    let here = CounterAt-canonical rt addresses w sound k x c at in rw (← here, at.found)

-- One side of the wager at `k` leaves with its stake.
module _ (rt : Runtime) (addresses : AddressLaws rt) (w : World) (sound : IsSound rt w)
    (k counter vault to side : Pubkey) (c : Config) (g g' : Wager) (kc : ExposureCounter)
    (event : Event) (config_at : w.config ≡ some c) (wager_at : WagerAt rt k w g)
    (counter_at : CounterAt rt counter side w kc)
    (vault_address : rt.associated_address g.mint k ≡ vault) (terms : SameTerms g g')
    (well_formed : IsWellFormed g') (timely : IsTimely w.clock g')
    (owed : locked g' + g.stake ≡ locked g)
    (exposed : (x : Pubkey) → exposure x g' + worth (side == x) 1 ≡ exposure x g) where
  abbrev left_world : World
  left_world = emit event (record w {
    tokens = moved vault to g.stake w.tokens;
    config = some (record c { total_open_value = saturating_sub c.total_open_value g.stake });
    counters = update w.counters counter (some (release kc));
    wagers = insert k g' w.wagers;
  })

  held : IsCustodied rt w.tokens w.clock k g
  held = sound.custodied k g wager_at.found

  home : counter ≡ counter_address rt side
  home = CounterAt-canonical rt addresses w sound counter side kc counter_at

  counted_less : (x : Pubkey) → count_at rt left_world x ≡ count_at rt w x - worth (side == x) 1
  counted_less x =
      let count = counter_count rt addresses w sound counter side kc counter_at in
      rw home
        (rw (count_of-update rt addresses w.counters side x (release kc)) (ground (arith, count)))

  leave-Frame : Frame rt (rt.associated_address g.mint k) w left_world
  leave-Frame = record {
    same_clock = refl;
    same_mint = rw config_at refl;
    bounded = let top = rw config_at at sound.bounded in omega (arith, top);
    stays_configured = λ e. cc;
    spared = λ u o n ne cannot b.
        IsBacked-moved w.tokens o vault to u g.stake n (λ e. ne (rw vault_address e)) b;
    canonical = rw home (update-IsCanonical rt w.counters side _ sound.canonical);
  }

  left-IsCustodied : IsCustodied rt left_world.tokens w.clock k g'
  left-IsCustodied =
      let (mint, side_a, nonce, bump) = terms in
      record {
        address = rw (side_a, nonce, bump) held.address;
        well_formed = well_formed;
        timely = timely;
        backed =
            rw (mint, ← vault_address)
              (IsBacked-sent w.tokens k (rt.associated_address g.mint k) to g.stake (locked g')
                (rw owed held.backed));
      }

  pub left-IsSound : IsSound rt left_world
  left-IsSound =
      IsSound-replace rt addresses w left_world sound k g g' wager_at.found leave-Frame refl terms.0
        left-IsCustodied
        (let booked : c.total_open_value ≡ _ = rw config_at at sound.booked in
          rw config_at (omega (arith, owed, booked, le-sum_of locked k g w.wagers wager_at.found)))
        (λ x. omega (
          arith,
          counted_less x,
          exposed x,
          sound.counted x,
          le-sum_of (exposure x) k g w.wagers wager_at.found,
        ))

unfund-SameTerms : (g : Wager) (is_a : Bool) → SameTerms g (unfund is_a g)
unfund-SameTerms g is_a = ground arith

mark-SameTerms : (g : Wager) (is_a : Bool) → SameTerms g (mark_refunded is_a g)
mark-SameTerms g is_a = ground arith

unfund-IsTimely :
    (g : Wager) (is_a : Bool) (now : ℤ) → IsTimely now g → IsTimely now (unfund is_a g)
unfund-IsTimely g is_a now h = ground (arith, h)

mark-IsTimely :
    (g : Wager) (is_a : Bool) (now : ℤ)
    → refund_due g.state now g.deadline_fund g.deadline_resolve ≡ true
    → IsTimely now (mark_refunded is_a g)
mark-IsTimely g is_a now due = ground arith

module _ (rt : Runtime) (tokens : TokenLaws rt) (addresses : AddressLaws rt) where
  -- `unstake_side` keeps the system sound.
  pub unstake_side-IsSound :
      (ctx : UnstakeSide) (w : World) {w' : World}
      → IsSound rt w
      → unstake_side rt ctx w ≡ ok w'
      → IsSound rt w'
  unstake_side-IsSound ctx w sound h =
      let s = unstake_side-ok rt tokens ctx w h in
      let g = s.wager in
      let a = s.allowed in
      let is_a = ctx.staker == g.side_a in
      let held = sound.custodied ctx.wager g s.wager_at.found in
      let fresh =
        unrefunded g w.clock held.timely (funding_early g w.clock a.is_funding a.in_time) in
      rw s.result (
        left-IsSound rt addresses w sound ctx.wager ctx.counter ctx.vault ctx.staker_token
          ctx.staker s.config g (unfund is_a g) s.counter _ s.config_at s.wager_at s.counter_at
          s.vault_at.address (unfund-SameTerms g is_a)
          (unfund-IsWellFormed g ctx.staker held.well_formed a.participant a.is_funding fresh
            a.staked)
          (unfund-IsTimely g is_a w.clock held.timely)
          (locked-unfund g ctx.staker held.well_formed a.participant a.is_funding fresh a.staked)
          (exposure-unfund g ctx.staker held.well_formed a.participant a.is_funding fresh a.staked))

  -- `refund_side` keeps the system sound.
  pub refund_side-IsSound :
      (ctx : RefundSide) (w : World) {w' : World}
      → IsSound rt w
      → refund_side rt ctx w ≡ ok w'
      → IsSound rt w'
  refund_side-IsSound ctx w sound h =
      let s = refund_side-ok rt tokens ctx w h in
      let g = s.wager in
      let a = s.allowed in
      let is_a = ctx.side == g.side_a in
      let held = sound.custodied ctx.wager g s.wager_at.found in
      rw s.result (
        left-IsSound rt addresses w sound ctx.wager ctx.counter ctx.vault ctx.side_token ctx.side
          s.config g (mark_refunded is_a g) s.counter _ s.config_at s.wager_at s.counter_at
          s.vault_at.address (mark-SameTerms g is_a)
          (mark-IsWellFormed g ctx.side held.well_formed a.participant a.staked a.not_out)
          (mark-IsTimely g is_a w.clock a.due)
          (locked-mark g ctx.side held.well_formed a.participant a.staked a.not_out)
          (exposure-mark g ctx.side held.well_formed a.participant a.staked a.not_out))
