-- ===== src/Shadow/Coverage.antt =====
-- The subtractions of the shadow model of trident-tests/fuzz_0/test_fuzz.rs, which would overflow below
-- zero: what each flow takes from the model's numbers.
use shake_escrow.Base.{◌*◌, ◌≤◌, ◌≡◌, Bool, ◌&&◌, leb, true, some, none, arith}
use shake_escrow.Base.Dict.{lookup}
use shake_escrow.State.{Pubkey, Wager, active}
use shake_escrow.Runtime.{Runtime}
use shake_escrow.Runtime.Laws.{TokenLaws}
use shake_escrow.World.{World}
use shake_escrow.Custody.{IsSound, IsCustodied, locked, exposure, le-sum_of}
use shake_escrow.Base.Int.{leb_ℤ}
use shake_escrow.Custody.Sides.{
  unrefunded, active_early, funding_early, locked-active, exposure-active, locked-unfund,
  exposure-unfund, locked-mark, exposure-mark,
}
use shake_escrow.Instructions.StakeSide.Effect.{Staked}
use shake_escrow.Instructions.UnstakeSide.{UnstakeSide}
use shake_escrow.Instructions.UnstakeSide.Effect.{Unstaked}
use shake_escrow.Instructions.RefundSide.{RefundSide}
use shake_escrow.Instructions.RefundSide.Effect.{Refunded}
use shake_escrow.Instructions.Resolve.Effect.{Parties, Settled}
use shake_escrow.Instructions.Cancel.{CancelAccept}
use shake_escrow.Instructions.Cancel.Effect.{Accepted}
use shake_escrow.Shadow.Settling.{split_pot-fee_of}
use shake_escrow.Shadow.{MWager, Shadow}
use shake_escrow.Shadow.Flows.{fee_of, actor_of, lower}
use shake_escrow.Shadow.Sending.{Fixture, Flow, stake_accounts}
use shake_escrow.Shadow.Coupling.{IsActor, IsLive, Coupled, wager_of}

-- What one stake on its way back takes, what a settlement takes, and what its fee takes.
abbrev pub covers_stake : Shadow → MWager → Pubkey → Bool
covers_stake m g x = leb 1 (m.counters x) && leb g.stake m.total_open

abbrev pub covers_pot : Shadow → MWager → Bool
covers_pot m g =
    leb 1 (m.counters g.sa)
    && leb 1 (lower 1 g.sa m.counters g.sb)
    && leb (g.stake * 2) m.total_open

abbrev pub covers_fee : MWager → Bool
covers_fee g = leb (fee_of (g.stake * 2) g.fee_bps) (g.stake * 2)

abbrev pub on_wager_of : Pubkey → Shadow → (MWager → Bool) → Bool
on_wager_of k m test = elim (lookup k m.wagers) [ none ↦ true | some g ↦ test g ]

-- No subtraction of the flow goes below zero.
abbrev pub covers : Shadow → Flow → Bool
covers m (Flow.stake_side k actor) = on_wager_of k m λ g. leb g.stake (m.balances actor)
covers m (Flow.unstake_side k actor) = on_wager_of k m λ g. covers_stake m g actor
covers m (Flow.resolve k winner) = on_wager_of k m λ g. covers_pot m g && covers_fee g
covers m (Flow.concede k actor names_self) = on_wager_of k m λ g. covers_pot m g && covers_fee g
covers m (Flow.refund_side k s cranker) = on_wager_of k m λ g. covers_stake m g (actor_of g s)
covers m (Flow.cancel_accept k actor) = on_wager_of k m λ g. covers_pot m g
covers m _ = true

module _ (rt : Runtime) (fx : Fixture) (w : World) (m : Shadow) (k : Pubkey) (g : MWager)
    (sound : IsSound rt w) (co : Coupled rt fx w m) (l : IsLive rt fx w k g) where
  abbrev old : Wager
  old = wager_of rt fx g l.nonce l.bump

  custody : IsCustodied rt w.tokens w.clock k old
  custody = sound.custodied k old l.found

  -- A wager's part in the books is at most the whole.
  exposed : (x : Pubkey) → exposure x old ≤ m.counters x
  exposed x =
      omega (arith, le-sum_of (exposure x) k old w.wagers l.found, sound.counted x, co.counters x)

  owed : locked old ≤ m.total_open
  owed =
      let booked = rw co.config_at at sound.booked in
      omega (arith, le-sum_of locked k old w.wagers l.found, booked, co.configured.total_open)

  -- A locked wager before its deadline.
  pot_covered : old.state ≡ active → leb_ℤ w.clock g.d_resolve ≡ true → covers_pot m g ≡ true
  pot_covered is_locked in_time =
      let fresh =
        unrefunded old w.clock custody.timely (active_early old w.clock is_locked in_time) in
      ground (
        arith,
        custody.well_formed.sides_apart,
        locked-active old custody.well_formed is_locked fresh,
        owed,
        exposure-active old custody.well_formed is_locked fresh g.sa,
        exposure-active old custody.well_formed is_locked fresh g.sb,
        exposed g.sa,
        exposed g.sb,
      )

  pub Settled-covered :
      {p : Parties} {w' : World}
      → p.wager ≡ k
      → Settled rt p w w'
      → (covers_pot m g && covers_fee g) ≡ true
  Settled-covered at_k s =
      let same : s.wager ≡ old = cc (s.wager_at.found, l.found, at_k) in
      let pot = pot_covered (rw same at s.is_active) (rw same at s.in_time) in
      let (fee, payout, whole) =
        split_pot-fee_of g.stake g.fee_bps s.payout s.fee (rw same at s.split) in
      ground (arith, pot, fee, whole)

  pub Accepted-covered :
      {ctx : CancelAccept} {w' : World}
      → ctx.wager ≡ k
      → Accepted rt ctx w w'
      → covers_pot m g ≡ true
  Accepted-covered at_k s =
      let same : s.wager ≡ old = cc (s.wager_at.found, l.found, at_k) in
      pot_covered (rw same at s.allowed.is_active) (rw same at s.allowed.in_time)

  pub Unstaked-covered :
      {ctx : UnstakeSide} {w' : World}
      → ctx.wager ≡ k
      → Unstaked rt ctx w w'
      → covers_stake m g ctx.staker ≡ true
  Unstaked-covered {ctx} at_k s =
      let same : s.wager ≡ old = cc (s.wager_at.found, l.found, at_k) in
      let allowed = rw same at s.allowed in
      let fresh =
        unrefunded old w.clock custody.timely
          (funding_early old w.clock allowed.is_funding allowed.in_time) in
      ground (
        arith,
        exposed ctx.staker,
        owed,
        locked-unfund old ctx.staker custody.well_formed allowed.participant allowed.is_funding
            fresh allowed.staked,
        exposure-unfund old ctx.staker custody.well_formed allowed.participant allowed.is_funding
            fresh allowed.staked ctx.staker,
      )

  pub Refunded-covered :
      {ctx : RefundSide} {w' : World}
      → ctx.wager ≡ k
      → Refunded rt ctx w w'
      → covers_stake m g ctx.side ≡ true
  Refunded-covered {ctx} at_k s =
      let same : s.wager ≡ old = cc (s.wager_at.found, l.found, at_k) in
      let allowed = rw same at s.allowed in
      ground (
        arith,
        exposed ctx.side,
        owed,
        locked-mark old ctx.side custody.well_formed allowed.participant allowed.staked
            allowed.not_out,
        exposure-mark old ctx.side custody.well_formed allowed.participant allowed.staked
            allowed.not_out ctx.side,
      )

  pub Staked-covered :
      {x : Pubkey} {w' : World}
      → TokenLaws rt
      → IsActor rt fx x
      → Staked rt (stake_accounts rt fx k x) w w'
      → leb g.stake (m.balances x) ≡ true
  Staked-covered {x} tokens actor s =
      let same : s.wager ≡ old = cc (s.wager_at.found, l.found) in
      let paid = tokens.transfer_moves _ _ _ _ _ _ (rw same at s.paid) in
      ground (arith, paid.0, co.balances x actor)
