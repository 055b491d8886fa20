-- ===== src/Shadow/Overflow.antt =====
-- The subtractions of the shadow model of trident-tests/fuzz_0/test_fuzz.rs, flow by flow.
use shake_escrow.Base.{◌≡◌, true, some, Bool, Option, ok, refl, Option-cases, inl, inr}
use shake_escrow.Base.Dict.{lookup}
use shake_escrow.State.{Pubkey}
use shake_escrow.Runtime.{Runtime}
use shake_escrow.Runtime.Laws.{TokenLaws, AddressLaws}
use shake_escrow.World.{World}
use shake_escrow.Program.{Instruction, process}
use shake_escrow.Custody.{IsSound}
use shake_escrow.Instructions.UnstakeSide.Effect.{unstake_side-ok}
use shake_escrow.Instructions.Resolve.Effect.{resolve-ok}
use shake_escrow.Instructions.Concede.Effect.{concede-ok}
use shake_escrow.Instructions.RefundSide.Effect.{refund_side-ok}
use shake_escrow.Instructions.StakeSide.Effect.{stake_side-ok}
use shake_escrow.Instructions.Cancel.Effect.{cancel_accept-ok}
use shake_escrow.Shadow.{MWager, Shadow}
use shake_escrow.Shadow.Sending.{Fixture, Flow, chosen, sent}
use shake_escrow.Shadow.Coupling.{Coupled}
use shake_escrow.Shadow.Frames.{IsLive-at}
use shake_escrow.Shadow.Coverage.{
  on_wager_of, covers, Staked-covered, Settled-covered, Accepted-covered, Unstaked-covered,
  Refunded-covered,
}
use shake_escrow.Shadow.Simulation.{IsPlayable, some-as}

on_covered :
    (m : Shadow) (k : Pubkey) (go : MWager → Option Instruction) (ix : Instruction)
    (test : MWager → Bool)
    → chosen k m go ≡ some ix
    → ((g : MWager) → lookup k m.wagers ≡ some g → go g ≡ some ix → test g ≡ true)
    → on_wager_of k m test ≡ true
on_covered m k go ix test h then = elim (Option-cases (lookup k m.wagers)) [
  | inl e ↦ rw (e, on_wager_of) refl
  | inr (g, e) ↦ rw (e, on_wager_of) (then g e (rw (e, chosen) at h))
]

module _ (rt : Runtime) (fx : Fixture) (tokens : TokenLaws rt) (addresses : AddressLaws rt) where
  -- Where the program accepts a playable flow on a sound chain that agrees with the shadow model, no
  -- subtraction of the model goes below zero. It is stated under the laws of the token program and of
  -- program addresses.
  pub process-covers :
      (f : Flow) (ix : Instruction) (w w' : World) (m : Shadow)
      → IsSound rt w
      → Coupled rt fx w m
      → IsPlayable rt fx m f
      → sent rt fx m f ≡ some ix
      → process rt ix w ≡ ok w'
      → covers m f ≡ true
  unfolding process
  process-covers (Flow.stake_side k actor) ix w w' m sound co play e h =
      on_covered m k _ ix _ e λ g known e'.
        let s = stake_side-ok rt _ w (rw (some-as rt fx e') at h) in
        Staked-covered rt fx w m k g sound co
          (IsLive-at rt fx addresses w m k g co known s.wager_at) tokens play s
  process-covers (Flow.unstake_side k actor) ix w w' m sound co play e h =
      on_covered m k _ ix _ e λ g known e'.
        let s = unstake_side-ok rt tokens _ w (rw (some-as rt fx e') at h) in
        Unstaked-covered rt fx w m k g sound co
          (IsLive-at rt fx addresses w m k g co known s.wager_at) refl s
  process-covers (Flow.resolve k winner) ix w w' m sound co play e h =
      on_covered m k _ ix _ e λ g known e'.
        let s = (resolve-ok rt tokens _ winner w (rw (some-as rt fx e') at h)).0 in
        Settled-covered rt fx w m k g sound co
          (IsLive-at rt fx addresses w m k g co known s.wager_at) refl s
  process-covers (Flow.concede k actor names_self) ix w w' m sound co play e h =
      on_covered m k _ ix _ e λ g known e'.
        let s = (concede-ok rt tokens _ w (rw (some-as rt fx e') at h)).0 in
        Settled-covered rt fx w m k g sound co
          (IsLive-at rt fx addresses w m k g co known s.wager_at) refl s
  process-covers (Flow.refund_side k side cranker) ix w w' m sound co play e h =
      on_covered m k _ ix _ e λ g known e'.
        let s = refund_side-ok rt tokens _ w (rw (some-as rt fx e') at h) in
        Refunded-covered rt fx w m k g sound co
          (IsLive-at rt fx addresses w m k g co known s.wager_at) refl s
  process-covers (Flow.cancel_accept k actor) ix w w' m sound co play e h =
      on_covered m k _ ix _ e λ g known e'.
        let s = cancel_accept-ok rt tokens _ w (rw (some-as rt fx e') at h) in
        Accepted-covered rt fx w m k g sound co
          (IsLive-at rt fx addresses w m k g co known s.wager_at) refl s
  process-covers (Flow.create_wager sa sb nonce stake d_fund d_resolve) ix w w' m sound co play e
        h =
      refl
  process-covers (Flow.close_expired k cranker) ix w w' m sound co play e h = refl
  process-covers (Flow.cancel_propose k actor) ix w w' m sound co play e h = refl
  process-covers (Flow.cancel_clear k actor) ix w w' m sound co play e h = refl
  process-covers (Flow.update_fee new_fee) ix w w' m sound co play e h = refl
