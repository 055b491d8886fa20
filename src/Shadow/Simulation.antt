-- ===== src/Shadow/Simulation.antt =====
-- The program against the shadow model of trident-tests/fuzz_0/test_fuzz.rs, flow by flow.
use shake_escrow.Base.{◌≡◌, true, some, none, Option, ok, refl, Option-cases, inl, inr}
use shake_escrow.Base.Dict.{lookup}
use shake_escrow.State.{Pubkey}
use shake_escrow.Runtime.{Runtime}
use shake_escrow.Runtime.Laws.{TokenLaws, AddressLaws}
use shake_escrow.World.{World}
use shake_escrow.Program.{Instruction, process}
use shake_escrow.Custody.{IsSound}
use shake_escrow.Instructions.CreateWager.Effect.{create_wager-ok}
use shake_escrow.Instructions.StakeSide.Effect.{stake_side-ok}
use shake_escrow.Instructions.UnstakeSide.Effect.{unstake_side-ok}
use shake_escrow.Instructions.Resolve.Effect.{resolve-ok}
use shake_escrow.Instructions.Concede.Effect.{concede-ok}
use shake_escrow.Instructions.RefundSide.Effect.{refund_side-ok}
use shake_escrow.Instructions.Cancel.Effect.{cancel_propose-ok, cancel_clear-ok, cancel_accept-ok}
use shake_escrow.Instructions.CloseExpired.Effect.{close_expired-ok}
use shake_escrow.Instructions.UpdateConfig.Effect.{update_config-ok}
use shake_escrow.Shadow.{MWager, Shadow}
use shake_escrow.Shadow.Circulation.{IsDistinct}
use shake_escrow.Shadow.Sending.{Fixture, Flow, chosen, wager_pda, sent, expect, concede_accounts}
use shake_escrow.Shadow.Coupling.{IsActor, Coupled, Follows}
use shake_escrow.Shadow.Frames.{IsLive-at}
use shake_escrow.Shadow.Staking.{stake-Follows}
use shake_escrow.Shadow.Exiting.{unstake-Follows, refund-Follows}
use shake_escrow.Shadow.Settling.{resolve-Follows, concede-Follows}
use shake_escrow.Shadow.Cancelling.{propose-Follows, clear-Follows}
use shake_escrow.Shadow.Accepting.{accept-Follows}
use shake_escrow.Shadow.Closing.{close-Follows}
use shake_escrow.Shadow.Opening.{create-Follows, update-Follows}

module _ (rt : Runtime) (fx : Fixture) where
  -- What the harness sees to: its wallets stake, between its wallets wagers are created, and no nonce
  -- comes twice.
  abbrev pub IsPlayable : Shadow → Flow → Type 0
  IsPlayable m (Flow.create_wager sa sb nonce stake d_fund d_resolve) =
      IsActor rt fx sa × IsActor rt fx sb × (lookup (wager_pda rt fx sa nonce) m.wagers ≡ none)
  IsPlayable m (Flow.stake_side k actor) = IsActor rt fx actor
  IsPlayable m (Flow.unstake_side k actor) = IsActor rt fx actor
  IsPlayable m _ = Unit

  on_chosen :
      (m : Shadow) (w' : World) (k : Pubkey) (go : MWager → Option Instruction) (ix : Instruction)
      (want : MWager → Option Shadow)
      → chosen k m go ≡ some ix
      → ((g : MWager) → lookup k m.wagers ≡ some g → go g ≡ some ix → Follows rt fx w' m (want g))
      → Follows rt fx w' m (chosen k m want)
  on_chosen m w' k go ix want h then = elim (Option-cases (lookup k m.wagers)) [
    | inl e ↦ cc (rw (e, chosen) at h)
    | inr (g, e) ↦ rw (e, chosen) (then g e (rw (e, chosen) at h))
  ]

  pub some-as {ℓ} : {A : Type ℓ} {a b : A} → some a ≡ some b → b ≡ a
  some-as e = cc

  module _ (tokens : TokenLaws rt) (addresses : AddressLaws rt)
      (agent_signs : rt.can_sign fx.agent ≡ true) (distinct : IsDistinct fx.actors) where
    -- An instruction of a flow that the program accepts is one that the shadow model expects to succeed,
    -- the model's next state agrees with the chain's, and as many tokens circulate in it as before. This
    -- is for a sound chain that agrees with the model, a flow that the harness can play, different
    -- actors, an agent's key that signs, and under the laws of the token program and of program
    -- addresses.
    pub process-Follows :
        (f : Flow) (ix : Instruction) (w w' : World) (m : Shadow)
        → IsSound rt w
        → Coupled rt fx w m
        → IsPlayable m f
        → sent rt fx m f ≡ some ix
        → process rt ix w ≡ ok w'
        → Follows rt fx w' m (expect rt fx f w.clock m)
    unfolding process
    process-Follows (Flow.create_wager sa sb nonce stake d_fund d_resolve) ix w w' m sound co play e
          h =
        create-Follows rt fx addresses agent_signs w w' m sa sb nonce stake d_fund d_resolve co
          play.0 play.1 play.2 (create_wager-ok rt tokens _ _ w (rw (some-as e) at h))
    process-Follows (Flow.stake_side k actor) ix w w' m sound co play e h =
        on_chosen m w' k _ ix _ e λ g known e'.
          let s = stake_side-ok rt _ w (rw (some-as e') at h) in
          stake-Follows rt fx tokens addresses agent_signs w w' m k actor g sound co play
            (IsLive-at rt fx addresses w m k g co known s.wager_at) distinct known s
    process-Follows (Flow.unstake_side k actor) ix w w' m sound co play e h =
        on_chosen m w' k _ ix _ e λ g known e'.
          let s = unstake_side-ok rt tokens _ w (rw (some-as e') at h) in
          unstake-Follows rt fx addresses agent_signs w w' m k actor g sound co play
            (IsLive-at rt fx addresses w m k g co known s.wager_at) distinct known s
    process-Follows (Flow.resolve k winner) ix w w' m sound co play e h =
        on_chosen m w' k _ ix _ e λ g known e'.
          let s = (resolve-ok rt tokens _ winner w (rw (some-as e') at h)).0 in
          resolve-Follows rt fx addresses agent_signs w w' m k winner g sound co
            (IsLive-at rt fx addresses w m k g co known s.wager_at) distinct known s
    process-Follows (Flow.concede k actor names_self) ix w w' m sound co play e h =
        on_chosen m w' k _ ix _ e λ g known e'.
          let (s, conceder, named, event) =
            concede-ok rt tokens (concede_accounts rt fx k g actor names_self) w
              (rw (some-as e') at h) in
          concede-Follows rt fx addresses agent_signs w w' m k _ g sound co
            (IsLive-at rt fx addresses w m k g co known s.wager_at) distinct known s actor
            names_self refl conceder named
    process-Follows (Flow.refund_side k side cranker) ix w w' m sound co play e h =
        on_chosen m w' k _ ix _ e λ g known e'.
          let s = refund_side-ok rt tokens _ w (rw (some-as e') at h) in
          refund-Follows rt fx addresses agent_signs w w' m k cranker side g sound co
            (IsLive-at rt fx addresses w m k g co known s.wager_at) distinct known s
    process-Follows (Flow.close_expired k cranker) ix w w' m sound co play e h =
        on_chosen m w' k _ ix _ e λ g known e'.
          let s = close_expired-ok rt tokens _ w (rw (some-as e') at h) in
          close-Follows rt fx addresses agent_signs w w' m k cranker g sound co
            (IsLive-at rt fx addresses w m k g co known s.wager_at) distinct known s
    process-Follows (Flow.cancel_propose k actor) ix w w' m sound co play e h =
        on_chosen m w' k _ ix _ e λ g known e'.
          let s = cancel_propose-ok rt _ w (rw (some-as e') at h) in
          propose-Follows rt fx w m k g co (IsLive-at rt fx addresses w m k g co known s.wager_at)
            distinct known actor w' s
    process-Follows (Flow.cancel_clear k actor) ix w w' m sound co play e h =
        on_chosen m w' k _ ix _ e λ g known e'.
          let s = cancel_clear-ok rt _ w (rw (some-as e') at h) in
          clear-Follows rt fx w m k g co (IsLive-at rt fx addresses w m k g co known s.wager_at)
            distinct known actor w' s
    process-Follows (Flow.cancel_accept k actor) ix w w' m sound co play e h =
        on_chosen m w' k _ ix _ e λ g known e'.
          let s = cancel_accept-ok rt tokens _ w (rw (some-as e') at h) in
          accept-Follows rt fx addresses agent_signs w w' m k actor g sound co
            (IsLive-at rt fx addresses w m k g co known s.wager_at) distinct known s
    process-Follows (Flow.update_fee new_fee) ix w w' m sound co play e h =
        update-Follows rt fx w w' m new_fee co (update_config-ok _ _ w (rw (some-as e) at h))
