-- ===== src/Custody/Steps.antt =====
-- The books under every instruction, and under what happens on the chain between instructions.
use shake_escrow.Base.{
  ◌≤◌, ◌≡◌, ◌∷◌, [], List, true, false, none, some, ok, arith, refl, inl, inr, ◌∙◌,
}
use shake_escrow.Base.Int.{ℤ, leb_ℤ, ltb_ℤ-trans_le}
use shake_escrow.State.{Pubkey, Wager}
use shake_escrow.Runtime.{Runtime, Tokens, TokenAccount}
use shake_escrow.Base.Dict.{lookup-nil}
use shake_escrow.Runtime.Laws.{AddressLaws, TokenLaws}
use shake_escrow.Instructions.RefundSide.{refund_due}
use shake_escrow.World.{World}
use shake_escrow.Custody.{IsSound, locked, exposure, sum_of-nil}
use shake_escrow.Custody.Frames.{IsSound-keep}
use shake_escrow.Custody.Staking.{stake_side-IsSound}
use shake_escrow.Custody.Exits.{unstake_side-IsSound, refund_side-IsSound}
use shake_escrow.Custody.Settlement.{
  resolve-IsSound, concede-IsSound, cancel_accept-IsSound, close_expired-IsSound,
}
use shake_escrow.Custody.Creation.{
  create_wager-IsSound, cancel_propose-IsSound, cancel_clear-IsSound,
}
use shake_escrow.Instructions.InitializeConfig.{
  InitializeConfig, InitializeConfigArgs, initialize_config,
}
use shake_escrow.Instructions.InitializeConfig.Effect.{initialize_config-ok}
use shake_escrow.Instructions.UpdateConfig.{UpdateConfig, UpdateConfigArgs, update_config}
use shake_escrow.Instructions.UpdateConfig.Effect.{update_config-ok, Relisted-fixed}
use shake_escrow.Instructions.AdminTransfers.{
  ProposeAdmin, AcceptAdmin, CancelAdminTransfer, propose_admin, accept_admin,
  cancel_admin_transfer,
}
use shake_escrow.Instructions.AdminTransfers.Effect.{
  propose_admin-ok, accept_admin-ok, cancel_admin_transfer-ok,
}
use shake_escrow.Program.{Instruction, process, signers}

-- Every key of a list can sign.
abbrev pub AllSign : Runtime → List Pubkey → Type 0
AllSign rt [] = Unit
AllSign rt (k ∷ ks) = (rt.can_sign k ≡ true) × AllSign rt ks

-- What others may do to the token accounts: one whose owner cannot sign stays, with its owner, and
-- loses nothing. (Anyone may add to it.)
abbrev pub IsOutside : Runtime → Tokens → Tokens → Type 0
IsOutside rt t t' =
    (u : Pubkey) (a : TokenAccount)
    → t u ≡ some a
    → rt.can_sign a.owner ≡ false
    → (a' : TokenAccount) × (t' u ≡ some a') × (a'.owner ≡ a.owner) × (a.amount ≤ a'.amount)

-- One step of the chain: an instruction that its signers signed and that succeeded, a change of the
-- token accounts by others, or the passing of time.
pub data Step (rt : Runtime) : World → World → Type 0 where
  instruction :
      {w w' : World} (ix : Instruction)
      → AllSign rt (signers ix)
      → process rt ix w ≡ ok w'
      → Step rt w w'
  outside : {w : World} (t : Tokens) → IsOutside rt w.tokens t → Step rt w (record w { tokens = t })
  tick : {w : World} (now : ℤ) → leb_ℤ w.clock now ≡ true → Step rt w (record w { clock = now })

pub data Reach (rt : Runtime) (w : World) : World → Type 0 where
  here : Reach rt w w
  next : {u v : World} → Reach rt w u → Step rt u v → Reach rt w v

-- A chain on which the program has not yet run.
pub record IsGenesis (w : World) : Type 0 where
  pub no_config : w.config ≡ none
  pub no_wagers : w.wagers ≡ []
  pub no_counters : (k : Pubkey) → w.counters k ≡ none

refund_due-later :
    (g : Wager) (now later : ℤ)
    → leb_ℤ now later ≡ true
    → refund_due g.state now g.deadline_fund g.deadline_resolve ≡ true
    → refund_due g.state later g.deadline_fund g.deadline_resolve ≡ true
refund_due-later g now later h due =
    ground
      (arith, ltb_ℤ-trans_le g.deadline_fund now later, ltb_ℤ-trans_le g.deadline_resolve now later)

module _ (rt : Runtime) (tokens : TokenLaws rt) (addresses : AddressLaws rt) where
  initialize_config-IsSound :
      (ctx : InitializeConfig) (args : InitializeConfigArgs) (w : World) {w' : World}
      → IsSound rt w
      → initialize_config rt ctx args w ≡ ok w'
      → IsSound rt w'
  initialize_config-IsSound ctx args w sound h =
      let s = initialize_config-ok rt ctx args w h in
      rw s.result (
        IsSound-keep rt w _ sound (λ e. cc) (inl s.was_free) (rw s.was_free refl) refl
          (λ u o n cannot b. b) (λ k g t. t) (λ k. refl) addresses)

  update_config-IsSound :
      (ctx : UpdateConfig) (args : UpdateConfigArgs) (w : World) {w' : World}
      → IsSound rt w
      → update_config ctx args w ≡ ok w'
      → IsSound rt w'
  update_config-IsSound ctx args w sound h =
      let s = update_config-ok ctx args w h in
      let (admin, mint, total, bump) = Relisted-fixed args.resolvers _ s.new s.relisted in
      rw s.result (
        IsSound-keep rt w _ sound (λ e. cc) (inr (rw s.old_at mint)) (rw s.old_at total) refl
          (λ u o n cannot b. b) (λ k g t. t) (λ k. refl) addresses)

  propose_admin-IsSound :
      (ctx : ProposeAdmin) (new_admin : Pubkey) (w : World) {w' : World}
      → IsSound rt w
      → propose_admin rt ctx new_admin w ≡ ok w'
      → IsSound rt w'
  propose_admin-IsSound ctx new_admin w sound h =
      let s = propose_admin-ok rt ctx new_admin w h in
      rw s.result (
        IsSound-keep rt w _ sound (λ e. e) (inr refl) refl refl (λ u o n cannot b. b) (λ k g t. t)
          (λ k. refl) addresses)

  accept_admin-IsSound :
      (ctx : AcceptAdmin) (w : World) {w' : World}
      → IsSound rt w
      → accept_admin rt ctx w ≡ ok w'
      → IsSound rt w'
  accept_admin-IsSound ctx w sound h =
      let s = accept_admin-ok rt ctx w h in
      rw s.result (
        IsSound-keep rt w _ sound (λ e. cc) (inr (rw s.config_at refl)) (rw s.config_at refl) refl
          (λ u o n cannot b. b) (λ k g t. t) (λ k. refl) addresses)

  cancel_admin_transfer-IsSound :
      (ctx : CancelAdminTransfer) (w : World) {w' : World}
      → IsSound rt w
      → cancel_admin_transfer rt ctx w ≡ ok w'
      → IsSound rt w'
  cancel_admin_transfer-IsSound ctx w sound h =
      let s = cancel_admin_transfer-ok rt ctx w h in
      rw s.result (
        IsSound-keep rt w _ sound (λ e. e) (inr refl) refl refl (λ u o n cannot b. b) (λ k g t. t)
          (λ k. refl) addresses)

  -- Every successful instruction, signed by those whom it wants to sign, keeps the system sound.
  -- It is stated under the laws of the token program and of program addresses.
  pub process-IsSound :
      (ix : Instruction) (w : World) {w' : World}
      → AllSign rt (signers ix)
      → IsSound rt w
      → process rt ix w ≡ ok w'
      → IsSound rt w'
  unfolding process
  process-IsSound (Instruction.initialize_config ctx args) w signed sound h =
      initialize_config-IsSound ctx args w sound h
  process-IsSound (Instruction.update_config ctx args) w signed sound h =
      update_config-IsSound ctx args w sound h
  process-IsSound (Instruction.create_wager ctx args) w signed sound h =
      create_wager-IsSound rt addresses tokens ctx args w sound h
  process-IsSound (Instruction.stake_side ctx) w signed sound h =
      stake_side-IsSound rt tokens addresses ctx w signed.0 sound h
  process-IsSound (Instruction.unstake_side ctx) w signed sound h =
      unstake_side-IsSound rt tokens addresses ctx w sound h
  process-IsSound (Instruction.propose_admin ctx new_admin) w signed sound h =
      propose_admin-IsSound ctx new_admin w sound h
  process-IsSound (Instruction.accept_admin ctx) w signed sound h =
      accept_admin-IsSound ctx w sound h
  process-IsSound (Instruction.cancel_admin_transfer ctx) w signed sound h =
      cancel_admin_transfer-IsSound ctx w sound h
  process-IsSound (Instruction.resolve ctx winner) w signed sound h =
      resolve-IsSound rt tokens addresses ctx winner w sound h
  process-IsSound (Instruction.concede ctx) w signed sound h =
      concede-IsSound rt tokens addresses ctx w sound h
  process-IsSound (Instruction.refund_side ctx) w signed sound h =
      refund_side-IsSound rt tokens addresses ctx w sound h
  process-IsSound (Instruction.cancel_propose ctx) w signed sound h =
      cancel_propose-IsSound rt addresses ctx w sound h
  process-IsSound (Instruction.cancel_clear ctx) w signed sound h =
      cancel_clear-IsSound rt addresses ctx w sound h
  process-IsSound (Instruction.cancel_accept ctx) w signed sound h =
      cancel_accept-IsSound rt tokens addresses ctx w sound h
  process-IsSound (Instruction.close_expired ctx) w signed sound h =
      close_expired-IsSound rt tokens addresses ctx w sound h

  pub Step-IsSound : {w w' : World} → Step rt w w' → IsSound rt w → IsSound rt w'
  Step-IsSound {w} (instruction ix signed h) sound = process-IsSound ix w signed sound h
  Step-IsSound {w} (outside t kept) sound =
      IsSound-keep rt w (record w { tokens = t }) sound (λ e. e) (inr refl) refl refl
        (λ u o n cannot b.
          let (a', at, owner, more) = kept u b.account b.account_at (rw b.owned cannot) in
          record {
            account = a';
            account_at = at;
            owned = owner ∙ b.owned;
            covers = omega (arith, b.covers, more);
          })
        (λ k g t. t) (λ k. refl) addresses
  Step-IsSound {w} (tick now later) sound =
      IsSound-keep rt w (record w { clock = now }) sound (λ e. e) (inr refl) refl refl
        (λ u o n cannot b. b) (λ k g timely out. refund_due-later g w.clock now later (timely out))
        (λ k. refl) addresses

  pub Reach-IsSound : {w w' : World} → IsSound rt w → Reach rt w w' → IsSound rt w'
  Reach-IsSound sound here = sound
  Reach-IsSound sound (next r s) = Step-IsSound s (Reach-IsSound sound r)

  pub genesis-IsSound : (w : World) → IsGenesis w → IsSound rt w
  genesis-IsSound w start = record {
    keyed = rw start.no_wagers tt;
    unconfigured = λ e. start.no_wagers;
    minted = λ k g at. absurd (lookup-nil k w.wagers start.no_wagers at);
    custodied = λ k g at. absurd (lookup-nil k w.wagers start.no_wagers at);
    canonical = λ k c at. cc (at, start.no_counters k);
    bounded = rw start.no_config (omega arith);
    booked = rw (start.no_config, start.no_wagers) (sum_of-nil locked);
    counted = λ x. rw (start.no_counters _, start.no_wagers) (sum_of-nil (exposure x));
  }
