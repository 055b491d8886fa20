-- ===== src/Custody/Creation.antt =====
-- The books under `create_wager` and the two steps that only write a proposal.
use shake_escrow.Base.{ℕ, ◌≡◌, ◌≢◌, ok, arith, refl, sym, ◌∙◌, ap, inl}
use shake_escrow.State.{Pubkey, Config, Wager}
use shake_escrow.Runtime.{Runtime}
use shake_escrow.Runtime.Addresses.{wager_seeds}
use shake_escrow.Runtime.Laws.{AddressLaws, TokenLaws}
use shake_escrow.World.{World}
use shake_escrow.World.Loads.{WagerAt}
use shake_escrow.Base.Dict.{insert}
use shake_escrow.Custody.{IsSound, IsBacked, locked, exposure}
use shake_escrow.Custody.Frames.{IsSound-replace, IsSound-add}
use shake_escrow.Instructions.CreateWager.{CreateWager, CreateWagerArgs, create_wager, new_wager}
use shake_escrow.Instructions.CreateWager.Effect.{Created, Opened, create_wager-ok}
use shake_escrow.Instructions.Cancel.{CancelPropose, CancelClear, cancel_propose, cancel_clear}
use shake_escrow.Instructions.Cancel.Effect.{cancel_propose-ok, cancel_clear-ok}

new_wager-owes :
    (c : Config) (args : CreateWagerArgs) (b : ℕ)
    → (locked (new_wager c args b) ≡ 0) × ((x : Pubkey) → exposure x (new_wager c args b) ≡ 0)
new_wager-owes c args b = (refl, λ x. refl)

-- Opening the vault spares every account that another address owns.
Opened-spares :
    (rt : Runtime) (vault mint k : Pubkey) (w w₁ : World)
    → (s : Opened rt vault mint k (w.tokens vault) w w₁) → (u o : Pubkey) (n : ℕ) → u ≢ vault
    → IsBacked w.tokens u o n
    → IsBacked s.tokens u o n
Opened-spares rt vault mint k w w₁ s u o n ne b = record {
  account = b.account;
  account_at = s.others u ne ∙ b.account_at;
  owned = b.owned;
  covers = b.covers;
}

module _ (rt : Runtime) (addresses : AddressLaws rt) where
  Created-IsSound :
      (ctx : CreateWager) (args : CreateWagerArgs) (w w' : World)
      → IsSound rt w
      → Created rt ctx args w w'
      → IsSound rt w'
  Created-IsSound ctx args w w' sound s =
      let o = s.opened in
      let bump = (rt.find_program_address (wager_seeds args.side_a args.nonce)).1 in
      let g = new_wager s.config args bump in
      let vault_address =
        ap (λ m. rt.associated_address m ctx.wager) (sym s.mint_pinned) ∙ o.address in
      rw (s.result, o.result)
        (IsSound-add rt addresses w _ sound ctx.wager g s.was_free
          (record {
            same_clock = refl;
            same_mint = refl;
            bounded = sound.bounded;
            stays_configured = λ e. e;
            spared = λ u p n ne cannot b.
                Opened-spares rt _ _ _ w _ o u p n (λ e. ne (e ∙ sym vault_address)) b;
            canonical = sound.canonical;
          })
          (λ e. cc (e, s.config_at)) refl (rw s.config_at refl)
          (record {
            address =
                rw (← s.address) (addresses.canonical_bump (wager_seeds args.side_a args.nonce));
            well_formed = record {
              sides_apart = s.allowed.sides_apart;
              live = inl (refl, refl);
              refund_a_funded = λ e. cc;
              refund_b_funded = λ e. cc;
            };
            timely = λ e. cc;
            backed = rw vault_address (record {
              account = _;
              account_at = o.vault_at;
              owned = o.owned;
              covers = omega arith;
            });
          })
          (omega arith) (λ x. omega arith))

  -- A step that rewrites the open proposal alone.
  proposal-IsSound :
      (k by : Pubkey) (g : Wager) (w w' : World)
      → IsSound rt w
      → WagerAt rt k w g
      → w'.wagers ≡ insert k (record g { cancel_proposed_by = by }) w.wagers
      → (w'.config ≡ w.config)
        × (w'.counters ≡ w.counters)
        × (w'.tokens ≡ w.tokens)
        × (w'.clock ≡ w.clock)
      → IsSound rt w'
  proposal-IsSound k by g w w' sound at written (config, counters, tokens, clock) =
      let held = sound.custodied k g at.found in
      IsSound-replace rt addresses w w' sound k g (record g { cancel_proposed_by = by }) at.found
        (record {
          same_clock = clock;
          same_mint = rw config refl;
          bounded = rw config sound.bounded;
          stays_configured = λ e. sym config ∙ e;
          spared = λ u o n ne cannot b. rw tokens b;
          canonical = rw counters sound.canonical;
        })
        written refl
        (record {
          address = held.address;
          well_formed = record {
            sides_apart = held.well_formed.sides_apart;
            live = held.well_formed.live;
            refund_a_funded = held.well_formed.refund_a_funded;
            refund_b_funded = held.well_formed.refund_b_funded;
          };
          timely = rw clock held.timely;
          backed = rw tokens held.backed;
        })
        (rw config refl) (λ x. rw counters refl)

  pub cancel_propose-IsSound :
      (ctx : CancelPropose) (w : World) {w' : World}
      → IsSound rt w
      → cancel_propose rt ctx w ≡ ok w'
      → IsSound rt w'
  cancel_propose-IsSound ctx w sound h =
      let s = cancel_propose-ok rt ctx w h in
      rw s.result (
        proposal-IsSound ctx.wager ctx.participant s.wager w _ sound s.wager_at refl
          (refl, refl, refl, refl))

  pub cancel_clear-IsSound :
      (ctx : CancelClear) (w : World) {w' : World}
      → IsSound rt w
      → cancel_clear rt ctx w ≡ ok w'
      → IsSound rt w'
  cancel_clear-IsSound ctx w sound h =
      let s = cancel_clear-ok rt ctx w h in
      rw s.result
        (proposal-IsSound ctx.wager 0 s.wager w _ sound s.wager_at refl (refl, refl, refl, refl))

  pub create_wager-IsSound :
      TokenLaws rt
      → (ctx : CreateWager) (args : CreateWagerArgs) (w : World) {w' : World} → IsSound rt w
      → create_wager rt ctx args w ≡ ok w'
      → IsSound rt w'
  create_wager-IsSound tokens ctx args w {w'} sound h =
      Created-IsSound ctx args w w' sound (create_wager-ok rt tokens ctx args w h)
