-- ===== src/Custody/Reclaiming.antt =====
-- Liveness of the close (close_expired.rs).
use shake_escrow.Base.{
  ℕ, ◌≡◌, ◌==◌, Bool, true, some, none, Option, ◌∷◌, ok, arith, refl, Error, shake, ensure,
  close_not_due, not_fully_exited, wrong_rent_collector, then_ok, Option-cases, inl, inr, ltb,
  false, anchor, constraint_close, not, ◌≢◌, sym,
}
use shake_escrow.Base.Dict.{lookup}
use shake_escrow.State.{Pubkey, Wager, fully_exited}
use shake_escrow.Runtime.{Runtime, TokenAccount}
use shake_escrow.Runtime.Laws.{TokenLaws}
use shake_escrow.World.{World, close_account}
use shake_escrow.World.Forward.{load_wager-found, load_associated-found}
use shake_escrow.Custody.{IsSound}
use shake_escrow.Instructions.CloseExpired.{
  CloseExpired, close_expired, handle_close_expired, load_optional, sweep_surplus, close_due,
}

passes : (c : Bool) (e : Error) → c ≡ true → ensure c e ≡ ok tt
passes c e h = rw h refl

loads_nothing :
    (rt : Runtime) (o : Option Pubkey) (w : World) → o ≡ none → load_optional rt o w ≡ ok tt
loads_nothing rt o w h = rw h refl

sweeps_nothing :
    (rt : Runtime) (ctx : CloseExpired) (g : Wager) (n : ℕ) (w : World)
    → n ≡ 0
    → sweep_surplus rt ctx g n w ≡ ok w
unfolding sweep_surplus
sweeps_nothing rt ctx g n w h =
    let empty : ltb 0 n ≡ false = ground arith in rw (empty, sweep_surplus) refl

close_account-succeeds :
    (rt : Runtime)
    → TokenLaws rt
    → (ctx : CloseExpired) (a : TokenAccount) (w : World) → ctx.vault ≢ ctx.rent_collector
    → w.tokens ctx.vault ≡ some a
    → a.amount ≡ 0
    → a.owner ≡ ctx.wager
    → (w' : World) × (close_account rt ctx.vault ctx.rent_collector ctx.wager w ≡ ok w')
unfolding close_account
close_account-succeeds rt laws ctx a w apart at empty owner =
    elim (Option-cases (rt.close_account ctx.vault ctx.rent_collector ctx.wager w.tokens)) [
      | inl failed ↦ absurd (
          laws.close_succeeds ctx.vault ctx.rent_collector ctx.wager w.tokens a apart at empty owner
            failed)
      | inr (t, closed) ↦ (
        record w { tokens = t; rents = (ctx.vault, ctx.rent_collector) ∷ w.rents },
        rw closed refl,
      )
    ]

-- On a sound chain, whoever closes a wager whose close is due, that every funded side has left and whose
-- vault is empty succeeds, naming that vault and the pinned rent collector and no fee account, where the
-- rent collector is neither the wager's account nor its vault.
-- It is stated under the laws of the token program.
pub close_expired-succeeds :
    (rt : Runtime)
    → TokenLaws rt
    → (ctx : CloseExpired) (w : World) (g : Wager) (vault : TokenAccount) → IsSound rt w
    → lookup ctx.wager w.wagers ≡ some g
    → close_due g.state w.clock g.deadline_fund g.deadline_resolve ≡ true
    → fully_exited g ≡ true
    → ctx.rent_collector ≡ g.rent_collector
    → rt.associated_address g.mint ctx.wager ≡ ctx.vault
    → w.tokens ctx.vault ≡ some vault
    → vault.amount ≡ 0
    → ctx.fee_token ≡ none
    → ctx.rent_collector ≢ ctx.wager
    → ctx.rent_collector ≢ ctx.vault
    → (w' : World) × (close_expired rt ctx w ≡ ok w')
unfolding close_expired handle_close_expired
close_expired-succeeds rt laws ctx w g vault sound at due exited rent address vault_at empty no_fee
      not_wager not_vault =
    let held = sound.custodied ctx.wager g at in
    let b = held.backed in
    let owned : vault.owner ≡ ctx.wager = cc (vault_at, address, b.account_at, b.owned) in
    let (w₁, closed) =
      close_account-succeeds rt laws ctx vault w (λ e. not_vault (sym e)) vault_at empty owned in
    (
      _,
      then_ok _ (load_wager-found rt ctx.wager w g (record { found = at; address = held.address }))
          (then_ok _
            (passes (not (ctx.wager == ctx.rent_collector)) (anchor constraint_close)
              (ground (arith, not_wager)))
            (then_ok _
              (load_associated-found rt ctx.vault g.mint ctx.wager w vault
                (record { found = vault_at; owned = owned; address = address }))
              (then_ok _ (loads_nothing rt ctx.fee_token w no_fee) (
                then_ok _
                  (passes (ctx.rent_collector == g.rent_collector) (shake wrong_rent_collector)
                    (ground (arith, rent)))
                  (then_ok _
                    (passes (close_due g.state w.clock g.deadline_fund g.deadline_resolve)
                      (shake close_not_due) due)
                    (then_ok _ (passes (fully_exited g) (shake not_fully_exited) exited) (
                      then_ok _ (sweeps_nothing rt ctx g vault.amount w empty)
                        (then_ok _ closed refl)))))))),
    )
