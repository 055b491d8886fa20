-- ===== src/Instructions/CloseExpired/Effect.antt =====
-- What a successful `close_expired` read and wrote.
use shake_escrow.Base.{
  ◌≢◌, ℕ, zero, suc, ◌≡◌, ◌∷◌, true, none, ok, ◌==◌, ltb, arith, on_ok, on_pass, on_some,
  ok-injective, sym, ==_iff,
}
use shake_escrow.Base.Dict.{erase, update}
use shake_escrow.State.{Wager, fully_exited}
use shake_escrow.Events.{wager_closed}
use shake_escrow.Runtime.{Runtime, Tokens, TokenAccount}
use shake_escrow.Runtime.Laws.{TokenLaws, moved}
use shake_escrow.World.{World, emit, return_rent}
use shake_escrow.World.Loads.{WagerAt, AssociatedAt, on_closing, on_wager, on_associated}
use shake_escrow.Instructions.Payout.Effect.{transfer-moves, on_removed}
use shake_escrow.Instructions.CloseExpired.{
  CloseExpired, close_expired, handle_close_expired, load_optional, sweep_surplus, close_due,
}

-- The token accounts after the sweep: a surplus went to the pinned fee account.
abbrev pub swept : CloseExpired → Wager → ℕ → Tokens → Tokens
swept ctx g zero t = t
swept ctx g (suc n) t = moved ctx.vault g.fee_destination (suc n) t

abbrev pub closed_world : CloseExpired → Wager → ℕ → World → World
closed_world ctx g surplus w = return_rent ctx.wager ctx.rent_collector (
    emit (wager_closed ctx.wager surplus) (record w {
      tokens = update (swept ctx g surplus w.tokens) ctx.vault none;
      rents = (ctx.vault, ctx.rent_collector) ∷ w.rents;
      wagers = erase ctx.wager w.wagers;
    }))

pub record Closed (rt : Runtime) (ctx : CloseExpired) (w w' : World) : Type 0 where
  pub wager : Wager
  pub vault : TokenAccount
  pub wager_at : WagerAt rt ctx.wager w wager
  pub vault_at : AssociatedAt rt ctx.vault wager.mint ctx.wager w vault
  pub rent_pinned : ctx.rent_collector ≡ wager.rent_collector
  pub rent_apart : ctx.rent_collector ≢ ctx.wager
  pub due : close_due wager.state w.clock wager.deadline_fund wager.deadline_resolve ≡ true
  pub exited : fully_exited wager ≡ true
  pub result : w' ≡ closed_world ctx wager vault.amount w

sweep_surplus-ok :
    (rt : Runtime)
    → TokenLaws rt
    → (ctx : CloseExpired) (g : Wager) (n : ℕ) (w : World) {w' : World}
    → sweep_surplus rt ctx g n w ≡ ok w'
    → record w { tokens = swept ctx g n w.tokens } ≡ w'
unfolding sweep_surplus
sweep_surplus-ok rt laws ctx g zero w h = ok-injective h
sweep_surplus-ok rt laws ctx g (suc n) w h =
    let positive : ltb 0 (suc n) ≡ true = ground arith in
    on_some ctx.fee_token _ (rw (positive, sweep_surplus) at h) λ k given h₁.
      on_pass (k == g.fee_destination) _ h₁ λ pinned last.
        rw (← (==_iff _ _).0 pinned) (transfer-moves rt laws ctx.vault k ctx.wager (suc n) w last)

pub close_expired-ok :
    (rt : Runtime)
    → TokenLaws rt
    → (ctx : CloseExpired) (w : World) {w' : World} → close_expired rt ctx w ≡ ok w'
    → Closed rt ctx w w'
unfolding close_expired handle_close_expired
close_expired-ok rt laws ctx w h = on_wager rt ctx.wager w h λ g wager_at closing.
    on_closing ctx.wager ctx.rent_collector closing λ rent_apart h₁.
      on_associated rt ctx.vault g.mint ctx.wager w h₁ λ vault vault_at h₂.
        on_ok (load_optional rt ctx.fee_token w) h₂ λ u fee_at h₃.
          on_pass (ctx.rent_collector == g.rent_collector) _ h₃ λ rent_pinned h₄.
            on_pass (close_due g.state w.clock g.deadline_fund g.deadline_resolve) _ h₄ λ due h₅.
              on_pass (fully_exited g) _ h₅ λ exited h₆.
                on_ok (sweep_surplus rt ctx g vault.amount w) h₆ λ w₁ sweep h₇.
                  let same = sweep_surplus-ok rt laws ctx g vault.amount w sweep in
                  on_removed rt laws ctx.vault ctx.rent_collector ctx.wager _ _ (rw (← same) at h₇)
                    λ emptied last. record {
                      wager = g;
                      vault = vault;
                      wager_at = wager_at;
                      vault_at = vault_at;
                      rent_pinned = (==_iff _ _).0 rent_pinned;
                      rent_apart = rent_apart;
                      due = due;
                      exited = exited;
                      result = sym (ok-injective last);
                    }
