-- ===== src/Instructions/Cancel/Effect.antt =====
-- What the three steps of the cancel ceremony read and wrote.
use shake_escrow.Base.{
  ℕ, ◌≤◌, ◌≡◌, ◌≢◌, ◌∷◌, true, none, some, ok, ◌==◌, arith, on_ok, on_pass, on_some, ok-injective,
  sym, ==_iff,
}
use shake_escrow.Base.Int.{leb_ℤ}
use shake_escrow.Base.Words.{saturating_mul, u64_max}
use shake_escrow.Base.Dict.{insert, update}
use shake_escrow.State.{
  Pubkey, default_key, Config, Wager, active, cancelled, is_participant, ExposureCounter,
}
use shake_escrow.Events.{cancel_proposed, cancel_cleared, wager_cancelled, wager_closed}
use shake_escrow.Runtime.{Runtime, Tokens, TokenAccount}
use shake_escrow.Runtime.Laws.{TokenLaws, balance, moved}
use shake_escrow.World.{World, emit}
use shake_escrow.World.Loads.{
  WagerAt, CounterAt, AssociatedAt, on_closing, on_wager, on_counter, on_associated,
}
use shake_escrow.Instructions.Payout.Effect.{on_moved, on_moved_if_positive, on_removed}
use shake_escrow.Instructions.Resolve.{settle_books}
use shake_escrow.Instructions.Cancel.{
  CancelPropose, CancelClear, CancelAccept, cancel_propose, cancel_clear, cancel_accept,
  handle_cancel_accept, check_propose, check_clear, check_accept,
}

pub record MayPropose (signer : Pubkey) (g : Wager) (w : World) : Type 0 where
  pub is_active : g.state ≡ active
  pub in_time : leb_ℤ w.clock g.deadline_resolve ≡ true
  pub participant : is_participant g signer ≡ true
  pub not_open : g.cancel_proposed_by ≡ default_key

check_propose-ok :
    (signer : Pubkey) (g : Wager) (w : World) {u : Unit {0}}
    → check_propose signer g w ≡ ok u
    → MayPropose signer g w
unfolding check_propose
check_propose-ok signer g w h = ground arith

pub record Proposed (rt : Runtime) (ctx : CancelPropose) (w w' : World) : Type 0 where
  pub wager : Wager
  pub wager_at : WagerAt rt ctx.wager w wager
  pub allowed : MayPropose ctx.participant wager w
  pub result :
      w'
      ≡ emit (cancel_proposed ctx.wager ctx.participant) (record w {
        wagers = insert ctx.wager (record wager { cancel_proposed_by = ctx.participant }) w.wagers;
      })

pub cancel_propose-ok :
    (rt : Runtime) (ctx : CancelPropose) (w : World) {w' : World}
    → cancel_propose rt ctx w ≡ ok w'
    → Proposed rt ctx w w'
unfolding cancel_propose
cancel_propose-ok rt ctx w h = on_wager rt ctx.wager w h λ g wager_at h₁.
    on_ok (check_propose ctx.participant g w) h₁ λ u checked last. record {
      wager = g;
      wager_at = wager_at;
      allowed = check_propose-ok ctx.participant g w checked;
      result = sym (ok-injective last);
    }

pub record MayClear (signer : Pubkey) (g : Wager) : Type 0 where
  pub participant : is_participant g signer ≡ true
  pub is_open : g.cancel_proposed_by ≢ default_key

check_clear-ok :
    (signer : Pubkey) (g : Wager) {u : Unit {0}} → check_clear signer g ≡ ok u → MayClear signer g
unfolding check_clear
check_clear-ok signer g h = ground arith

pub record Cleared (rt : Runtime) (ctx : CancelClear) (w w' : World) : Type 0 where
  pub wager : Wager
  pub wager_at : WagerAt rt ctx.wager w wager
  pub allowed : MayClear ctx.participant wager
  pub result :
      w'
      ≡ emit (cancel_cleared ctx.wager ctx.participant) (record w {
        wagers = insert ctx.wager (record wager { cancel_proposed_by = default_key }) w.wagers;
      })

pub cancel_clear-ok :
    (rt : Runtime) (ctx : CancelClear) (w : World) {w' : World}
    → cancel_clear rt ctx w ≡ ok w'
    → Cleared rt ctx w w'
unfolding cancel_clear
cancel_clear-ok rt ctx w h = on_wager rt ctx.wager w h λ g wager_at h₁.
    on_ok (check_clear ctx.participant g) h₁ λ u checked last. record {
      wager = g;
      wager_at = wager_at;
      allowed = check_clear-ok ctx.participant g checked;
      result = sym (ok-injective last);
    }

pub record MayAccept (signer : Pubkey) (g : Wager) (w : World) : Type 0 where
  pub is_active : g.state ≡ active
  pub in_time : leb_ℤ w.clock g.deadline_resolve ≡ true
  pub is_open : g.cancel_proposed_by ≢ default_key
  pub participant : is_participant g signer ≡ true
  pub other : signer ≢ g.cancel_proposed_by

check_accept-ok :
    (signer : Pubkey) (g : Wager) (w : World) {u : Unit {0}}
    → check_accept signer g w ≡ ok u
    → MayAccept signer g w
unfolding check_accept
check_accept-ok signer g w h = ground arith

-- The token accounts once both stakes are back, and once the vault is swept and closed.
abbrev pub handed_back : CancelAccept → ℕ → Tokens → Tokens
handed_back ctx stake t =
    moved ctx.vault ctx.side_b_token stake (moved ctx.vault ctx.side_a_token stake t)

abbrev pub cancelled_tokens : CancelAccept → ℕ → Tokens → Tokens
cancelled_tokens ctx stake t =
    let t₂ = handed_back ctx stake t in
    update (moved ctx.vault ctx.fee_token (balance t₂ ctx.vault) t₂) ctx.vault none

abbrev pub cancelled_world :
    CancelAccept → Config → Wager → (ka kb : ExposureCounter) → World → World
cancelled_world ctx c g ka kb w =
    emit (wager_closed ctx.wager (balance (handed_back ctx g.stake w.tokens) ctx.vault)) (
      emit (wager_cancelled ctx.wager) (
        settle_books ctx.wager ctx.counter_a ctx.counter_b ctx.rent_collector
          (saturating_mul u64_max g.stake 2)
          (record g { state = cancelled; refunded_a = true; refunded_b = true }) c ka kb
          (record w {
            tokens = cancelled_tokens ctx g.stake w.tokens;
            rents = (ctx.vault, ctx.rent_collector) ∷ w.rents;
          })))

pub record Accepted (rt : Runtime) (ctx : CancelAccept) (w w' : World) : Type 0 where
  pub config : Config
  pub wager : Wager
  pub target_a : TokenAccount
  pub target_b : TokenAccount
  pub counter_a : ExposureCounter
  pub counter_b : ExposureCounter
  pub vault : TokenAccount
  pub config_at : w.config ≡ some config
  pub wager_at : WagerAt rt ctx.wager w wager
  pub target_a_at : AssociatedAt rt ctx.side_a_token wager.mint ctx.side_a w target_a
  pub target_b_at : AssociatedAt rt ctx.side_b_token wager.mint ctx.side_b w target_b
  pub counter_a_at : CounterAt rt ctx.counter_a wager.side_a w counter_a
  pub counter_b_at : CounterAt rt ctx.counter_b wager.side_b w counter_b
  pub vault_at : AssociatedAt rt ctx.vault wager.mint ctx.wager w vault
  pub side_a_pinned : ctx.side_a ≡ wager.side_a
  pub side_b_pinned : ctx.side_b ≡ wager.side_b
  pub fee_pinned : ctx.fee_token ≡ wager.fee_destination
  pub rent_pinned : ctx.rent_collector ≡ wager.rent_collector
  pub rent_apart : ctx.rent_collector ≢ ctx.wager
  pub fee_account : TokenAccount
  pub fee_at : w.tokens ctx.fee_token ≡ some fee_account
  pub allowed : MayAccept ctx.acceptor wager w
  pub covered_a : wager.stake ≤ balance w.tokens ctx.vault
  pub covered_b :
      wager.stake ≤ balance (moved ctx.vault ctx.side_a_token wager.stake w.tokens) ctx.vault
  pub result : w' ≡ cancelled_world ctx config wager counter_a counter_b w

pub cancel_accept-ok :
    (rt : Runtime)
    → TokenLaws rt
    → (ctx : CancelAccept) (w : World) {w' : World} → cancel_accept rt ctx w ≡ ok w'
    → Accepted rt ctx w w'
unfolding cancel_accept handle_cancel_accept
cancel_accept-ok rt laws ctx w h = on_some w.config _ h λ c config_at h₁.
    on_wager rt ctx.wager w h₁ λ g wager_at closing.
      on_closing ctx.wager ctx.rent_collector closing λ rent_apart h₂.
        on_associated rt ctx.side_a_token g.mint ctx.side_a w h₂ λ target_a target_a_at h₃.
          on_associated rt ctx.side_b_token g.mint ctx.side_b w h₃ λ target_b target_b_at h₄.
            on_counter rt ctx.counter_a g.side_a w h₄ λ ka counter_a_at h₅.
              on_counter rt ctx.counter_b g.side_b w h₅ λ kb counter_b_at h₆.
                on_some (w.tokens ctx.fee_token) _ h₆ λ fee_account fee_at h₇.
                  on_associated rt ctx.vault g.mint ctx.wager w h₇ λ vault vault_at h₈.
                    on_pass (ctx.side_a == g.side_a) _ h₈ λ side_a_pinned h₉.
                      on_pass (ctx.side_b == g.side_b) _ h₉ λ side_b_pinned h₁₀.
                        on_pass (ctx.fee_token == g.fee_destination) _ h₁₀ λ fee_pinned h₁₁.
                          on_pass (ctx.rent_collector == g.rent_collector) _ h₁₁ λ rent_pinned h₁₂.
                            on_ok (check_accept ctx.acceptor g w) h₁₂ λ u checked h₁₃.
                              on_moved rt laws ctx.vault ctx.side_a_token ctx.wager g.stake w _ h₁₃
                                λ covered_a h₁₄.
                                  on_moved rt laws ctx.vault ctx.side_b_token ctx.wager g.stake _ _
                                    h₁₄
                                    λ covered_b h₁₅.
                                      on_moved_if_positive rt laws ctx.vault ctx.fee_token ctx.wager
                                        _ _ _ h₁₅
                                        λ rest h₁₆.
                                          on_removed rt laws ctx.vault ctx.rent_collector ctx.wager
                                            _ _ h₁₆
                                            λ emptied last. record {
                                              config = c;
                                              wager = g;
                                              target_a = target_a;
                                              target_b = target_b;
                                              counter_a = ka;
                                              counter_b = kb;
                                              vault = vault;
                                              config_at = config_at;
                                              wager_at = wager_at;
                                              target_a_at = target_a_at;
                                              target_b_at = target_b_at;
                                              counter_a_at = counter_a_at;
                                              counter_b_at = counter_b_at;
                                              vault_at = vault_at;
                                              side_a_pinned = (==_iff _ _).0 side_a_pinned;
                                              side_b_pinned = (==_iff _ _).0 side_b_pinned;
                                              fee_pinned = (==_iff _ _).0 fee_pinned;
                                              rent_pinned = (==_iff _ _).0 rent_pinned;
                                              rent_apart = rent_apart;
                                              fee_account = fee_account;
                                              fee_at = fee_at;
                                              allowed = check_accept-ok ctx.acceptor g w checked;
                                              covered_a = covered_a;
                                              covered_b = covered_b;
                                              result = sym (ok-injective last);
                                            }
