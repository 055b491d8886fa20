-- ===== src/Instructions/Resolve/Effect.antt =====
-- What a successful settlement, by `resolve` or by `concede`, read and wrote.
use shake_escrow.Base.{
  ◌≢◌, ℕ, ◌+◌, ◌≤◌, ◌≡◌, ◌∷◌, true, some, ◌==◌, ok, arith, on_ok, on_pass, on_some, ok-injective,
  sym, ==_iff, refl,
}
use shake_escrow.Base.Int.{leb_ℤ}
use shake_escrow.Base.Words.{add_u64}
use shake_escrow.State.{Pubkey, Config, Wager, active, resolved, is_participant, ExposureCounter}
use shake_escrow.Events.{Event, wager_resolved, wager_closed}
use shake_escrow.Runtime.{Runtime, TokenAccount}
use shake_escrow.Runtime.Laws.{TokenLaws, balance, moved}
use shake_escrow.World.{World, emit}
use shake_escrow.World.Loads.{
  WagerAt, CounterAt, AssociatedAt, on_closing, on_wager, on_counter, on_associated,
}
use shake_escrow.Instructions.Payout.{split_pot, pay_winner_and_close_vault}
use shake_escrow.Instructions.Payout.Effect.{paid_out, swept_after, pay_winner_and_close_vault-ok}
use shake_escrow.Instructions.Resolve.{
  Resolve, resolve, handle_resolve, check_resolve, settle_books,
}

-- The accounts that a settlement names, but for the signer.
pub record Parties : Type 0 where
  pub wager : Pubkey
  pub winner : Pubkey
  pub winner_token : Pubkey
  pub fee_token : Pubkey
  pub vault : Pubkey
  pub counter_a : Pubkey
  pub counter_b : Pubkey
  pub rent_collector : Pubkey

abbrev pub resolve_parties : Resolve → Parties
resolve_parties ctx = record {
  wager = ctx.wager;
  winner = ctx.winner;
  winner_token = ctx.winner_token;
  fee_token = ctx.fee_token;
  vault = ctx.vault;
  counter_a = ctx.counter_a;
  counter_b = ctx.counter_b;
  rent_collector = ctx.rent_collector;
}

-- The world after a settlement.
abbrev pub settled_world :
    Parties → Event → (payout fee : ℕ) → Config → Wager → (ka kb : ExposureCounter) → World → World
settled_world p event payout fee c g ka kb w =
    emit (wager_closed p.wager (swept_after p.vault p.winner_token p.fee_token payout fee w.tokens))
      (emit event (
        settle_books p.wager p.counter_a p.counter_b p.rent_collector (payout + fee)
          (record g { state = resolved }) c ka kb
          (record w {
            tokens = paid_out p.vault p.winner_token p.fee_token payout fee w.tokens;
            rents = (p.vault, p.rent_collector) ∷ w.rents;
          })))

pub record Settled (rt : Runtime) (p : Parties) (w w' : World) : Type 0 where
  pub config : Config
  pub wager : Wager
  pub counter_a : ExposureCounter
  pub counter_b : ExposureCounter
  pub target : TokenAccount
  pub vault : TokenAccount
  pub payout : ℕ
  pub fee : ℕ
  pub event : Event
  pub config_at : w.config ≡ some config
  pub wager_at : WagerAt rt p.wager w wager
  pub target_at : AssociatedAt rt p.winner_token wager.mint p.winner w target
  pub vault_at : AssociatedAt rt p.vault wager.mint p.wager w vault
  pub counter_a_at : CounterAt rt p.counter_a wager.side_a w counter_a
  pub counter_b_at : CounterAt rt p.counter_b wager.side_b w counter_b
  pub fee_pinned : p.fee_token ≡ wager.fee_destination
  pub rent_pinned : p.rent_collector ≡ wager.rent_collector
  pub rent_apart : p.rent_collector ≢ p.wager
  pub is_active : wager.state ≡ active
  pub in_time : leb_ℤ w.clock wager.deadline_resolve ≡ true
  pub participant : is_participant wager p.winner ≡ true
  pub split : split_pot wager.stake wager.fee_bps ≡ ok (payout, fee)
  pub fee_account : TokenAccount
  pub fee_at : w.tokens p.fee_token ≡ some fee_account
  pub covered : payout ≤ balance w.tokens p.vault
  pub fee_covered : fee ≤ balance (moved p.vault p.winner_token payout w.tokens) p.vault
  pub result : w' ≡ settled_world p event payout fee config wager counter_a counter_b w

pub add_u64-ok : (a b : ℕ) {n : ℕ} → add_u64 a b ≡ ok n → n ≡ a + b
add_u64-ok a b h = ground arith

pub record MayResolve (ctx : Resolve) (winner : Pubkey) (g : Wager) (w : World) : Type 0 where
  pub is_active : g.state ≡ active
  pub in_time : leb_ℤ w.clock g.deadline_resolve ≡ true
  pub participant : is_participant g winner ≡ true
  pub named : ctx.winner ≡ winner

check_resolve-ok :
    (ctx : Resolve) (winner : Pubkey) (g : Wager) (w : World) {u : Unit {0}}
    → check_resolve ctx winner g w ≡ ok u
    → MayResolve ctx winner g w
unfolding check_resolve
check_resolve-ok ctx winner g w h = ground arith

pub resolve-ok :
    (rt : Runtime)
    → TokenLaws rt
    → (ctx : Resolve) (winner : Pubkey) (w : World) {w' : World} → resolve rt ctx winner w ≡ ok w'
    → (s : Settled rt (resolve_parties ctx) w w') × (ctx.resolver ≡ s.wager.resolver)
      × (ctx.winner ≡ winner)
      × (s.event ≡ wager_resolved ctx.wager winner s.payout s.fee)
unfolding resolve handle_resolve
resolve-ok rt laws ctx winner w h = on_some w.config _ h λ c config_at h₁.
    on_wager rt ctx.wager w h₁ λ g wager_at closing.
      on_closing ctx.wager ctx.rent_collector closing λ rent_apart h₂.
        on_associated rt ctx.winner_token g.mint ctx.winner w h₂ λ target target_at h₃.
          on_some (w.tokens ctx.fee_token) _ h₃ λ fee_account fee_at h₄.
            on_associated rt ctx.vault g.mint ctx.wager w h₄ λ vault vault_at h₅.
              on_counter rt ctx.counter_a g.side_a w h₅ λ ka counter_a_at h₆.
                on_counter rt ctx.counter_b g.side_b w h₆ λ kb counter_b_at h₇.
                  on_pass (ctx.resolver == g.resolver) _ h₇ λ resolver h₈.
                    on_pass (ctx.fee_token == g.fee_destination) _ h₈ λ fee_pinned h₉.
                      on_pass (ctx.rent_collector == g.rent_collector) _ h₉ λ rent_pinned h₁₀.
                        on_ok (check_resolve ctx winner g w) h₁₀ λ u checked h₁₁.
                          on_ok (split_pot g.stake g.fee_bps) h₁₁ λ parts split h₁₂.
                            on_ok (add_u64 parts.0 parts.1) h₁₂ λ pot added h₁₃.
                              on_ok
                                (pay_winner_and_close_vault rt ctx.wager ctx.vault ctx.winner_token
                                  ctx.fee_token ctx.rent_collector parts.0 parts.1 w)
                                h₁₃
                                λ r paid last.
                                  let allowed = check_resolve-ok ctx winner g w checked in
                                  let (covered, fee_covered, swept) =
                                    pay_winner_and_close_vault-ok rt laws _ _ _ _ _ _ _ w paid in
                                  (
                                    record {
                                      config = c;
                                      wager = g;
                                      counter_a = ka;
                                      counter_b = kb;
                                      target = target;
                                      vault = vault;
                                      payout = parts.0;
                                      fee = parts.1;
                                      event = wager_resolved ctx.wager winner parts.0 parts.1;
                                      config_at = config_at;
                                      wager_at = wager_at;
                                      target_at = target_at;
                                      vault_at = vault_at;
                                      counter_a_at = counter_a_at;
                                      counter_b_at = counter_b_at;
                                      fee_pinned = (==_iff _ _).0 fee_pinned;
                                      rent_pinned = (==_iff _ _).0 rent_pinned;
                                      rent_apart = rent_apart;
                                      is_active = allowed.is_active;
                                      in_time = allowed.in_time;
                                      participant = rw allowed.named allowed.participant;
                                      split = split;
                                      covered = covered;
                                      fee_covered = fee_covered;
                                      fee_account = fee_account;
                                      fee_at = fee_at;
                                      result =
                                          rw (← add_u64-ok _ _ added)
                                            (sym (ok-injective (rw swept at last)));
                                    },
                                    (==_iff _ _).0 resolver,
                                    allowed.named,
                                    refl,
                                  )
