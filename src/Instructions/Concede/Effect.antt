-- ===== src/Instructions/Concede/Effect.antt =====
-- What a successful `concede` read and wrote.
use shake_escrow.Base.{
  ◌≡◌, refl, true, ok, ◌==◌, arith, on_ok, on_pass, on_some, ok-injective, sym, ==_iff,
}
use shake_escrow.Base.Int.{leb_ℤ}
use shake_escrow.Base.Words.{add_u64}
use shake_escrow.State.{Wager, active, is_participant}
use shake_escrow.Events.{wager_conceded}
use shake_escrow.Runtime.{Runtime}
use shake_escrow.Runtime.Laws.{TokenLaws}
use shake_escrow.World.{World}
use shake_escrow.World.Loads.{on_closing, on_wager, on_counter, on_associated}
use shake_escrow.Instructions.Payout.{split_pot, pay_winner_and_close_vault}
use shake_escrow.Instructions.Payout.Effect.{pay_winner_and_close_vault-ok}
use shake_escrow.Instructions.Resolve.Effect.{Parties, Settled, add_u64-ok}
use shake_escrow.Instructions.Concede.{
  Concede, concede, handle_concede, check_concede, counterparty,
}

abbrev pub concede_parties : Concede → Parties
concede_parties ctx = record {
  wager = ctx.wager;
  winner = ctx.winner;
  winner_token = ctx.winner_token;
  fee_token = ctx.fee_token;
  vault = ctx.vault;
  counter_a = ctx.counter_a;
  counter_b = ctx.counter_b;
  rent_collector = ctx.rent_collector;
}

pub record MayConcede (ctx : Concede) (g : Wager) (w : World) : Type 0 where
  pub is_active : g.state ≡ active
  pub in_time : leb_ℤ w.clock g.deadline_resolve ≡ true
  pub participant : is_participant g ctx.conceder ≡ true
  pub named : ctx.winner ≡ counterparty g ctx.conceder

check_concede-ok :
    (ctx : Concede) (g : Wager) (w : World) {u : Unit {0}}
    → check_concede ctx g w ≡ ok u
    → MayConcede ctx g w
unfolding check_concede
check_concede-ok ctx g w h = ground arith

-- The counterparty of a participant is a participant.
pub counterparty-is_participant :
    (ctx : Concede) (g : Wager)
    → ctx.winner ≡ counterparty g ctx.conceder
    → is_participant g ctx.winner ≡ true
counterparty-is_participant ctx g h = ground arith

pub concede-ok :
    (rt : Runtime)
    → TokenLaws rt
    → (ctx : Concede) (w : World) {w' : World} → concede rt ctx w ≡ ok w'
    → (s : Settled rt (concede_parties ctx) w w') × (is_participant s.wager ctx.conceder ≡ true)
      × (ctx.winner ≡ counterparty s.wager ctx.conceder)
      × (s.event
          ≡ wager_conceded ctx.wager ctx.conceder
              (counterparty s.wager ctx.conceder)
              s.payout
              s.fee)
unfolding concede handle_concede
concede-ok rt laws ctx w h = on_some w.config _ h λ c config_at h₁.
    on_wager rt ctx.wager w h₁ λ g wager_at closing.
      on_closing ctx.wager ctx.rent_collector closing λ rent_apart h₂.
        on_associated rt ctx.winner_token g.mint ctx.winner w h₂ λ target target_at h₃.
          on_some (w.tokens ctx.fee_token) _ h₃ λ fee_account fee_at h₄.
            on_associated rt ctx.vault g.mint ctx.wager w h₄ λ vault vault_at h₅.
              on_counter rt ctx.counter_a g.side_a w h₅ λ ka counter_a_at h₆.
                on_counter rt ctx.counter_b g.side_b w h₆ λ kb counter_b_at h₇.
                  on_pass (ctx.fee_token == g.fee_destination) _ h₇ λ fee_pinned h₉.
                    on_pass (ctx.rent_collector == g.rent_collector) _ h₉ λ rent_pinned h₁₀.
                      on_ok (check_concede ctx g w) h₁₀ λ u checked h₁₁.
                        on_ok (split_pot g.stake g.fee_bps) h₁₁ λ parts split h₁₂.
                          on_ok (add_u64 parts.0 parts.1) h₁₂ λ pot added h₁₃.
                            on_ok
                              (pay_winner_and_close_vault rt ctx.wager ctx.vault ctx.winner_token
                                ctx.fee_token ctx.rent_collector parts.0 parts.1 w)
                              h₁₃
                              λ r paid last.
                                let allowed = check_concede-ok ctx g w checked in
                                let (covered, fee_covered, swept) =
                                  pay_winner_and_close_vault-ok rt laws _ _ _ _ _ _ _ w paid in
                                (
                                  record {
                                    config = c;
                                    wager = g;
                                    counter_a = ka;
                                    counter_b = kb;
                                    target = target;
                                    vault = vault;
                                    payout = parts.0;
                                    fee = parts.1;
                                    event =
                                        wager_conceded ctx.wager ctx.conceder
                                          (counterparty g ctx.conceder) parts.0 parts.1;
                                    config_at = config_at;
                                    wager_at = wager_at;
                                    target_at = target_at;
                                    vault_at = vault_at;
                                    counter_a_at = counter_a_at;
                                    counter_b_at = counter_b_at;
                                    fee_pinned = (==_iff _ _).0 fee_pinned;
                                    rent_pinned = (==_iff _ _).0 rent_pinned;
                                    rent_apart = rent_apart;
                                    is_active = allowed.is_active;
                                    in_time = allowed.in_time;
                                    participant = counterparty-is_participant ctx g allowed.named;
                                    split = split;
                                    covered = covered;
                                    fee_covered = fee_covered;
                                    fee_account = fee_account;
                                    fee_at = fee_at;
                                    result =
                                        rw (← add_u64-ok _ _ added)
                                          (sym (ok-injective (rw swept at last)));
                                  },
                                  allowed.participant,
                                  allowed.named,
                                  refl,
                                )
