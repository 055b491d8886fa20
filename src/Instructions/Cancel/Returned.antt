-- ===== src/Instructions/Cancel/Returned.antt =====
-- Where the money of an agreed cancellation goes, account by account.
use shake_escrow.Base.{ℕ, ◌∷◌, ◌+◌, ◌≤◌, ◌≡◌, ◌≢◌, true, none, some, ok, arith, ap, ◌∙◌, sym, subst}
use shake_escrow.Base.Int.{leb_ℤ}
use shake_escrow.Base.Dict.{lookup}
use shake_escrow.State.{Pubkey, default_key, Wager, active, is_participant}
use shake_escrow.Runtime.{Runtime, Tokens, TokenAccount}
use shake_escrow.Runtime.Laws.{TokenLaws, balance, moved}
use shake_escrow.World.{World}
use shake_escrow.Instructions.Payout.Payments.{
  moved-from, moved-to, moved-other, removed_self, removed-other, amount_at,
}
use shake_escrow.Instructions.Cancel.{CancelAccept, cancel_accept}
use shake_escrow.Instructions.Cancel.Effect.{Accepted, cancelled_tokens, cancel_accept-ok}

-- Each side gets the stake, the fee account gets all the rest, the vault is gone; no other account
-- changes.
pub record IsReturned (ctx : CancelAccept) (stake : ℕ) (t t' : Tokens) : Type 0 where
  pub vault_closed : t' ctx.vault ≡ none
  pub a_paid : balance t' ctx.side_a_token ≡ balance t ctx.side_a_token + stake
  pub b_paid : balance t' ctx.side_b_token ≡ balance t ctx.side_b_token + stake
  pub fee_paid :
      balance t' ctx.fee_token + (stake + stake) ≡ balance t ctx.fee_token + balance t ctx.vault
  pub others_kept :
      (k : Pubkey)
      → k ≢ ctx.vault
      → k ≢ ctx.side_a_token
      → k ≢ ctx.side_b_token
      → k ≢ ctx.fee_token
      → t' k ≡ t k

-- The four token accounts of a cancellation are four.
pub record AreApart (v a b f : Pubkey) : Type 0 where
  pub vault : (a ≢ v) × (b ≢ v) × (f ≢ v)
  pub sides : (a ≢ b) × (a ≢ f) × (b ≢ f)

cancelled-IsReturned :
    (ctx : CancelAccept) (stake : ℕ) (t : Tokens) (x y z u : TokenAccount)
    → AreApart ctx.vault ctx.side_a_token ctx.side_b_token ctx.fee_token
    → t ctx.vault ≡ some x
    → t ctx.side_a_token ≡ some y
    → t ctx.side_b_token ≡ some z
    → t ctx.fee_token ≡ some u
    → stake ≤ balance t ctx.vault
    → stake ≤ balance (moved ctx.vault ctx.side_a_token stake t) ctx.vault
    → IsReturned ctx stake t (cancelled_tokens ctx stake t)
cancelled-IsReturned ctx n t x y z u apart at_v at_a at_b at_f covered_a covered_b =
    let v = ctx.vault in
    let a = ctx.side_a_token in
    let b = ctx.side_b_token in
    let f = ctx.fee_token in
    let (av, bv, fv) = apart.vault in
    let (ab, af, bf) = apart.sides in
    let t₁ = moved v a n t in
    let t₂ = moved v b n t₁ in
    let rest = balance t₂ v in
    let t₃ = moved v f rest t₂ in
    let v₁ = moved-from v a n t x (λ e. av (sym e)) at_v in
    let v₂ = moved-from v b n t₁ _ (λ e. bv (sym e)) v₁ in
    let a₁ = moved-to v a n t y (λ e. av (sym e)) at_a in
    let a₂ = moved-other v b a n t₁ av ab ∙ a₁ in
    let a₃ = moved-other v f a rest t₂ av af ∙ a₂ in
    let b₁ = moved-other v a b n t bv (λ e. ab (sym e)) ∙ at_b in
    let b₂ = moved-to v b n t₁ z (λ e. bv (sym e)) b₁ in
    let b₃ = moved-other v f b rest t₂ bv bf ∙ b₂ in
    let f₁ = moved-other v a f n t fv (λ e. af (sym e)) ∙ at_f in
    let f₂ = moved-other v b f n t₁ fv (λ e. bf (sym e)) ∙ f₁ in
    let f₃ = moved-to v f rest t₂ u (λ e. fv (sym e)) f₂ in
    let end = cancelled_tokens ctx n t in
    record {
      vault_closed = removed_self v t₃;
      a_paid =
          amount_at end a _ (removed-other v a t₃ av ∙ a₃)
          ∙ ap (λ m. m + n) (sym (amount_at t a y at_a));
      b_paid =
          amount_at end b _ (removed-other v b t₃ bv ∙ b₃)
          ∙ ap (λ m. m + n) (sym (amount_at t b z at_b));
      fee_paid = omega (
        arith,
        amount_at end f _ (removed-other v f t₃ fv ∙ f₃),
        amount_at t f u at_f,
        amount_at t v x at_v,
        amount_at t₁ v _ v₁,
        amount_at t₂ v _ v₂,
        covered_a,
        covered_b,
      );
      others_kept = λ k kv ka kb kf.
          removed-other v k t₃ kv
          ∙ (moved-other v f k rest t₂ kv kf
              ∙ (moved-other v b k n t₁ kv kb ∙ moved-other v a k n t kv ka));
    }

pub Accepted-IsReturned :
    (rt : Runtime) (ctx : CancelAccept) (w : World) {w' : World}
    → AreApart ctx.vault ctx.side_a_token ctx.side_b_token ctx.fee_token
    → (s : Accepted rt ctx w w') → IsReturned ctx s.wager.stake w.tokens w'.tokens
Accepted-IsReturned rt ctx w apart s =
    subst (λ (x : World). IsReturned ctx s.wager.stake w.tokens x.tokens) (sym s.result)
      (cancelled-IsReturned ctx s.wager.stake w.tokens s.vault s.target_a s.target_b s.fee_account
        apart s.vault_at.found s.target_a_at.found s.target_b_at.found s.fee_at s.covered_a
        s.covered_b)

-- A successful cancellation, with four different token accounts, was accepted by a side of the locked
-- wager that had not proposed it, before the deadline, and gives each side of it the stake back at its own associated
-- account and the rest of the wager's vault to its fee destination; the vault is closed, no other token
-- account changes, and the rents of the vault and of the wager's account go to the wager's rent
-- collector, which is not that account itself.
-- It is stated under the laws of the token program.
pub cancel_accept-returns :
    (rt : Runtime)
    → TokenLaws rt
    → (ctx : CancelAccept) (w : World) {w' : World}
    → AreApart ctx.vault ctx.side_a_token ctx.side_b_token ctx.fee_token
    → cancel_accept rt ctx w ≡ ok w'
    → (g : Wager) × (lookup ctx.wager w.wagers ≡ some g)
      × (g.state ≡ active)
      × (leb_ℤ w.clock g.deadline_resolve ≡ true)
      × (is_participant g ctx.acceptor ≡ true)
      × (g.cancel_proposed_by ≢ default_key)
      × (ctx.acceptor ≢ g.cancel_proposed_by)
      × (rt.associated_address g.mint g.side_a ≡ ctx.side_a_token)
      × (rt.associated_address g.mint g.side_b ≡ ctx.side_b_token)
      × (rt.associated_address g.mint ctx.wager ≡ ctx.vault)
      × (ctx.fee_token ≡ g.fee_destination)
      × (ctx.rent_collector ≡ g.rent_collector)
      × (ctx.rent_collector ≢ ctx.wager)
      × (w'.rents ≡ (ctx.wager, ctx.rent_collector) ∷ (ctx.vault, ctx.rent_collector) ∷ w.rents)
      × IsReturned ctx g.stake w.tokens w'.tokens
cancel_accept-returns rt laws ctx w apart h =
    let s = cancel_accept-ok rt laws ctx w h in
    (
      s.wager,
      s.wager_at.found,
      s.allowed.is_active,
      s.allowed.in_time,
      s.allowed.participant,
      s.allowed.is_open,
      s.allowed.other,
      rw (← s.side_a_pinned) s.target_a_at.address,
      rw (← s.side_b_pinned) s.target_b_at.address,
      s.vault_at.address,
      s.fee_pinned,
      s.rent_pinned,
      s.rent_apart,
      ap (λ (x : World). x.rents) s.result,
      Accepted-IsReturned rt ctx w apart s,
    )
