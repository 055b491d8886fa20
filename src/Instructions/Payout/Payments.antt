-- ===== src/Instructions/Payout/Payments.antt =====
-- Where the money of a settlement goes, account by account.
use shake_escrow.Base.{ℕ, ◌+◌, ◌-◌, ◌≤◌, ◌≡◌, ◌≢◌, none, some, arith, ap, refl, ◌∙◌, sym}
use shake_escrow.Base.Dict.{update}
use shake_escrow.State.{Pubkey}
use shake_escrow.Runtime.{Tokens, TokenAccount}
use shake_escrow.Runtime.Laws.{balance, moved}
use shake_escrow.Instructions.Payout.Effect.{paid_out}

-- The two ends of a payment, and every other account.

pub moved-from :
    (from to : Pubkey) (n : ℕ) (t : Tokens) (a : TokenAccount)
    → from ≢ to
    → t from ≡ some a
    → moved from to n t from ≡ some (record a { amount = a.amount - n })
unfolding moved
moved-from from to n t a ne at = ground (arith, at)

pub moved-to :
    (from to : Pubkey) (n : ℕ) (t : Tokens) (a : TokenAccount)
    → from ≢ to
    → t to ≡ some a
    → moved from to n t to ≡ some (record a { amount = a.amount + n })
unfolding moved
moved-to from to n t a ne at = ground (arith, at)

pub moved-other :
    (from to k : Pubkey) (n : ℕ) (t : Tokens) → k ≢ from → k ≢ to → moved from to n t k ≡ t k
unfolding moved
moved-other from to k n t ne ne' = ground arith

pub removed_self : (v : Pubkey) (t : Tokens) → update t v none v ≡ none
removed_self v t = ground arith

pub removed-other : (v k : Pubkey) (t : Tokens) → k ≢ v → update t v none k ≡ t k
removed-other v k t ne = ground arith

pub amount_at : (t : Tokens) (k : Pubkey) (a : TokenAccount) → t k ≡ some a → balance t k ≡ a.amount
amount_at t k a h = rw h refl

-- The vault pays the winner, gives all the rest to the fee account and is gone; no other account
-- changes.
pub record IsPaidOut (vault winner_token fee_token : Pubkey) (payout : ℕ) (t t' : Tokens)
    : Type 0 where
  pub vault_closed : t' vault ≡ none
  pub winner_paid : balance t' winner_token ≡ balance t winner_token + payout
  pub fee_paid : balance t' fee_token ≡ balance t fee_token + (balance t vault - payout)
  pub others_kept : (k : Pubkey) → k ≢ vault → k ≢ winner_token → k ≢ fee_token → t' k ≡ t k

pub paid_out-IsPaidOut :
    (v x f : Pubkey) (payout fee : ℕ) (t : Tokens) (a b c : TokenAccount)
    → v ≢ x
    → v ≢ f
    → x ≢ f
    → t v ≡ some a
    → t x ≡ some b
    → t f ≡ some c
    → payout ≤ balance t v
    → fee ≤ balance (moved v x payout t) v
    → IsPaidOut v x f payout t (paid_out v x f payout fee t)
paid_out-IsPaidOut v x f payout fee t a b c vx vf xf at_v at_x at_f covered fee_covered =
    let t₁ = moved v x payout t in
    let v₁ = moved-from v x payout t a vx at_v in
    let x₁ = moved-to v x payout t b vx at_x in
    let f₁ : t₁ f ≡ some c =
      moved-other v x f payout t (λ e. vf (sym e)) (λ e. xf (sym e)) ∙ at_f in
    let t₂ = moved v f fee t₁ in
    let v₂ = moved-from v f fee t₁ _ vf v₁ in
    let f₂ = moved-to v f fee t₁ _ vf f₁ in
    let x₂ = moved-other v f x fee t₁ (λ e. vx (sym e)) xf ∙ x₁ in
    let n = balance t₂ v in
    let f₃ = moved-to v f n t₂ _ vf f₂ in
    let x₃ = moved-other v f x n t₂ (λ e. vx (sym e)) xf ∙ x₂ in
    let xv : x ≢ v = λ e. vx (sym e) in
    let fv : f ≢ v = λ e. vf (sym e) in
    let left = amount_at t₂ v _ v₂ in
    let had = amount_at t v a at_v in
    let left_before = amount_at t₁ v _ v₁ in
    record {
      vault_closed = removed_self v (moved v f n t₂);
      winner_paid =
          amount_at (paid_out v x f payout fee t) x _ (removed-other v x (moved v f n t₂) xv ∙ x₃)
          ∙ ap (λ m. m + payout) (sym (amount_at t x b at_x));
      fee_paid = omega (
        arith,
        amount_at (paid_out v x f payout fee t) f _ (removed-other v f (moved v f n t₂) fv ∙ f₃),
        amount_at t f c at_f,
        left,
        had,
        left_before,
        covered,
        fee_covered,
      );
      others_kept = λ k kv kx kf.
          removed-other v k (moved v f n t₂) kv
          ∙ (moved-other v f k n t₂ kv kf
              ∙ (moved-other v f k fee t₁ kv kf ∙ moved-other v x k payout t kv kx));
    }
