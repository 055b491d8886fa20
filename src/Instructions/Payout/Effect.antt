-- ===== src/Instructions/Payout/Effect.antt =====
-- What the transfers of the program do to the token accounts, under the token program's laws; each
-- handed to a continuation.
use mathlib.Core.Path.{fun_ext}
use shake_escrow.Base.{
  ℕ, ◌≤◌, ◌≡◌, ◌∷◌, Option, none, some, Result, ok, ◌>>=◌, arith, ltb, ok-injective, Bool-cases,
  inl, inr, sym,
}
use shake_escrow.Base.Dict.{update}
use shake_escrow.State.{Pubkey}
use shake_escrow.Runtime.{Runtime, Tokens, TokenAccount}
use shake_escrow.Runtime.Laws.{TokenLaws, moved, balance, sub_amount, add_amount}
use shake_escrow.World.{World, transfer, close_account}
use shake_escrow.World.Loads.{transfer-ok, on_transfer, on_close}
use shake_escrow.Instructions.Payout.{transfer_if_positive, pay_winner_and_close_vault}

sub_amount-zero : (o : Option TokenAccount) → sub_amount 0 o ≡ o
sub_amount-zero none = ground arith
sub_amount-zero (some a) = ground arith

add_amount-zero : (o : Option TokenAccount) → add_amount 0 o ≡ o
add_amount-zero none = ground arith
add_amount-zero (some a) = ground arith

pub moved-zero : (from to : Pubkey) (t : Tokens) → moved from to 0 t ≡ t
unfolding moved
moved-zero from to t = fun_ext λ k. ground (arith, sub_amount-zero (t k), add_amount-zero (t k))

pub transfer-moves :
    (rt : Runtime)
    → TokenLaws rt
    → (from to authority : Pubkey) (n : ℕ) (w : World) {w' : World}
    → transfer rt from to authority n w ≡ ok w'
    → record w { tokens = moved from to n w.tokens } ≡ w'
transfer-moves rt laws from to authority n w h =
    let (t, paid, same) = transfer-ok rt from to authority n w h in
    rw (← (laws.transfer_moves from to authority n w.tokens t paid).1) same

module _ {ℓ κ} (rt : Runtime) (laws : TokenLaws rt) {B : Type ℓ} {C : Type κ} where
  pub on_moved :
      (from to authority : Pubkey) (n : ℕ) (w : World) (f : World → Result B) {b : B}
      → (transfer rt from to authority n w >>= f) ≡ ok b
      → (n ≤ balance w.tokens from → f (record w { tokens = moved from to n w.tokens }) ≡ ok b → C)
      → C
  on_moved from to authority n w f h go = on_transfer rt from to authority n w f h λ t paid h₁.
      let (covered, same) = laws.transfer_moves from to authority n w.tokens t paid in
      go covered (rw same at h₁)

  pub on_moved_if_positive :
      (from to authority : Pubkey) (n : ℕ) (w : World) (f : World → Result B) {b : B}
      → (transfer_if_positive rt from to authority n w >>= f) ≡ ok b
      → (n ≤ balance w.tokens from → f (record w { tokens = moved from to n w.tokens }) ≡ ok b → C)
      → C
  unfolding transfer_if_positive
  on_moved_if_positive from to authority n w f h go = elim (Bool-cases (ltb 0 n)) [
    | inl positive ↦ on_moved from to authority n w f (rw positive at h) go
    | inr not_positive ↦
        let none_left : n ≡ 0 = ground arith in
        go (omega arith) (rw (none_left, moved-zero) (rw not_positive at h))
  ]

  pub on_removed :
      (account destination authority : Pubkey) (w : World) (f : World → Result B) {b : B}
      → (close_account rt account destination authority w >>= f) ≡ ok b
      → (balance w.tokens account ≡ 0
          → f (record w {
            tokens = update w.tokens account none;
            rents = (account, destination) ∷ w.rents;
          })
            ≡ ok b
          → C)
      → C
  on_removed account destination authority w f h go =
      on_close rt account destination authority w f h λ t closed h₁.
        let (empty, same) = laws.close_removes account destination authority w.tokens t closed in
        go empty (rw same at h₁)

-- The vault's accounts after a settlement: the payout, the fee, the sweep of the rest, the close.
abbrev pub paid_out : (vault winner_token fee_token : Pubkey) (payout fee : ℕ) → Tokens → Tokens
paid_out vault winner_token fee_token payout fee t =
    let t₁ = moved vault winner_token payout t in
    let t₂ = moved vault fee_token fee t₁ in
    update (moved vault fee_token (balance t₂ vault) t₂) vault none

abbrev pub swept_after : (vault winner_token fee_token : Pubkey) (payout fee : ℕ) → Tokens → ℕ
swept_after vault winner_token fee_token payout fee t =
    balance (moved vault fee_token fee (moved vault winner_token payout t)) vault

pub pay_winner_and_close_vault-ok :
    (rt : Runtime)
    → TokenLaws rt
    → (wager vault winner_token fee_token rent_collector : Pubkey) (payout fee : ℕ) (w : World)
      {r : ℕ × World}
    → pay_winner_and_close_vault rt wager vault winner_token fee_token rent_collector payout fee w
      ≡ ok r
    → (payout ≤ balance w.tokens vault)
      × (fee ≤ balance (moved vault winner_token payout w.tokens) vault)
      × (r ≡ (
        swept_after vault winner_token fee_token payout fee w.tokens,
        record w {
          tokens = paid_out vault winner_token fee_token payout fee w.tokens;
          rents = (vault, rent_collector) ∷ w.rents;
        },
      ))
unfolding pay_winner_and_close_vault
pay_winner_and_close_vault-ok rt laws wager vault winner_token fee_token rent_collector payout fee w
      h =
    on_moved rt laws vault winner_token wager payout w _ h λ covered h₁.
      on_moved_if_positive rt laws vault fee_token wager fee _ _ h₁ λ fee_covered h₂.
        on_moved_if_positive rt laws vault fee_token wager _ _ _ h₂ λ rest_covered h₃.
          on_removed rt laws vault rent_collector wager _ _ h₃
            λ emptied last. (covered, fee_covered, sym (ok-injective last))
