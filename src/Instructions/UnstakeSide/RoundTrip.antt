-- ===== src/Instructions/UnstakeSide/RoundTrip.antt =====
-- stake_side.rs and unstake_side.rs, one after the other.
use shake_escrow.Base.{
  ℕ, ◌+◌, ◌-◌, ◌≡◌, ◌≢◌, Option, none, Bool, true, false, some, ok, arith, refl, ap, sym, ◌∙◌, ◌==◌,
  if◌then◌else◌, Bool-cases, ==_iff, ◌≤◌, inl, inr, subst,
}
use shake_escrow.Lifecycle.Deals.{fund-SameDeal}
use shake_escrow.Base.Dict.{Dict, lookup, insert, update, lookup-insert}
use shake_escrow.State.{Pubkey, Wager, ExposureCounter, funding, active}
use shake_escrow.Runtime.{Runtime, Tokens, TokenAccount}
use shake_escrow.Runtime.Laws.{TokenLaws, moved}
use shake_escrow.World.{World}
use shake_escrow.Custody.{total_of, count_of}
use shake_escrow.Instructions.Payout.Payments.{moved-from, moved-to, moved-other}
use shake_escrow.Instructions.StakeSide.{
  StakeSide, stake_side, fund, lock_if_funded, both_funded, counter_or_new,
}
use shake_escrow.Instructions.StakeSide.Effect.{stake_side-ok}
use shake_escrow.Instructions.UnstakeSide.{UnstakeSide, unstake_side, unfund}
use shake_escrow.Instructions.UnstakeSide.Effect.{unstake_side-ok}

active-ne-funding : active ≢ funding
active-ne-funding h = cc

not_locked :
    (g : Wager) (both : Bool)
    → (if both then record g { state = active } else g).state ≡ funding
    → (if both then record g { state = active } else g) ≡ g
not_locked g true h = absurd (active-ne-funding h)
not_locked g false h = refl

unfund-fund :
    (g : Wager) (is_a : Bool)
    → (if is_a then g.funded_a else g.funded_b) ≡ false
    → unfund is_a (fund is_a g) ≡ g
unfund-fund g true e = ap (λ b. record g { funded_a = b }) (sym e)
unfund-fund g false e = ap (λ b. record g { funded_b = b }) (sym e)

unfund-lock :
    (g : Wager) (is_a : Bool)
    → (if is_a then g.funded_a else g.funded_b) ≡ false
    → (lock_if_funded (fund is_a g)).state ≡ funding
    → unfund is_a (lock_if_funded (fund is_a g)) ≡ g
unfund-lock g is_a e f =
    ap (unfund is_a) (not_locked (fund is_a g) (both_funded (fund is_a g)) f) ∙ unfund-fund g is_a e

refilled : (a : TokenAccount) (n : ℕ) → n ≤ a.amount → record a { amount = a.amount - n + n } ≡ a
refilled a n h =
    let same : a.amount - n + n ≡ a.amount = omega arith in ap (λ m. record a { amount = m }) same

drained : (a : TokenAccount) (n : ℕ) → record a { amount = a.amount + n - n } ≡ a
drained a n =
    let same : a.amount + n - n ≡ a.amount = omega arith in ap (λ m. record a { amount = m }) same

-- A payment that is paid back restores every account.
moved-back :
    (x v : Pubkey) (n : ℕ) (t : Tokens) (a b : TokenAccount)
    → x ≢ v
    → t x ≡ some a
    → t v ≡ some b
    → n ≤ a.amount
    → (k : Pubkey) → moved v x n (moved x v n t) k ≡ t k
moved-back x v n t a b ne at_x at_v covered k =
    let back : v ≢ x = λ e. ne (sym e) in
    let t₁ = moved x v n t in
    elim (Bool-cases (k == x)) [
      | inl e ↦
          subst (λ j. moved v x n t₁ j ≡ t j) (sym ((==_iff k x).0 e))
            (moved-to v x n t₁ _ back (moved-from x v n t a ne at_x)
              ∙ (ap some (refilled a n covered) ∙ sym at_x))
      | inr kx ↦ elim (Bool-cases (k == v)) [
        | inl e ↦
            subst (λ j. moved v x n t₁ j ≡ t j) (sym ((==_iff k v).0 e))
              (moved-from v x n t₁ _ back (moved-to x v n t b ne at_v)
                ∙ (ap some (drained b n) ∙ sym at_v))
        | inr kv ↦
            let not_x : k ≢ x = ground arith in
            let not_v : k ≢ v = ground arith in
            moved-other v x k n t₁ not_v not_x ∙ moved-other x v k n t not_x not_v
      ]
    ]

-- The wager that the withdrawal finds is the one that the stake wrote.
found_again :
    (at : Pubkey) (g h : Wager) (d d' : Dict Wager)
    → d' ≡ insert at g d
    → lookup at d' ≡ some h
    → g ≡ h
found_again at g h d d' e found =
    let self : lookup at (insert at g d) ≡ some g = lookup-insert at at g d ∙ ground arith in
    cc (e, self, found)

written_count :
    (f : Pubkey → Option ExposureCounter) (k : Pubkey) (c : ExposureCounter)
    → count_of (update f k (some c) k) ≡ c.count
written_count f k c = ground arith

counter_or_new-count : (o : Option ExposureCounter) → (counter_or_new o).count ≡ count_of o
counter_or_new-count none = refl
counter_or_new-count (some c) = refl

restored_wagers :
    (at : Pubkey) (g h : Wager) (staker : Pubkey) (d d' : Dict Wager)
    → lookup at d ≡ some g
    → d' ≡ insert at (lock_if_funded (fund (staker == g.side_a) g)) d
    → lookup at d' ≡ some h
    → (if staker == g.side_a then g.funded_a else g.funded_b) ≡ false
    → h.state ≡ funding
    → (k : Pubkey) → lookup k (insert at (unfund (staker == h.side_a) h) d') ≡ lookup k d
restored_wagers at g h staker d d' found e found' free funds k =
    let staked = lock_if_funded (fund (staker == g.side_a) g) in
    let now : staked ≡ h = found_again at staked h d d' e found' in
    let side : staked.side_a ≡ g.side_a = (fund-SameDeal g (staker == g.side_a)).side_a in
    let restored : unfund (staker == staked.side_a) staked ≡ g =
      ap (λ x. unfund (staker == x) staked) side
      ∙ unfund-lock g (staker == g.side_a) free (rw now funds) in
    let restored' : unfund (staker == h.side_a) h ≡ g =
      subst (λ (x : Wager). unfund (staker == x.side_a) x ≡ g) now restored in
    rw (e, restored')
      (lookup-insert k at g (insert at staked d) ∙ elim (Bool-cases (k == at)) [
        | inl same ↦ rw (same, (==_iff k at).0 same) (sym found)
        | inr other ↦ rw other (lookup-insert k at staked d ∙ rw other refl)
      ])

-- The withdrawal of a stake, through the same accounts.
abbrev pub withdrawal : StakeSide → UnstakeSide
withdrawal ctx = record {
  staker = ctx.staker;
  wager = ctx.wager;
  counter = ctx.counter;
  staker_token = ctx.staker_token;
  vault = ctx.vault;
}

-- A stake and then its withdrawal, both successful and through the same two token accounts, leave the
-- wagers, every token account, the global open value and the wallet's count as they were.
-- It is stated under the laws of the token program.
pub unstake_side-stake_side :
    (rt : Runtime)
    → TokenLaws rt
    → (ctx : StakeSide) (w : World) {w₁ w₂ : World} → ctx.staker_token ≢ ctx.vault
    → stake_side rt ctx w ≡ ok w₁
    → unstake_side rt (withdrawal ctx) w₁ ≡ ok w₂
    → ((k : Pubkey) → lookup k w₂.wagers ≡ lookup k w.wagers)
      × ((k : Pubkey) → w₂.tokens k ≡ w.tokens k)
      × (total_of w₂.config ≡ total_of w.config)
      × (count_of (w₂.counters ctx.counter) ≡ count_of (w.counters ctx.counter))
unstake_side-stake_side rt laws ctx w {w₁} {w₂} apart h h' =
    let s = stake_side-ok rt ctx w h in
    let u = unstake_side-ok rt laws (withdrawal ctx) w₁ h' in
    let (covered, paid) = laws.transfer_moves _ _ _ _ _ _ s.paid in
    let is_a = ctx.staker == s.wager.side_a in
    let now =
      found_again ctx.wager (lock_if_funded (fund is_a s.wager)) u.wager w.wagers w₁.wagers
        (ap (λ (x : World). x.wagers) s.result) u.wager_at.found in
    let same_stake : u.wager.stake ≡ s.wager.stake =
      ap (λ (g : Wager). g.stake) (sym now) ∙ (fund-SameDeal s.wager is_a).stake in
    let tokens₁ : w₁.tokens ≡ moved ctx.staker_token ctx.vault s.wager.stake w.tokens =
      ap (λ (x : World). x.tokens) s.result ∙ paid in
    let tokens₂ : w₂.tokens ≡ moved ctx.vault ctx.staker_token u.wager.stake w₁.tokens =
      ap (λ (x : World). x.tokens) u.result in
    let total₁ : u.config.total_open_value ≡ s.config.total_open_value + s.wager.stake =
      ap total_of (sym u.config_at ∙ ap (λ (x : World). x.config) s.result) in
    let total₂ : total_of w₂.config ≡ u.config.total_open_value - u.wager.stake =
      ap (λ (x : World). total_of x.config) u.result in
    let count₁ : u.counter.count ≡ count_of (w.counters ctx.counter) + 1 =
      ap count_of (sym u.counter_at.found ∙ ap (λ (x : World). x.counters ctx.counter) s.result)
      ∙ (written_count w.counters ctx.counter _
          ∙ ap (λ n. n + 1) (counter_or_new-count (w.counters ctx.counter))) in
    let count₂ : count_of (w₂.counters ctx.counter) ≡ u.counter.count - 1 =
      ap (λ (x : World). count_of (x.counters ctx.counter)) u.result
      ∙ written_count w₁.counters ctx.counter _ in
    (
      λ k.
          ap (λ (x : World). lookup k x.wagers) u.result
          ∙ restored_wagers ctx.wager s.wager u.wager ctx.staker w.wagers w₁.wagers s.wager_at.found
              (ap (λ (x : World). x.wagers) s.result) u.wager_at.found s.allowed.unfunded
              u.allowed.is_funding k,
      λ k.
          rw (tokens₂, tokens₁, same_stake)
            (moved-back ctx.staker_token ctx.vault s.wager.stake w.tokens s.source s.vault apart
              s.source_at s.vault_at.found (rw s.source_at at covered) k),
      omega (arith, total₁, total₂, same_stake, ap total_of s.config_at),
      omega (arith, count₁, count₂),
    )
