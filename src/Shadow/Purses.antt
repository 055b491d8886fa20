-- ===== src/Shadow/Purses.antt =====
-- A stake on its way between an actor's token account and a vault, on the chain and in the model.
use shake_escrow.Base.{
  ℕ, ◌≡◌, ◌≢◌, ◌+◌, ◌-◌, true, false, some, ◌==◌, ==_iff, Bool-cases, inl, inr, arith, ap, sym, ◌∙◌,
}
use shake_escrow.Base.Dict.{update}
use shake_escrow.State.{Pubkey, ExposureCounter}
use shake_escrow.Custody.{count_of}
use shake_escrow.Custody.Counters.{count_of-update}
use shake_escrow.Runtime.{Runtime, TokenAccount}
use shake_escrow.Runtime.Laws.{AddressLaws, balance, moved}
use shake_escrow.World.{World}
use shake_escrow.Shadow.{Shadow}
use shake_escrow.Shadow.Flows.{raise, lower}
use shake_escrow.Shadow.Sending.{Fixture, counter_pda, ata, fee_token}
use shake_escrow.Shadow.Coupling.{IsActor, Coupled}
use shake_escrow.Shadow.Frames.{signs_apart, moved_source, moved_target, moved_elsewhere}

-- A write to one wallet's counter.
pub counters-update :
    (rt : Runtime) (fx : Fixture)
    → AddressLaws rt
    → (w : World) (m : Shadow) (x : Pubkey) (c : ExposureCounter) (n : ℕ) → Coupled rt fx w m
    → c.count ≡ n
    → (y : Pubkey)
    → count_of (update w.counters (counter_pda rt fx x) (some c) (counter_pda rt fx y))
      ≡ update m.counters x n y
counters-update rt fx laws w m x c n co e y =
    count_of-update rt laws w.counters x y c ∙ ground (arith, co.counters y)

module _ (rt : Runtime) (fx : Fixture) (laws : AddressLaws rt)
    (agent_signs : rt.can_sign fx.agent ≡ true) (w : World) (m : Shadow) (co : Coupled rt fx w m)
    (a k : Pubkey) (actor : IsActor rt fx a) (cannot : rt.can_sign k ≡ false) (n : ℕ)
    (purse vault : TokenAccount) (purse_at : w.tokens (ata rt fx a) ≡ some purse)
    (vault_at : w.tokens (ata rt fx k) ≡ some vault) where
  abbrev home : Pubkey → Pubkey
  home = ata rt fx

  actor-vault : a ≢ k
  actor-vault = signs_apart rt fx laws a k actor.signs cannot

  vault-actor : k ≢ a
  vault-actor e = actor-vault (sym e)

  agent-vault : fx.agent ≢ k
  agent-vault = signs_apart rt fx laws fx.agent k agent_signs cannot

  agent-actor : fx.agent ≢ a
  agent-actor e = actor.not_agent (sym e)

  pub deposited :
      (x : Pubkey)
      → IsActor rt fx x
      → balance (moved (home a) (home k) n w.tokens) (home x) ≡ lower n a m.balances x
  deposited x other = elim (Bool-cases (x == a)) [
    | inl same ↦
        let e = (==_iff x a).0 same in
        rw (same, e)
          (moved_source rt fx laws a k n w.tokens purse vault actor-vault purse_at vault_at
            ∙ ap (λ b. b - n) (co.balances a actor))
    | inr apart ↦ rw apart (
        ap (λ o. balance (λ y. o) 0)
          (moved_elsewhere rt fx laws a k x n w.tokens (ground arith)
            (signs_apart rt fx laws x k other.signs cannot))
        ∙ co.balances x other)
  ]

  pub withdrawn :
      (x : Pubkey)
      → IsActor rt fx x
      → balance (moved (home k) (home a) n w.tokens) (home x) ≡ raise n a m.balances x
  withdrawn x other = elim (Bool-cases (x == a)) [
    | inl same ↦
        let e = (==_iff x a).0 same in
        rw (same, e)
          (moved_target rt fx laws k a n w.tokens vault purse vault-actor vault_at purse_at
            ∙ ap (λ b. b + n) (co.balances a actor))
    | inr apart ↦ rw apart (
        ap (λ o. balance (λ y. o) 0)
          (moved_elsewhere rt fx laws k a x n w.tokens
            (signs_apart rt fx laws x k other.signs cannot) (ground arith))
        ∙ co.balances x other)
  ]

  pub deposit-fees : balance (moved (home a) (home k) n w.tokens) (fee_token rt fx) ≡ m.fee_balance
  deposit-fees =
      ap (λ o. balance (λ y. o) 0)
        (moved_elsewhere rt fx laws a k fx.agent n w.tokens agent-actor agent-vault)
      ∙ co.fee_balance

  pub withdraw-fees : balance (moved (home k) (home a) n w.tokens) (fee_token rt fx) ≡ m.fee_balance
  withdraw-fees =
      ap (λ o. balance (λ y. o) 0)
        (moved_elsewhere rt fx laws k a fx.agent n w.tokens agent-vault agent-actor)
      ∙ co.fee_balance

  pub deposit-vault :
      balance (moved (home a) (home k) n w.tokens) (home k) ≡ balance w.tokens (home k) + n
  deposit-vault = moved_target rt fx laws a k n w.tokens purse vault actor-vault purse_at vault_at

  pub withdraw-vault :
      balance (moved (home k) (home a) n w.tokens) (home k) ≡ balance w.tokens (home k) - n
  withdraw-vault = moved_source rt fx laws k a n w.tokens vault purse vault-actor vault_at purse_at

  pub deposit-others :
      (j : Pubkey)
      → rt.can_sign j ≡ false
      → j ≢ k
      → moved (home a) (home k) n w.tokens (home j) ≡ w.tokens (home j)
  deposit-others j no_key ne =
      moved_elsewhere rt fx laws a k j n w.tokens
        (λ e. signs_apart rt fx laws a j actor.signs no_key (sym e)) ne

  pub withdraw-others :
      (j : Pubkey)
      → rt.can_sign j ≡ false
      → j ≢ k
      → moved (home k) (home a) n w.tokens (home j) ≡ w.tokens (home j)
  withdraw-others j no_key ne =
      moved_elsewhere rt fx laws k a j n w.tokens ne
        (λ e. signs_apart rt fx laws a j actor.signs no_key (sym e))
