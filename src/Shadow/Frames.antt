-- ===== src/Shadow/Frames.antt =====
-- What a flow on one wager leaves alone, on the chain and in the shadow model.
use shake_escrow.Base.{
  ℕ, ◌+◌, ◌-◌, ◌≡◌, ◌≢◌, Bool, true, false, Option, none, some, ◌==◌, ==_iff, Bool-cases, inl, inr,
  arith, ap, ◌∙◌, subst, refl, if◌then◌else◌,
}
use shake_escrow.Base.Dict.{lookup, insert, lookup-insert}
use shake_escrow.State.{Pubkey}
use shake_escrow.Runtime.{Runtime, Tokens, TokenAccount}
use shake_escrow.Runtime.Laws.{AddressLaws, balance, moved}
use shake_escrow.World.{World}
use shake_escrow.World.Loads.{WagerAt}
use shake_escrow.State.{Wager}
use shake_escrow.Instructions.Payout.Payments.{moved-from, moved-to, moved-other}
use shake_escrow.Shadow.{MWager, Shadow}
use shake_escrow.Shadow.Circulation.{circulating}
use shake_escrow.Shadow.Sending.{Fixture, ata}
use shake_escrow.Shadow.Coupling.{IsLive, Mirrors, unborn, live, gone, Coupled, Follows}

module _ (rt : Runtime) (fx : Fixture) where
  pub Mirrors-keep :
      (w w' : World) (k : Pubkey) {o : Option MWager}
      → lookup k w'.wagers ≡ lookup k w.wagers
      → w'.tokens (ata rt fx k) ≡ w.tokens (ata rt fx k)
      → Mirrors rt fx w k o
      → Mirrors rt fx w' k o
  Mirrors-keep w w' k same_wager same_vault (unborn none_at empty) =
      unborn (same_wager ∙ none_at) (rw same_vault empty)
  Mirrors-keep w w' k same_wager same_vault (live l) = live (record {
    is_open = l.is_open;
    nonce = l.nonce;
    bump = l.bump;
    found = same_wager ∙ l.found;
    vaulted = rw same_vault l.vaulted;
    side_0_actor = l.side_0_actor;
    side_1_actor = l.side_1_actor;
    proposer_real = l.proposer_real;
  })
  Mirrors-keep w w' k same_wager same_vault (gone over none_at none_there) =
      gone over (same_wager ∙ none_at) (same_vault ∙ none_there)

  -- The accounts of every wager but the one at `k`.
  abbrev pub KeepsOthers : World → World → Pubkey → Type 0
  KeepsOthers w w' k =
      (j : Pubkey)
      → rt.can_sign j ≡ false
      → j ≢ k
      → (lookup j w'.wagers ≡ lookup j w.wagers)
        × (w'.tokens (ata rt fx j) ≡ w.tokens (ata rt fx j))

  pub Mirrors-insert :
      (w w' : World) (m : Shadow) (k : Pubkey) (g : MWager)
      → Coupled rt fx w m
      → KeepsOthers w w' k
      → Mirrors rt fx w' k (some g)
      → (j : Pubkey) → rt.can_sign j ≡ false
      → Mirrors rt fx w' j (lookup j (insert k g m.wagers))
  Mirrors-insert w w' m k g co others here j cannot = elim (Bool-cases (j == k)) [
    | inl same ↦ rw (lookup-insert j k g m.wagers, same, (==_iff j k).0 same) here
    | inr other ↦
        let (same_wager, same_vault) = others j cannot (ground arith) in
        rw (lookup-insert j k g m.wagers, other)
          (Mirrors-keep w w' j same_wager same_vault (co.mirrors j cannot))
  ]

  IsLive-of :
      (w : World) (k : Pubkey) (g : MWager) {found : Wager}
      → Mirrors rt fx w k (some g)
      → lookup k w.wagers ≡ some found
      → IsLive rt fx w k g
  IsLive-of w k g (live l) at = l
  IsLive-of w k g (gone over none_at none_there) at = cc

  module _ (laws : AddressLaws rt) where
    -- A wager that the program finds under a key of the model is live there.
    pub IsLive-at :
        (w : World) (m : Shadow) (k : Pubkey) (g : MWager) {found : Wager}
        → Coupled rt fx w m
        → lookup k m.wagers ≡ some g
        → WagerAt rt k w found
        → IsLive rt fx w k g
    IsLive-at w m k g co known at =
        IsLive-of w k g
          (subst (Mirrors rt fx w k) known (co.mirrors k (laws.off_curve _ _ _ at.address)))
          at.found

    -- Different wallets have different token accounts.
    pub ata_apart : (x y : Pubkey) → x ≢ y → ata rt fx x ≢ ata rt fx y
    ata_apart x y ne e = ne (laws.associated_injective fx.mint x y e)

    pub signs_apart : (x k : Pubkey) → rt.can_sign x ≡ true → rt.can_sign k ≡ false → x ≢ k
    signs_apart x k signs cannot e = cc (signs, cannot, ap rt.can_sign e)

    -- A transfer between the associated accounts of two wallets, by the wallets.
    module _ (a b : Pubkey) (n : ℕ) (t : Tokens) (from to : TokenAccount) (apart : a ≢ b)
        (from_at : t (ata rt fx a) ≡ some from) (to_at : t (ata rt fx b) ≡ some to) where
      pub moved_source :
          balance (moved (ata rt fx a) (ata rt fx b) n t) (ata rt fx a)
          ≡ balance t (ata rt fx a) - n
      moved_source =
          rw
            (moved-from (ata rt fx a) (ata rt fx b) n t from (ata_apart a b apart) from_at, from_at)
            refl

      pub moved_target :
          balance (moved (ata rt fx a) (ata rt fx b) n t) (ata rt fx b)
          ≡ balance t (ata rt fx b) + n
      moved_target =
          rw (moved-to (ata rt fx a) (ata rt fx b) n t to (ata_apart a b apart) to_at, to_at) refl

    pub moved_elsewhere :
        (a b x : Pubkey) (n : ℕ) (t : Tokens)
        → x ≢ a
        → x ≢ b
        → moved (ata rt fx a) (ata rt fx b) n t (ata rt fx x) ≡ t (ata rt fx x)
    moved_elsewhere a b x n t na nb =
        moved-other (ata rt fx a) (ata rt fx b) (ata rt fx x) n t (ata_apart x a na)
          (ata_apart x b nb)

pub Follows-if :
    (rt : Runtime) (fx : Fixture) (w' : World) (m : Shadow) (b : Bool) (m' : Shadow)
    → b ≡ true
    → Coupled rt fx w' m'
    → circulating fx m' ≡ circulating fx m
    → Follows rt fx w' m (if b then some m' else none)
Follows-if rt fx w' m b m' e co conserved = (m', rw e refl, co, conserved)
