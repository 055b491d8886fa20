-- ===== src/Lifecycle.antt =====
-- The life of one wager under every instruction: its states (state.rs), the terms that creation
-- fixed, and the ways in which its account goes away.
pub mod Deals
pub mod Fates
pub mod Windows
use shake_escrow.Base.{◌≡◌, ◌⊎◌, true, none, some}
use shake_escrow.Base.Int.{ℤ, leb_ℤ}
use shake_escrow.Base.Dict.{lookup}
use shake_escrow.State.{Pubkey, Wager, WagerState, funding, active, fully_exited}
use shake_escrow.World.{World}
use shake_escrow.Instructions.CloseExpired.{close_due}

-- What creation fixes: the sides, the stake, the resolver, the terms, the deadlines and the snapshot
-- of the config.
pub record SameDeal (g g' : Wager) : Type 0 where
  pub side_a : g'.side_a ≡ g.side_a
  pub side_b : g'.side_b ≡ g.side_b
  pub stake : g'.stake ≡ g.stake
  pub mint : g'.mint ≡ g.mint
  pub resolver : g'.resolver ≡ g.resolver
  pub terms_hash : g'.terms_hash ≡ g.terms_hash
  pub deadline_fund : g'.deadline_fund ≡ g.deadline_fund
  pub deadline_resolve : g'.deadline_resolve ≡ g.deadline_resolve
  pub fee_bps : g'.fee_bps ≡ g.fee_bps
  pub fee_destination : g'.fee_destination ≡ g.fee_destination
  pub rent_collector : g'.rent_collector ≡ g.rent_collector
  pub nonce : g'.nonce ≡ g.nonce
  pub bump : g'.bump ≡ g.bump

-- A live wager stays in its state, or is locked.
pub data Edge : WagerState → WagerState → Type 0 where
  stay : {s : WagerState} → Edge s s
  lock : Edge funding active

-- When an account may go: it is locked and the resolve deadline is not over, or the close is due and
-- every funded side has left.
abbrev pub MayGo : Wager → ℤ → Type 0
MayGo g now =
    ((g.state ≡ active) × (leb_ℤ now g.deadline_resolve ≡ true))
    ⊎ ((close_due g.state now g.deadline_fund g.deadline_resolve ≡ true) × (fully_exited g ≡ true))

-- What one instruction does to the wager `g` at `k`.
pub data Fate (w w' : World) (k : Pubkey) (g : Wager) : Type 0 where
  lives :
      (g' : Wager)
      → lookup k w'.wagers ≡ some g'
      → SameDeal g g'
      → Edge g.state g'.state
      → Fate w w' k g
  gone : lookup k w'.wagers ≡ none → MayGo g w.clock → Fate w w' k g
