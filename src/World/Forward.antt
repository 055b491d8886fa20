-- ===== src/World/Forward.antt =====
-- When a load, or a call of the token program, succeeds.
use shake_escrow.Base.{ℕ, ◌≡◌, true, some, ok, arith, refl, Option-cases, inl, inr}
use shake_escrow.State.{Pubkey, Wager, ExposureCounter}
use shake_escrow.Runtime.{Runtime, TokenAccount}
use shake_escrow.Runtime.Addresses.{is_some_key}
use shake_escrow.Runtime.Laws.{TokenLaws, IsTransferable}
use shake_escrow.World.{World, load_wager, load_counter, load_associated, transfer}
use shake_escrow.World.Loads.{WagerAt, CounterAt, AssociatedAt}

is_some_key_self : (k : Pubkey) → is_some_key (some k) k ≡ true
is_some_key_self k = ground arith

module _ (rt : Runtime) where
  pub load_wager-found :
      (k : Pubkey) (w : World) (g : Wager) → WagerAt rt k w g → load_wager rt k w ≡ ok g
  unfolding load_wager
  load_wager-found k w g a = rw (a.found, a.address, is_some_key_self k) refl

  pub load_counter-found :
      (k wallet : Pubkey) (w : World) (c : ExposureCounter)
      → CounterAt rt k wallet w c
      → load_counter rt k wallet w ≡ ok c
  unfolding load_counter
  load_counter-found k wallet w c a = rw (a.found, a.address, is_some_key_self k) refl

  pub load_associated-found :
      (k mint authority : Pubkey) (w : World) (a : TokenAccount)
      → AssociatedAt rt k mint authority w a
      → load_associated rt k mint authority w ≡ ok a
  unfolding load_associated
  load_associated-found k mint authority w a s = ground (arith, s.found, s.owned, s.address)

  pub transfer-succeeds :
      TokenLaws rt
      → (from to authority : Pubkey) (n : ℕ) (w : World)
      → IsTransferable w.tokens from to authority n
      → (w' : World) × (transfer rt from to authority n w ≡ ok w')
  unfolding transfer
  transfer-succeeds laws from to authority n w can =
      elim (Option-cases (rt.transfer from to authority n w.tokens)) [
        | inl failed ↦ absurd (laws.transfer_succeeds from to authority n w.tokens can failed)
        | inr (t, paid) ↦ (record w { tokens = t }, rw paid refl)
      ]
