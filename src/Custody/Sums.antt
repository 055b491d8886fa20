-- ===== src/Custody/Sums.antt =====
-- Sums over a dictionary, such as the live wagers.
use shake_escrow.Base.{ℕ, ◌+◌, ◌≤◌, ◌≡◌, none, some, [], ◌∷◌, arith, refl}
use shake_escrow.Base.Dict.{Dict, lookup, insert, erase}
use shake_escrow.State.{Pubkey}

unfoldable pub sum_of : {V : Type 0} → (V → ℕ) → Dict V → ℕ
sum_of f [] = 0
sum_of f ((k, g) ∷ d) = f g + sum_of f d

pub sum_of-nil : {V : Type 0} (f : V → ℕ) → 0 ≡ sum_of f []
unfolding sum_of
sum_of-nil f = refl

module _ {V : Type 0} (f : V → ℕ) (k : Pubkey) where
  pub sum_of-insert :
      (g g' : V) (d : Dict V)
      → lookup k d ≡ some g
      → sum_of f (insert k g' d) + f g ≡ sum_of f d + f g'
  unfolding sum_of lookup insert
  sum_of-insert g g' [] h = cc
  sum_of-insert g g' (e ∷ d) h = ground (arith, sum_of-insert g g' d)

  pub sum_of-insert_new :
      (g' : V) (d : Dict V) → lookup k d ≡ none → sum_of f (insert k g' d) ≡ sum_of f d + f g'
  unfolding sum_of lookup insert
  sum_of-insert_new g' [] h = omega arith
  sum_of-insert_new g' (e ∷ d) h = ground (arith, sum_of-insert_new g' d)

  pub sum_of-erase :
      (g : V) (d : Dict V) → lookup k d ≡ some g → sum_of f (erase k d) + f g ≡ sum_of f d
  unfolding sum_of lookup erase
  sum_of-erase g [] h = cc
  sum_of-erase g (e ∷ d) h = ground (arith, sum_of-erase g d)

  pub le-sum_of : (g : V) (d : Dict V) → lookup k d ≡ some g → f g ≤ sum_of f d
  le-sum_of g d h = omega (arith, sum_of-erase g d h)
