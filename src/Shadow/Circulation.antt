-- ===== src/Shadow/Circulation.antt =====
-- The sum that `check_invariants` of trident-tests/fuzz_0/test_fuzz.rs compares with what was minted.
use shake_escrow.Base.{
  ℕ, ◌+◌, ◌≤◌, ◌≡◌, true, false, some, List, [], ◌∷◌, arith, if◌then◌else◌, refl,
}
use shake_escrow.Base.Lists.{contains}
use shake_escrow.Base.Dict.{Dict, lookup, insert}
use shake_escrow.State.{Pubkey}
use shake_escrow.Custody.{sum_of, sum_of-insert}
use shake_escrow.Shadow.{MWager, vault_expected, Shadow}
use shake_escrow.Shadow.Flows.{raise, lower}
use shake_escrow.Shadow.Sending.{Fixture}

unfoldable pub sum_over : List Pubkey → (Pubkey → ℕ) → ℕ
sum_over [] f = 0
sum_over (x ∷ xs) f = f x + sum_over xs f

-- Every key of a list stands once.
abbrev pub IsDistinct : List Pubkey → Type 0
IsDistinct [] = Unit
IsDistinct (x ∷ xs) = (contains xs x ≡ false) × IsDistinct xs

-- A closed vault counts for nothing.
abbrev pub vault_of : MWager → ℕ
vault_of g = if g.closed then 0 else vault_expected g

abbrev pub circulating : Fixture → Shadow → ℕ
circulating fx m = sum_over fx.actors m.balances + m.fee_balance + sum_of vault_of m.wagers

pub vault_of-open : (g : MWager) → g.closed ≡ false → vault_of g ≡ vault_expected g
vault_of-open g e = ground arith

module _ (x : Pubkey) (n : ℕ) (f : Pubkey → ℕ) where
  sum_over-raise_absent :
      (xs : List Pubkey) → contains xs x ≡ false → sum_over xs (raise n x f) ≡ sum_over xs f
  unfolding sum_over contains
  sum_over-raise_absent [] h = refl
  sum_over-raise_absent (y ∷ ys) h = ground (arith, sum_over-raise_absent ys)

  sum_over-lower_absent :
      (xs : List Pubkey) → contains xs x ≡ false → sum_over xs (lower n x f) ≡ sum_over xs f
  unfolding sum_over contains
  sum_over-lower_absent [] h = refl
  sum_over-lower_absent (y ∷ ys) h = ground (arith, sum_over-lower_absent ys)

  pub sum_over-raise :
      (xs : List Pubkey)
      → IsDistinct xs
      → contains xs x ≡ true
      → sum_over xs (raise n x f) ≡ sum_over xs f + n
  unfolding sum_over contains
  sum_over-raise [] d h = cc
  sum_over-raise (y ∷ ys) d h = ground (arith, sum_over-raise ys d.1, sum_over-raise_absent ys, d.0)

  pub sum_over-lower :
      (xs : List Pubkey)
      → IsDistinct xs
      → contains xs x ≡ true
      → n ≤ f x
      → sum_over xs (lower n x f) + n ≡ sum_over xs f
  unfolding sum_over contains
  sum_over-lower [] d h le = cc
  sum_over-lower (y ∷ ys) d h le =
      ground (arith, sum_over-lower ys d.1, sum_over-lower_absent ys, d.0)

-- What each kind of flow leaves of the sum, where the wager at `k` is written as `new`.
module _ (fx : Fixture) (distinct : IsDistinct fx.actors) (m : Shadow) (k : Pubkey) (g new : MWager)
    (known : lookup k m.wagers ≡ some g) where
  abbrev written : Dict MWager
  written = insert k new m.wagers

  pub circulating-rewritten :
      vault_of new ≡ vault_of g
      → sum_over fx.actors m.balances + m.fee_balance + sum_of vault_of written ≡ circulating fx m
  circulating-rewritten same = omega (arith, same, sum_of-insert vault_of k g new m.wagers known)

  pub circulating-deposit :
      (x : Pubkey) (n : ℕ)
      → contains fx.actors x ≡ true
      → n ≤ m.balances x
      → vault_of new ≡ vault_of g + n
      → sum_over fx.actors (lower n x m.balances) + m.fee_balance + sum_of vault_of written
        ≡ circulating fx m
  circulating-deposit x n listed covered more = omega (
    arith,
    more,
    sum_of-insert vault_of k g new m.wagers known,
    sum_over-lower x n m.balances fx.actors distinct listed covered,
  )

  pub circulating-payout :
      (x : Pubkey) (n fee : ℕ)
      → contains fx.actors x ≡ true
      → vault_of new + (n + fee) ≡ vault_of g
      → sum_over fx.actors (raise n x m.balances) + (m.fee_balance + fee) + sum_of vault_of written
        ≡ circulating fx m
  circulating-payout x n fee listed less = omega (
    arith,
    less,
    sum_of-insert vault_of k g new m.wagers known,
    sum_over-raise x n m.balances fx.actors distinct listed,
  )

  pub circulating-return :
      (x y : Pubkey) (n : ℕ)
      → contains fx.actors x ≡ true
      → contains fx.actors y ≡ true
      → vault_of new + (n + n) ≡ vault_of g
      → sum_over fx.actors (raise n y (raise n x m.balances))
          + m.fee_balance
          + sum_of vault_of written
        ≡ circulating fx m
  circulating-return x y n listed_x listed_y less = omega (
    arith,
    less,
    sum_of-insert vault_of k g new m.wagers known,
    sum_over-raise x n m.balances fx.actors distinct listed_x,
    sum_over-raise y n (raise n x m.balances) fx.actors distinct listed_y,
  )
