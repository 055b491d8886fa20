-- ===== src/Base/Lists.antt =====
-- Lists over the native numbers: lengths, slices, writes by index and membership tests.
use Prim.Native.Nat.{ℕ, zero, suc}
use mathlib.Core.Bool.{Bool, true, false, not, ◌&&◌, ◌||◌}
use mathlib.Core.Option.{Option, none, some}
use mathlib.Core.Option
use mathlib.Core.List.{List, [], ◌∷◌}
use shake_escrow.Base.Tests.{◌==◌}

module _ {ℓ} {A : Type ℓ} where
  abbrev pub length : List A → ℕ
  length [] = 0
  length (x ∷ xs) = suc (length xs)

  abbrev pub is_empty : List A → Bool
  is_empty [] = true
  is_empty (x ∷ xs) = false

  -- `xs[..n]`; `none` where Rust panics.
  abbrev pub slice_to : List A → ℕ → Option (List A)
  slice_to xs zero = some []
  slice_to [] (suc n) = none
  slice_to (x ∷ xs) (suc n) = Option.map (λ r. x ∷ r) (slice_to xs n)

  -- `xs[i] = v`; `none` where Rust panics.
  abbrev pub set_at : List A → ℕ → A → Option (List A)
  set_at [] i v = none
  set_at (x ∷ xs) zero v = some (v ∷ xs)
  set_at (x ∷ xs) (suc i) v = Option.map (λ r. x ∷ r) (set_at xs i v)

-- `xs.contains(&k)`
abbrev pub contains : List ℕ → ℕ → Bool
contains [] k = false
contains (x ∷ xs) k = x == k || contains xs k

-- `xs.iter().all(|x| *x != k)`
abbrev pub all_ne : List ℕ → ℕ → Bool
all_ne [] k = true
all_ne (x ∷ xs) k = not (x == k) && all_ne xs k
