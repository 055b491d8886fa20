-- ===== src/Base/Dict.antt =====
-- Accounts by address: an association list in which every address stands once.
use Prim.Native.Nat.{ℕ}
use mathlib.Core.Path.{◌≡◌, refl, sym, ◌∙◌}
use mathlib.Core.Logic.{◌≢◌, ◌⊎◌, inl, inr}
use mathlib.Core.Option.{Option, none, some}
use mathlib.Core.List.{List, [], ◌∷◌}
use native.Mathlib.Omega.{arith}
use shake_escrow.Base.Tests.{◌==◌, if◌then◌else◌, ==_iff, Bool-cases}

abbrev pub Dict {ℓ} : Type ℓ → Type ℓ
Dict V = List (ℕ × V)

-- A store as a function, and one write to it.
abbrev pub update {ℓ} : {V : Type ℓ} → (ℕ → V) → ℕ → V → ℕ → V
update f k v j = if j == k then v else f j

module _ {V : Type 0} where
  -- The account at an address.
  unfoldable pub lookup : ℕ → Dict V → Option V
  lookup address [] = none
  lookup address ((other, found) ∷ rest) =
      if address == other then some found else lookup address rest

  -- Writes an account in its place, or adds it at the end.
  unfoldable pub insert : ℕ → V → Dict V → Dict V
  insert address new [] = (address, new) ∷ []
  insert address new (entry ∷ rest) =
      if address == entry.0 then (address, new) ∷ rest else entry ∷ insert address new rest

  -- Closes an account.
  unfoldable pub erase : ℕ → Dict V → Dict V
  erase address [] = []
  erase address (entry ∷ rest) = if address == entry.0 then rest else entry ∷ erase address rest

  -- Every key stands once.
  abbrev pub IsKeyed : Dict V → Type 0
  IsKeyed [] = Unit
  IsKeyed ((k, v) ∷ d) = (lookup k d ≡ none) × IsKeyed d

  pub lookup-insert :
      (j k : ℕ) (v : V) (d : Dict V)
      → lookup j (insert k v d) ≡ (if j == k then some v else lookup j d)
  unfolding lookup insert
  lookup-insert j k v [] = refl
  lookup-insert j k v (e ∷ d) = ground (arith, lookup-insert j k v d)

  pub lookup-insert_ne :
      (j k : ℕ) (v : V) (d : Dict V) → j ≢ k → lookup j (insert k v d) ≡ lookup j d
  lookup-insert_ne j k v d ne = ground (arith, lookup-insert j k v d)

  pub lookup-insert_self : (k : ℕ) (v : V) (d : Dict V) → lookup k (insert k v d) ≡ some v
  lookup-insert_self k v d = ground (arith, lookup-insert k k v d)

  pub lookup-erase_ne :
      (address closed : ℕ) (accounts : Dict V)
      → address ≢ closed
      → lookup address (erase closed accounts) ≡ lookup address accounts
  unfolding lookup erase
  lookup-erase_ne address closed [] apart = refl
  lookup-erase_ne address closed (entry ∷ rest) apart =
      ground (arith, lookup-erase_ne address closed rest apart)

  pub lookup-erase_self : (k : ℕ) (d : Dict V) → IsKeyed d → lookup k (erase k d) ≡ none
  unfolding lookup erase
  lookup-erase_self k [] h = refl
  lookup-erase_self k (e ∷ d) h = ground (arith, lookup-erase_self k d h.1)

  pub insert-IsKeyed : (k : ℕ) (v : V) (d : Dict V) → IsKeyed d → IsKeyed (insert k v d)
  unfolding lookup insert
  insert-IsKeyed k v [] h = (refl, tt)
  insert-IsKeyed k v (e ∷ d) h = ground (arith, insert-IsKeyed k v d h.1, lookup-insert e.0 k v d)

  pub erase-IsKeyed : (k : ℕ) (d : Dict V) → IsKeyed d → IsKeyed (erase k d)
  unfolding lookup erase
  erase-IsKeyed k [] h = tt
  erase-IsKeyed k (e ∷ d) h = ground (arith, erase-IsKeyed k d h.1, lookup-erase_ne e.0 k d)

  pub erase-insert : (k : ℕ) (v : V) (d : Dict V) → erase k (insert k v d) ≡ erase k d
  unfolding insert erase
  erase-insert k v [] = ground arith
  erase-insert k v (e ∷ d) = ground (arith, erase-insert k v d)

  pub lookup-insert_cases :
      (j k : ℕ) (v : V) (d : Dict V) {u : V}
      → lookup j (insert k v d) ≡ some u
      → ((j ≡ k) × (u ≡ v)) ⊎ ((j ≢ k) × (lookup j d ≡ some u))
  lookup-insert_cases j k v d h = ground (arith, lookup-insert j k v d)

  pub lookup-erase_cases :
      (j k : ℕ) (d : Dict V) {u : V}
      → IsKeyed d
      → lookup j (erase k d) ≡ some u
      → (j ≢ k) × (lookup j d ≡ some u)
  lookup-erase_cases j k d keyed h = elim (Bool-cases (j == k)) [
    | inl same ↦
        let e = (==_iff j k).0 same in
        let gone = lookup-erase_self k d keyed in absurd (cc (rw e at h, gone))
    | inr other ↦ let ne : j ≢ k = ground arith in (ne, sym (lookup-erase_ne j k d ne) ∙ h)
  ]

  pub lookup-nil : (k : ℕ) (d : Dict V) {u : V} → d ≡ [] → lookup k d ≢ some u
  unfolding lookup
  lookup-nil k [] e h = cc
  lookup-nil k (x ∷ d) e h = cc

  pub lookup_unique :
      (j k : ℕ) (d : Dict V) {u v : V} → j ≡ k → lookup j d ≡ some u → lookup k d ≡ some v → u ≡ v
  lookup_unique j k d same hu hv = cc
