-- ===== src/Configuration/Allowlist.antt =====
-- The resolver allowlist of the config: the copying loop of initialize_config.rs and update_config.rs,
-- and `resolver_allowed` of state.rs.
use shake_escrow.Base.{◌≤◌, ◌%◌, ◌≡◌, refl, List, [], ◌∷◌, some, ok, arith}
use shake_escrow.Base.Lists.{length, slice_to, contains}
use shake_escrow.State.{Pubkey, Config, resolver_allowed, resolver_allowlist_len}
use shake_escrow.Instructions.InitializeConfig.{copy_resolvers, empty_allowlist}

-- Up to four resolvers are copied without a panic, and the slice of the array gives them back.
pub copy_resolvers-slice :
    (rs : List Pubkey)
    → length rs ≤ resolver_allowlist_len
    → (l : List Pubkey) × (copy_resolvers 0 rs empty_allowlist ≡ ok l)
      × (slice_to l (length rs) ≡ some rs)
      × (length l ≡ resolver_allowlist_len)
unfolding copy_resolvers
copy_resolvers-slice [] h = (_, refl, refl, refl)
copy_resolvers-slice (a ∷ []) h = (_, refl, refl, refl)
copy_resolvers-slice (a ∷ b ∷ []) h = (_, refl, refl, refl)
copy_resolvers-slice (a ∷ b ∷ c ∷ []) h = (_, refl, refl, refl)
copy_resolvers-slice (a ∷ b ∷ c ∷ d ∷ []) h = (_, refl, refl, refl)
copy_resolvers-slice (a ∷ b ∷ c ∷ d ∷ e ∷ rs) h = absurd (omega arith)

pub copied-slice :
    (rs l : List Pubkey)
    → length rs ≤ resolver_allowlist_len
    → copy_resolvers 0 rs empty_allowlist ≡ ok l
    → slice_to l (length rs % 256) ≡ some rs
copied-slice rs l h copied =
    let (l', copied', sliced, full) = copy_resolvers-slice rs h in
    let same : l' ≡ l = cc in
    let small : length rs % 256 ≡ length rs = omega arith in rw (small, ← same) sliced

pub allowed-of_slice :
    (c : Config) (rs : List Pubkey) (k : Pubkey)
    → slice_to c.resolver_allowlist c.resolver_count ≡ some rs
    → resolver_allowed c k ≡ ok (contains rs k)
unfolding resolver_allowed
allowed-of_slice c rs k h = rw h
