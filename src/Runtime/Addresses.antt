-- ===== src/Runtime/Addresses.antt =====
-- The seed lists of the program's accounts, as the `seeds = [...]` constraints write them.
use shake_escrow.Base.{ℕ, Bool, false, List, [], ◌∷◌, Option, none, some, ◌==◌}
use shake_escrow.State.{
  Pubkey, Seed, key, le_bytes, wager_seed, counter_seed, config_seed, admin_transfer_seed,
}
use shake_escrow.Runtime.{Runtime}

abbrev pub wager_seeds : Pubkey → ℕ → List Seed
wager_seeds side_a nonce = wager_seed ∷ key side_a ∷ le_bytes nonce ∷ []

abbrev pub counter_seeds : Pubkey → List Seed
counter_seeds wallet = counter_seed ∷ key wallet ∷ []

abbrev pub config_seeds : List Seed
config_seeds = config_seed ∷ []

abbrev pub admin_transfer_seeds : List Seed
admin_transfer_seeds = admin_transfer_seed ∷ []

abbrev pub is_some_key : Option Pubkey → Pubkey → Bool
is_some_key none k = false
is_some_key (some a) k = a == k

-- `seeds = [...], bump = b` on the account at `k`.
abbrev pub is_program_address : Runtime → List Seed → ℕ → Pubkey → Bool
is_program_address rt seeds b k = is_some_key (rt.create_program_address seeds b) k
