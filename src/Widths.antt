-- ===== src/Widths.antt =====
-- The machine widths of what state.rs stores. The numbers of the model are unbounded; here the fields
-- of every account are held against the Rust types that they stand for.
pub mod Entries
pub mod Wagers
pub mod Settings
pub mod Preserved
use shake_escrow.Base.{ℕ, ◌≤◌, ◌≡◌, Option, none, some, List, [], ◌∷◌}
use shake_escrow.Base.Int.{ℤ, ◌≤ℤ◌}
use shake_escrow.Base.Words.{u8_max, u64_max, i64_min, i64_max}
use shake_escrow.Base.Dict.{Dict}
use shake_escrow.State.{Pubkey, Seed, Config, Wager, AdminTransfer, ExposureCounter}
use shake_escrow.Runtime.{Runtime}
use shake_escrow.World.{World}
use shake_escrow.Program.{Instruction}

abbrev pub u16_max : ℕ
u16_max = 65535

abbrev pub IsI64 : ℤ → Type 0
IsI64 n = (i64_min ≤ℤ n) × (n ≤ℤ i64_max)

pub record ConfigFits (c : Config) : Type 0 where
  pub fee_bps : c.fee_bps ≤ u16_max
  pub min_stake : c.min_stake ≤ u64_max
  pub max_stake : c.max_stake ≤ u64_max
  pub max_open_per_wallet : c.max_open_per_wallet ≤ u8_max
  pub resolver_count : c.resolver_count ≤ u8_max
  pub max_window : IsI64 c.max_window
  pub max_total_open : c.max_total_open ≤ u64_max
  pub total_open_value : c.total_open_value ≤ u64_max
  pub bump : c.bump ≤ u8_max

pub record WagerFits (g : Wager) : Type 0 where
  pub stake : g.stake ≤ u64_max
  pub deadline_fund : IsI64 g.deadline_fund
  pub deadline_resolve : IsI64 g.deadline_resolve
  pub fee_bps : g.fee_bps ≤ u16_max
  pub nonce : g.nonce ≤ u64_max
  pub bump : g.bump ≤ u8_max

pub record CounterFits (c : ExposureCounter) : Type 0 where
  pub count : c.count ≤ u8_max
  pub bump : c.bump ≤ u8_max

abbrev pub WagersFit : Dict Wager → Type 0
WagersFit [] = Unit
WagersFit ((k, g) ∷ d) = WagerFits g × WagersFit d

-- Every account of the program.
pub record Fits (w : World) : Type 0 where
  pub config : (c : Config) → w.config ≡ some c → ConfigFits c
  pub admin_transfer : (p : AdminTransfer) → w.admin_transfer ≡ some p → p.bump ≤ u8_max
  pub wagers : WagersFit w.wagers
  pub counters : (k : Pubkey) (c : ExposureCounter) → w.counters k ≡ some c → CounterFits c

-- A bump is a byte.
abbrev pub HasByteBumps : Runtime → Type 0
HasByteBumps rt = (seeds : List Seed) → (rt.find_program_address seeds).1 ≤ u8_max

abbrev pub GivenFits : ℕ → Option ℕ → Type 0
GivenFits top none = Unit
GivenFits top (some n) = n ≤ top

abbrev pub GivenI64 : Option ℤ → Type 0
GivenI64 none = Unit
GivenI64 (some n) = IsI64 n

-- Arguments of the source's types.
abbrev pub ArgsFit : Instruction → Type 0
ArgsFit (Instruction.initialize_config ctx args) =
    (args.fee_bps ≤ u16_max)
    × (args.min_stake ≤ u64_max)
    × (args.max_stake ≤ u64_max)
    × (args.max_open_per_wallet ≤ u8_max)
    × IsI64 args.max_window
    × (args.max_total_open ≤ u64_max)
ArgsFit (Instruction.update_config ctx args) =
    GivenFits u16_max args.fee_bps
    × GivenFits u64_max args.min_stake
    × GivenFits u64_max args.max_stake
    × GivenFits u8_max args.max_open_per_wallet
    × GivenI64 args.max_window
    × GivenFits u64_max args.max_total_open
ArgsFit (Instruction.create_wager ctx args) =
    (args.nonce ≤ u64_max)
    × (args.stake ≤ u64_max)
    × IsI64 args.deadline_fund
    × IsI64 args.deadline_resolve
ArgsFit _ = Unit
