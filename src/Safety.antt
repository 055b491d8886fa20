-- ===== src/Safety.antt =====
-- Panics: where the Rust code would abort (an index or a slice out of range, a plain `+` or `-` that
-- overflows), and the state and the arguments under which no instruction does.
mod Rules
pub mod Keeping
pub mod Handlers
pub mod Administration
pub mod Creating
pub mod Total
pub use Rules.*
use shake_escrow.Base.{◌≡◌, some}
use shake_escrow.Base.Int.{ℤ, pos, ◌≤ℤ◌}
use shake_escrow.Base.Words.{i64_max}
use shake_escrow.State.{Config}
use shake_escrow.World.{World}
use shake_escrow.Configuration.{IsValidConfig}
use shake_escrow.Instructions.CreateWager.{CreateWagerArgs}
use shake_escrow.Program.{Instruction}

-- A clock that has not run below zero, and a config that the program wrote.
pub record IsOrdinary (w : World) : Type 0 where
  pub clock_positive : pos 0 ≤ℤ w.clock
  pub config_valid : (c : Config) → w.config ≡ some c → IsValidConfig c

-- Arguments of the source's types: the deadlines of a new wager are i64.
abbrev pub HasWords : Instruction → Type 0
HasWords (Instruction.create_wager ctx args) =
    (args.deadline_fund ≤ℤ i64_max) × (args.deadline_resolve ≤ℤ i64_max)
HasWords _ = Unit
