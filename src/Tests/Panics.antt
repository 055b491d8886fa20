-- ===== src/Tests/Panics.antt =====
-- The theorems on panics and on the config along a run, where their hypotheses hold.
use shake_escrow.Base.{◌≢◌, refl, err, panic, arith}
use shake_escrow.Program.{Instruction, process}
use shake_escrow.Configuration.{IsValidConfig}
use shake_escrow.Safety.{IsOrdinary}
use shake_escrow.Safety.Keeping.{Reach-HoldsValid}
use shake_escrow.Safety.Total.{process-NeverPanics}
use shake_escrow.Tests.Chain.{sample, sample-TokenLaws}
use shake_escrow.Tests.Scenario.{alice, genesis}
use shake_escrow.Tests.Endings.{locked_world, resolution}
use shake_escrow.Tests.Fixtures.{config_with, genesis-IsGenesis, Reach-locked}
use shake_escrow.Tests.Scenario.{run}

Reach-HoldsValid_example : IsValidConfig (config_with 200)
unfolding run
Reach-HoldsValid_example =
    Reach-HoldsValid sample sample-TokenLaws genesis {w' = locked_world} genesis-IsGenesis
      Reach-locked (config_with 200) refl

locked-IsOrdinary : IsOrdinary locked_world
unfolding run
locked-IsOrdinary = record {
  clock_positive = omega arith;
  config_valid =
      Reach-HoldsValid sample sample-TokenLaws genesis {w' = locked_world} genesis-IsGenesis
        Reach-locked;
}

process-NeverPanics_example :
    process sample (Instruction.resolve resolution alice) locked_world ≢ err panic
process-NeverPanics_example =
    process-NeverPanics sample (Instruction.resolve resolution alice) locked_world locked-IsOrdinary
      tt
