-- ===== src/Tests/Ranges.antt =====
-- The theorem on machine widths, where its hypotheses hold.
use shake_escrow.Base.{refl, arith}
use shake_escrow.Widths.{Fits, ArgsFit, HasByteBumps}
use shake_escrow.Widths.Preserved.{process-Fits}
use shake_escrow.Tests.Chain.{sample, sample-TokenLaws}
use shake_escrow.Tests.Scenario.{genesis, initialize, create, stake_by, alice, run}
use shake_escrow.Tests.Endings.{configured, funding_world, half_world}

sample-HasByteBumps : HasByteBumps sample
sample-HasByteBumps seeds = omega arith

genesis-Fits : Fits genesis
genesis-Fits = record {
  config = λ c e. cc;
  admin_transfer = λ p e. cc;
  wagers = tt;
  counters = λ k c e. cc;
}

first_args-fit : ArgsFit initialize
first_args-fit =
    (omega arith, omega arith, omega arith, omega arith, (omega arith, omega arith), omega arith)

create-fit : ArgsFit create
create-fit = (omega arith, omega arith, (omega arith, omega arith), (omega arith, omega arith))

configured-Fits : Fits configured
unfolding run
configured-Fits =
    process-Fits sample sample-TokenLaws sample-HasByteBumps genesis genesis-Fits initialize
      first_args-fit refl

funding-Fits : Fits funding_world
unfolding run
funding-Fits =
    process-Fits sample sample-TokenLaws sample-HasByteBumps configured configured-Fits create
      create-fit refl

process-Fits_example : Fits half_world
unfolding run
process-Fits_example =
    process-Fits sample sample-TokenLaws sample-HasByteBumps funding_world funding-Fits
      (stake_by alice) tt refl
