-- ===== src/Tests/Examples.antt =====
-- The theorems on the config, the pot and the deadlines, where their hypotheses hold.
use shake_escrow.Base.{
  ◌+◌, ◌*◌, ◌-◌, ◌/◌, ◌≤◌, ◌≡◌, ◌↔◌, refl, some, List, [], ◌∷◌, ok, err, arith, if◌then◌else◌, leb,
  shake, math_overflow,
}
use shake_escrow.Base.Int.{pos}
use shake_escrow.Base.Words.{u64_max}
use shake_escrow.Base.Lists.{length, slice_to, contains}
use shake_escrow.State.{Pubkey, Config, active, resolver_allowed, resolver_allowlist_len}
use shake_escrow.Program.{Instruction}
use shake_escrow.Instructions.InitializeConfig.{
  copy_resolvers, empty_allowlist, validate_config_values,
}
use shake_escrow.Instructions.Payout.{split_pot}
use shake_escrow.Instructions.Payout.Split.{
  IsSplit, split_pot-IsSplit, split_pot-total, split_pot-winner_share,
}
use shake_escrow.Instructions.RefundSide.{refund_due}
use shake_escrow.Instructions.CloseExpired.{close_due}
use shake_escrow.Lifecycle.Windows.{close_due-eq-refund_due}
use shake_escrow.Configuration.{IsInBounds, IsValidConfig}
use shake_escrow.Configuration.Validation.{validate_config_values_iff}
use shake_escrow.Configuration.Allowlist.{copy_resolvers-slice}
use shake_escrow.Configuration.Upkeep.{initialize_config-IsValidConfig, update_config-IsValidConfig}
use shake_escrow.Configuration.Authority.{Governed, process-Governed}
use shake_escrow.Tests.Chain.{sample, sample-TokenLaws}
use shake_escrow.Tests.Scenario.{
  admin, judge, alice, collector, genesis, first_ctx, first_args, run,
}
use shake_escrow.Tests.Endings.{configured, locked_world, resolution}
use shake_escrow.Tests.Fixtures.{config_with, update_args, first-IsValidConfig}

process-Governed_example :
    (c' : Config) × ((run (Instruction.resolve resolution alice ∷ []) locked_world).config
      ≡ some c')
    × Governed locked_world (config_with 200) c' (Instruction.resolve resolution alice)
unfolding run
process-Governed_example =
    process-Governed sample sample-TokenLaws (Instruction.resolve resolution alice) locked_world
      (config_with 200) refl refl

validate_config_values_iff_example :
    (validate_config_values 300 10 500 (judge ∷ []) (pos 86400) 5 100000 ≡ ok tt)
    ↔ IsInBounds 300 10 500 (judge ∷ []) (pos 86400) 5 100000
validate_config_values_iff_example =
    validate_config_values_iff 300 10 500 (judge ∷ []) (pos 86400) 5 100000

initialize_config-IsValidConfig_example :
    (c : Config) × (configured.config ≡ some c)
    × IsValidConfig c
    × (sample.programdata_address ≡ some 7)
    × (sample.upgrade_authority 7 ≡ some c.admin)
    × (c.total_open_value ≡ 0)
    × ((k : Pubkey) → resolver_allowed c k ≡ ok (contains (judge ∷ []) k))
unfolding run
initialize_config-IsValidConfig_example =
    initialize_config-IsValidConfig sample first_ctx first_args genesis refl

update_config-IsValidConfig_example :
    (c' : Config) × ((run
        (Instruction.update_config (record { admin = admin }) update_args ∷ [])
        configured).config
      ≡ some c')
    × IsValidConfig c'
unfolding run
update_config-IsValidConfig_example =
    update_config-IsValidConfig (record { admin = admin }) update_args configured (config_with 0)
      refl first-IsValidConfig refl

split_pot-IsSplit_example : IsSplit 100 300 194 6
unfolding split_pot
split_pot-IsSplit_example = split_pot-IsSplit 100 300 194 6 refl

split_pot-total_example : split_pot 100 300 ≡ (
    if leb (100 * 2) u64_max
    then ok (100 * 2 - 100 * 2 * 300 / 10000, 100 * 2 * 300 / 10000)
    else err (shake math_overflow))
split_pot-total_example = split_pot-total 100 300 (omega arith)

split_pot-winner_share_example : (9 * (100 + 100) ≤ 10 * 194) × (10 * 6 ≤ 100 + 100)
unfolding split_pot
split_pot-winner_share_example = split_pot-winner_share 100 300 194 6 (omega arith) refl

copy_resolvers-slice_example :
    (l : List Pubkey) × (copy_resolvers 0 (judge ∷ collector ∷ []) empty_allowlist ≡ ok l)
    × (slice_to l 2 ≡ some (judge ∷ collector ∷ []))
    × (length l ≡ resolver_allowlist_len)
copy_resolvers-slice_example = copy_resolvers-slice (judge ∷ collector ∷ []) (omega arith)

close_due-eq-refund_due_example :
    close_due active (pos 3001) (pos 2000) (pos 3000)
    ≡ refund_due active (pos 3001) (pos 2000) (pos 3000)
close_due-eq-refund_due_example = close_due-eq-refund_due active (pos 3001) (pos 2000) (pos 3000)
