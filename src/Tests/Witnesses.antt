-- ===== src/Tests/Witnesses.antt =====
-- The theorems on wagers, where their hypotheses hold.
use shake_escrow.Base.{false, ◌≤◌, ◌≡◌, ◌≢◌, refl, true, some, [], ◌∷◌, ok, arith}
use shake_escrow.Base.Int.{leb_ℤ}
use shake_escrow.Base.Dict.{lookup}
use shake_escrow.State.{Pubkey, default_key, Wager, active, is_participant}
use shake_escrow.Runtime.Laws.{balance}
use shake_escrow.World.{World}
use shake_escrow.Program.{Instruction}
use shake_escrow.Instructions.Resolve.Effect.{resolve_parties}
use shake_escrow.Instructions.Concede.{counterparty}
use shake_escrow.Instructions.Concede.Effect.{concede_parties}
use shake_escrow.Instructions.Concede.Agreement.{
  Paid, ArePinned, silenced, resolve-Paid, concede-Paid, concede-agrees_with-resolve,
}
use shake_escrow.Instructions.Cancel.Returned.{IsReturned, cancel_accept-returns}
use shake_escrow.Instructions.RefundSide.{refund_side}
use shake_escrow.Instructions.CloseExpired.{close_expired}
use shake_escrow.Custody.{IsSound, locked, exposure, sum_of, total_of, count_at}
use shake_escrow.Custody.Steps.{process-IsSound}
use shake_escrow.Custody.Solvency.{Reach-solvent}
use shake_escrow.Custody.Reclaiming.{close_expired-succeeds}
use shake_escrow.Custody.{total_of, count_of}
use shake_escrow.Instructions.UnstakeSide.RoundTrip.{withdrawal, unstake_side-stake_side}
use shake_escrow.Base.Int.{ltb_ℤ}
use shake_escrow.Custody.Progress.{refund_side-succeeds}
use shake_escrow.Lifecycle.{Fate}
use shake_escrow.Lifecycle.Fates.{process-Fate}
use shake_escrow.Lifecycle.Windows.{resolve_excludes_exits}
use shake_escrow.Tests.Chain.{sample, sample-TokenLaws, sample-AddressLaws}
use shake_escrow.Tests.Scenario.{
  usdc, counter_key, stake_of, judge, alice, bob, ata, genesis, wager_key, run,
}
use shake_escrow.Tests.Endings.{
  half_world, funding_world, locked_world, resolution, concession, acceptance, refund_of,
  late_world, proposed_world,
}
use shake_escrow.Tests.Fixtures.{
  expired_world, expired-IsSound, offer, genesis-IsGenesis, Reach-locked, locked-IsSound, bets,
  late-IsSound, late_bets, presented, four_accounts, closing,
}

process-IsSound_example :
    IsSound sample (run (Instruction.resolve resolution alice ∷ []) locked_world)
unfolding run
process-IsSound_example =
    process-IsSound sample sample-TokenLaws sample-AddressLaws
      (Instruction.resolve resolution alice) locked_world (refl, tt) locked-IsSound refl

Reach-solvent_example :
    ((k : Pubkey) (g : Wager)
      → lookup k locked_world.wagers ≡ some g
      → locked g ≤ balance locked_world.tokens (sample.associated_address g.mint k))
    × (total_of locked_world.config ≡ sum_of locked locked_world.wagers)
    × ((x : Pubkey) → count_at sample locked_world x ≡ sum_of (exposure x) locked_world.wagers)
Reach-solvent_example =
    Reach-solvent sample sample-TokenLaws sample-AddressLaws genesis genesis-IsGenesis Reach-locked

process-Fate_example :
    Fate locked_world (run (Instruction.resolve resolution alice ∷ []) locked_world) wager_key bets
unfolding run
process-Fate_example =
    process-Fate sample sample-TokenLaws (Instruction.resolve resolution alice) locked_world
      wager_key bets (locked-IsSound.keyed) refl refl

refund_side-succeeds_example :
    (w' : World) × (refund_side sample (refund_of alice) late_world ≡ ok w')
unfolding run
refund_side-succeeds_example =
    refund_side-succeeds sample sample-TokenLaws (refund_of alice) late_world bets late-IsSound refl
      late_bets presented

resolve-Paid_example :
    (g : Wager) × (lookup wager_key locked_world.wagers ≡ some g)
    × (g.state ≡ active)
    × (judge ≡ g.resolver)
    × (alice ≡ alice)
    × (is_participant g alice ≡ true)
    × (leb_ℤ locked_world.clock g.deadline_resolve ≡ true)
    × ArePinned sample (resolve_parties resolution) g
    × Paid
        (resolve_parties resolution)
        g.stake
        g.fee_bps
        locked_world
        (run (Instruction.resolve resolution alice ∷ []) locked_world)
unfolding run
resolve-Paid_example =
    resolve-Paid sample sample-TokenLaws resolution alice locked_world (ground arith) (ground arith)
      (ground arith) refl

concede-Paid_example :
    (g : Wager) × (lookup wager_key locked_world.wagers ≡ some g)
    × (g.state ≡ active)
    × (leb_ℤ locked_world.clock g.deadline_resolve ≡ true)
    × (is_participant g bob ≡ true)
    × (alice ≡ counterparty g bob)
    × ArePinned sample (concede_parties concession) g
    × Paid
        (concede_parties concession)
        g.stake
        g.fee_bps
        locked_world
        (run (Instruction.concede concession ∷ []) locked_world)
unfolding run
concede-Paid_example =
    concede-Paid sample sample-TokenLaws concession locked_world (ground arith) (ground arith)
      (ground arith) refl

concede-agrees_with-resolve_example :
    silenced (run (Instruction.resolve resolution alice ∷ []) locked_world)
    ≡ silenced (run (Instruction.concede concession ∷ []) locked_world)
unfolding run
concede-agrees_with-resolve_example =
    concede-agrees_with-resolve sample sample-TokenLaws resolution concession alice locked_world
      refl refl refl

cancel_accept-returns_example :
    (g : Wager) × (lookup wager_key proposed_world.wagers ≡ some g)
    × (g.state ≡ active)
    × (leb_ℤ proposed_world.clock g.deadline_resolve ≡ true)
    × (is_participant g bob ≡ true)
    × (g.cancel_proposed_by ≢ default_key)
    × (bob ≢ g.cancel_proposed_by)
    × (sample.associated_address g.mint g.side_a ≡ ata alice)
    × (sample.associated_address g.mint g.side_b ≡ ata bob)
    × (sample.associated_address g.mint wager_key ≡ acceptance.vault)
    × (acceptance.fee_token ≡ g.fee_destination)
    × (acceptance.rent_collector ≡ g.rent_collector)
    × (acceptance.rent_collector ≢ wager_key)
    × ((run (Instruction.cancel_accept acceptance ∷ []) proposed_world).rents
        ≡ (wager_key, acceptance.rent_collector)
          ∷ (acceptance.vault, acceptance.rent_collector)
          ∷ proposed_world.rents)
    × IsReturned acceptance g.stake proposed_world.tokens
        (run (Instruction.cancel_accept acceptance ∷ []) proposed_world).tokens
unfolding run
cancel_accept-returns_example =
    cancel_accept-returns sample sample-TokenLaws acceptance proposed_world four_accounts refl

resolve_excludes_exits_example :
    (¬ (refund_side sample (refund_of alice) locked_world ≡ ok genesis))
    × (¬ (close_expired sample closing locked_world ≡ ok genesis))
unfolding run
resolve_excludes_exits_example =
    resolve_excludes_exits sample sample-TokenLaws resolution alice (refund_of alice) closing
      locked_world refl refl refl

close_expired-succeeds_example : (w' : World) × (close_expired sample closing expired_world ≡ ok w')
unfolding run ltb_ℤ
close_expired-succeeds_example =
    close_expired-succeeds sample sample-TokenLaws closing expired_world offer
      (record { mint = usdc; owner = wager_key; amount = 0; frozen = false }) expired-IsSound refl
      refl refl refl refl refl refl refl (ground arith) (ground arith)

unstake_side-stake_side_example :
    ((k : Pubkey)
      → lookup k
          (run (Instruction.unstake_side (withdrawal (stake_of alice)) ∷ []) half_world).wagers
        ≡ lookup k funding_world.wagers)
    × ((k : Pubkey)
        → (run (Instruction.unstake_side (withdrawal (stake_of alice)) ∷ []) half_world).tokens k
          ≡ funding_world.tokens k)
    × (total_of
          (run (Instruction.unstake_side (withdrawal (stake_of alice)) ∷ []) half_world).config
        ≡ total_of funding_world.config)
    × (count_of (
          (run (Instruction.unstake_side (withdrawal (stake_of alice)) ∷ []) half_world).counters
            (counter_key alice))
        ≡ count_of (funding_world.counters (counter_key alice)))
unfolding run
unstake_side-stake_side_example =
    unstake_side-stake_side sample sample-TokenLaws (stake_of alice) funding_world {w₁ = half_world}
      (ground arith) refl refl
