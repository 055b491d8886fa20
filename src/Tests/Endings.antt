-- ===== src/Tests/Endings.antt =====
-- The worlds of a wager between Alice and Bob, and the instructions that end it.
use shake_escrow.Base.{◌≡◌, refl, [], ◌∷◌}
use shake_escrow.Base.Int.{pos}
use shake_escrow.State.{Pubkey}
use shake_escrow.Runtime.Laws.{balance}
use shake_escrow.World.{World}
use shake_escrow.Instructions.Resolve.{Resolve}
use shake_escrow.Instructions.Concede.{Concede}
use shake_escrow.Instructions.RefundSide.{RefundSide}
use shake_escrow.Instructions.Cancel.{CancelPropose, CancelAccept}
use shake_escrow.Program.{Instruction}
use shake_escrow.Tests.Scenario.{
  judge, alice, bob, collector, fee_token, ata, genesis, wager_key, counter_key, initialize, create,
  stake_by, run,
}

abbrev pub configured : World
configured = run (initialize ∷ []) genesis

abbrev pub funding_world : World
funding_world = run (initialize ∷ create ∷ []) genesis

-- Alice has staked.
abbrev pub half_world : World
half_world = run (initialize ∷ create ∷ stake_by alice ∷ []) genesis

-- Both have staked.
abbrev pub locked_world : World
locked_world = run (initialize ∷ create ∷ stake_by alice ∷ stake_by bob ∷ []) genesis

abbrev pub resolution : Resolve
resolution = record {
  resolver = judge;
  wager = wager_key;
  winner = alice;
  winner_token = ata alice;
  fee_token = fee_token;
  vault = ata wager_key;
  counter_a = counter_key alice;
  counter_b = counter_key bob;
  rent_collector = collector;
}

abbrev pub concession : Concede
concession = record {
  conceder = bob;
  wager = wager_key;
  winner = alice;
  winner_token = ata alice;
  fee_token = fee_token;
  vault = ata wager_key;
  counter_a = counter_key alice;
  counter_b = counter_key bob;
  rent_collector = collector;
}

abbrev pub proposal : CancelPropose
proposal = record { participant = alice; wager = wager_key }

abbrev pub acceptance : CancelAccept
acceptance = record {
  acceptor = bob;
  wager = wager_key;
  side_a = alice;
  side_b = bob;
  side_a_token = ata alice;
  side_b_token = ata bob;
  counter_a = counter_key alice;
  counter_b = counter_key bob;
  fee_token = fee_token;
  vault = ata wager_key;
  rent_collector = collector;
}

abbrev pub refund_of : Pubkey → RefundSide
refund_of x = record {
  cranker = judge;
  wager = wager_key;
  side = x;
  side_token = ata x;
  counter = counter_key x;
  vault = ata wager_key;
}

-- The world once the resolve deadline is over.
abbrev pub late_world : World
late_world = record locked_world { clock = pos 3001 }

abbrev pub proposed_world : World
proposed_world =
    run
      (initialize
        ∷ create
        ∷ stake_by alice
        ∷ stake_by bob
        ∷ Instruction.cancel_propose proposal
        ∷ [])
      genesis

-- The winner's account after a resolution: the stake is back, with the other one, less the fee.
settles :
    balance (run (Instruction.resolve resolution alice ∷ []) locked_world).tokens (ata alice) ≡ 1094
unfolding run
settles = refl
