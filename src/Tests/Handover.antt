-- ===== src/Tests/Handover.antt =====
-- The theorem on the handover of the admin role, where its hypotheses hold.
use shake_escrow.Base.{
  ◌≡◌, refl, some, ok, err, shake, not_admin, not_proposed_admin, [], ◌∷◌, ◌==◌, if◌then◌else◌,
}
use shake_escrow.State.{Config}
use shake_escrow.World.{World}
use shake_escrow.Program.{Instruction}
use shake_escrow.Instructions.AdminTransfers.{accept_admin, cancel_admin_transfer}
use shake_escrow.Instructions.AdminTransfers.Handover.{
  with_admin, withdrawn, accept_admin-propose_admin,
}
use shake_escrow.Tests.Chain.{sample}
use shake_escrow.Tests.Scenario.{admin, alice, run}
use shake_escrow.Tests.Endings.{configured}

abbrev pub offered : World
offered = run (Instruction.propose_admin (record { admin = admin }) alice ∷ []) configured

accept_admin-propose_admin_example :
    (c : Config) × (configured.config ≡ some c)
    × (c.admin ≡ admin)
    × (accept_admin sample (record { new_admin = alice; previous_admin = admin }) offered ≡ (
        if alice == alice
        then if admin == admin
          then ok (with_admin sample admin alice c offered)
          else err (shake not_admin)
        else err (shake not_proposed_admin)))
    × (cancel_admin_transfer sample (record { admin = admin }) offered ≡ (
        if admin == admin
        then ok (withdrawn sample admin alice offered)
        else err (shake not_admin)))
unfolding run
accept_admin-propose_admin_example =
    accept_admin-propose_admin sample (record { admin = admin }) alice alice admin configured refl
