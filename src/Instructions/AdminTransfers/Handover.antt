-- ===== src/Instructions/AdminTransfers/Handover.antt =====
-- The handover of programs/shake-escrow/src/instructions/admin_transfer.rs as a whole: what a proposal
-- leads to.
use shake_escrow.Base.{
  ◌≡◌, none, some, ok, err, shake, not_admin, not_proposed_admin, ◌==◌, arith, sym, if◌then◌else◌,
}
use shake_escrow.State.{Pubkey, Config}
use shake_escrow.Events.{admin_transferred, admin_transfer_cancelled}
use shake_escrow.Runtime.{Runtime}
use shake_escrow.Runtime.Addresses.{admin_transfer_seeds}
use shake_escrow.World.{World, emit, return_rent}
use shake_escrow.Instructions.AdminTransfers.{
  ProposeAdmin, propose_admin, accept_admin, cancel_admin_transfer,
}
use shake_escrow.Instructions.AdminTransfers.Effect.{propose_admin-ok}

module _ (rt : Runtime) where
  abbrev transfer_address : Pubkey
  transfer_address = (rt.find_program_address admin_transfer_seeds).0

  -- The world after an acceptance, and after a withdrawal, of the proposal of `b`.
  abbrev pub with_admin : (old b : Pubkey) → Config → World → World
  with_admin old b c w = return_rent transfer_address old (
      emit (admin_transferred c.admin b)
        (record w { config = some (record c { admin = b }); admin_transfer = none }))

  abbrev pub withdrawn : (admin b : Pubkey) → World → World
  withdrawn admin b w =
      return_rent transfer_address admin
        (emit (admin_transfer_cancelled b) (record w { admin_transfer = none }))

  -- After a successful proposal, which only the admin can make, the proposed key and no other can accept,
  -- naming that admin, and becomes the admin; and that admin and no other can withdraw the proposal.
  pub accept_admin-propose_admin :
      (ctx : ProposeAdmin) (b x y : Pubkey) (w : World) {w₁ : World}
      → propose_admin rt ctx b w ≡ ok w₁
      → (c : Config) × (w.config ≡ some c)
        × (c.admin ≡ ctx.admin)
        × (accept_admin rt (record { new_admin = x; previous_admin = y }) w₁ ≡ (
            if b == x
            then if y == ctx.admin then ok (with_admin y x c w₁) else err (shake not_admin)
            else err (shake not_proposed_admin)))
        × (cancel_admin_transfer rt (record { admin = y }) w₁
            ≡ (if y == ctx.admin then ok (withdrawn y b w₁) else err (shake not_admin)))
  unfolding accept_admin cancel_admin_transfer
  accept_admin-propose_admin ctx b x y w h =
      let s = propose_admin-ok rt ctx b w h in
      let same = s.by_admin in
      (
        s.config,
        s.config_at,
        sym same,
        rw (s.result, s.config_at, same) (ground arith),
        rw (s.result, s.config_at, same) (ground arith),
      )
