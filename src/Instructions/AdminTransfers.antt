-- ===== src/Instructions/AdminTransfers.antt =====
-- programs/shake-escrow/src/instructions/admin_transfer.rs: the handover of the admin role in two
-- steps. A pending proposal is the slot `admin_transfer`, free where the account does not exist.
pub mod Effect
pub mod Handover
use shake_escrow.Base.{
  Bool, not, ◌&&◌, Option, none, some, ◌==◌, Result, ok, ◌>>=◌, ◌>>◌, ensure, require, ok_or,
  anchor, account_not_initialized, not_admin, bad_new_admin, not_proposed_admin,
}
use shake_escrow.State.{Pubkey, default_key, Config, AdminTransfer}
use shake_escrow.Events.{admin_transfer_proposed, admin_transferred, admin_transfer_cancelled}
use shake_escrow.Runtime.{Runtime}
use shake_escrow.Runtime.Addresses.{admin_transfer_seeds}
use shake_escrow.World.{World, emit, return_rent, load_config}

pub record ProposeAdmin : Type 0 where
  pub admin : Pubkey

pub record AcceptAdmin : Type 0 where
  pub new_admin : Pubkey
  pub previous_admin : Pubkey

pub record CancelAdminTransfer : Type 0 where
  pub admin : Pubkey

module _ (rt : Runtime) where
  -- `init_if_needed`: an open proposal is overwritten.
  unfoldable pub propose_admin : ProposeAdmin → Pubkey → World → Result World
  propose_admin ctx new_admin w = do
    c ← load_config w
    require (ctx.admin == c.admin) not_admin
    require (not (new_admin == default_key) && not (new_admin == c.admin)) bad_new_admin
    ok (
        emit (admin_transfer_proposed new_admin) (record w {
          admin_transfer = some (record {
            proposed = new_admin;
            bump = (rt.find_program_address admin_transfer_seeds).1;
          });
        }))

  -- The rent of the proposal goes to the outgoing admin.
  unfoldable pub accept_admin : AcceptAdmin → World → Result World
  accept_admin ctx w = do
    c ← load_config w
    p ← ok_or w.admin_transfer (anchor account_not_initialized)
    require (p.proposed == ctx.new_admin) not_proposed_admin
    require (ctx.previous_admin == c.admin) not_admin
    ok (
        return_rent (rt.find_program_address admin_transfer_seeds).0 ctx.previous_admin (
          emit (admin_transferred c.admin ctx.new_admin) (record w {
            config = some (record c { admin = ctx.new_admin });
            admin_transfer = none;
          })))

  unfoldable pub cancel_admin_transfer : CancelAdminTransfer → World → Result World
  cancel_admin_transfer ctx w = do
    c ← load_config w
    require (ctx.admin == c.admin) not_admin
    p ← ok_or w.admin_transfer (anchor account_not_initialized)
    ok (
        return_rent (rt.find_program_address admin_transfer_seeds).0 ctx.admin
          (emit (admin_transfer_cancelled p.proposed) (record w { admin_transfer = none })))
