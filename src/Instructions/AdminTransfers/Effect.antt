-- ===== src/Instructions/AdminTransfers/Effect.antt =====
-- What the three steps of the admin handover read and wrote.
use shake_escrow.Base.{
  ◌≡◌, ◌≢◌, none, some, ok, ◌==◌, not, ◌&&◌, arith, on_pass, on_some, ok-injective, sym, ==_iff,
}
use shake_escrow.State.{Pubkey, Config, AdminTransfer, default_key}
use shake_escrow.Events.{admin_transfer_proposed, admin_transferred, admin_transfer_cancelled}
use shake_escrow.Runtime.{Runtime}
use shake_escrow.Runtime.Addresses.{admin_transfer_seeds}
use shake_escrow.World.{World, emit, return_rent}
use shake_escrow.Instructions.AdminTransfers.{
  ProposeAdmin, AcceptAdmin, CancelAdminTransfer, propose_admin, accept_admin,
  cancel_admin_transfer,
}

pub record AdminProposed (rt : Runtime) (ctx : ProposeAdmin) (new_admin : Pubkey) (w w' : World)
    : Type 0 where
  pub config : Config
  pub config_at : w.config ≡ some config
  pub by_admin : ctx.admin ≡ config.admin
  pub real : new_admin ≢ default_key
  pub other : new_admin ≢ config.admin
  pub result :
      w'
      ≡ emit (admin_transfer_proposed new_admin) (record w {
        admin_transfer = some (record {
          proposed = new_admin;
          bump = (rt.find_program_address admin_transfer_seeds).1;
        });
      })

pub record AdminAccepted (rt : Runtime) (ctx : AcceptAdmin) (w w' : World) : Type 0 where
  pub config : Config
  pub transfer : AdminTransfer
  pub config_at : w.config ≡ some config
  pub transfer_at : w.admin_transfer ≡ some transfer
  pub by_proposed : transfer.proposed ≡ ctx.new_admin
  pub previous : ctx.previous_admin ≡ config.admin
  pub result :
      w'
      ≡ return_rent (rt.find_program_address admin_transfer_seeds).0 ctx.previous_admin (
          emit (admin_transferred config.admin ctx.new_admin) (record w {
            config = some (record config { admin = ctx.new_admin });
            admin_transfer = none;
          }))

pub record AdminCancelled (rt : Runtime) (ctx : CancelAdminTransfer) (w w' : World) : Type 0 where
  pub config : Config
  pub transfer : AdminTransfer
  pub config_at : w.config ≡ some config
  pub by_admin : ctx.admin ≡ config.admin
  pub transfer_at : w.admin_transfer ≡ some transfer
  pub result :
      w'
      ≡ return_rent
          (rt.find_program_address admin_transfer_seeds).0
          ctx.admin
          (emit (admin_transfer_cancelled transfer.proposed) (record w { admin_transfer = none }))

module _ (rt : Runtime) where
  pub propose_admin-ok :
      (ctx : ProposeAdmin) (new_admin : Pubkey) (w : World) {w' : World}
      → propose_admin rt ctx new_admin w ≡ ok w'
      → AdminProposed rt ctx new_admin w w'
  unfolding propose_admin
  propose_admin-ok ctx new_admin w h = on_some w.config _ h λ c config_at h₁.
      on_pass (ctx.admin == c.admin) _ h₁ λ by_admin h₂.
        on_pass (not (new_admin == default_key) && not (new_admin == c.admin)) _ h₂ λ fit last.
          record {
            config = c;
            config_at = config_at;
            by_admin = (==_iff _ _).0 by_admin;
            real = ground arith;
            other = ground arith;
            result = sym (ok-injective last);
          }

  pub accept_admin-ok :
      (ctx : AcceptAdmin) (w : World) {w' : World}
      → accept_admin rt ctx w ≡ ok w'
      → AdminAccepted rt ctx w w'
  unfolding accept_admin
  accept_admin-ok ctx w h = on_some w.config _ h λ c config_at h₁.
      on_some w.admin_transfer _ h₁ λ p transfer_at h₂.
        on_pass (p.proposed == ctx.new_admin) _ h₂ λ by_proposed h₃.
          on_pass (ctx.previous_admin == c.admin) _ h₃ λ previous last. record {
            config = c;
            transfer = p;
            config_at = config_at;
            transfer_at = transfer_at;
            by_proposed = (==_iff _ _).0 by_proposed;
            previous = (==_iff _ _).0 previous;
            result = sym (ok-injective last);
          }

  pub cancel_admin_transfer-ok :
      (ctx : CancelAdminTransfer) (w : World) {w' : World}
      → cancel_admin_transfer rt ctx w ≡ ok w'
      → AdminCancelled rt ctx w w'
  unfolding cancel_admin_transfer
  cancel_admin_transfer-ok ctx w h = on_some w.config _ h λ c config_at h₁.
      on_pass (ctx.admin == c.admin) _ h₁ λ by_admin h₂.
        on_some w.admin_transfer _ h₂ λ p transfer_at last. record {
          config = c;
          transfer = p;
          config_at = config_at;
          by_admin = (==_iff _ _).0 by_admin;
          transfer_at = transfer_at;
          result = sym (ok-injective last);
        }
