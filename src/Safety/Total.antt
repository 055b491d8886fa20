-- ===== src/Safety/Total.antt =====
-- Panics in the whole program.
use shake_escrow.Base.{◌≢◌, err, panic}
use shake_escrow.Runtime.{Runtime}
use shake_escrow.World.{World}
use shake_escrow.Program.{Instruction, process}
use shake_escrow.Safety.{IsOrdinary, HasWords}
use shake_escrow.Safety.Handlers.{
  stake_side-NeverPanics, unstake_side-NeverPanics, refund_side-NeverPanics, resolve-NeverPanics,
  concede-NeverPanics, cancel_propose-NeverPanics, cancel_clear-NeverPanics,
  cancel_accept-NeverPanics, close_expired-NeverPanics,
}
use shake_escrow.Safety.Administration.{
  initialize_config-NeverPanics, update_config-NeverPanics, propose_admin-NeverPanics,
  accept_admin-NeverPanics, cancel_admin-NeverPanics,
}
use shake_escrow.Safety.Creating.{create_wager-NeverPanics}

-- On a chain whose clock is not negative and whose config, if there is one, is valid, an instruction
-- whose deadlines are at most the largest i64 does not panic: it returns a world or another error.
pub process-NeverPanics :
    (rt : Runtime) (ix : Instruction) (w : World)
    → IsOrdinary w
    → HasWords ix
    → process rt ix w ≢ err panic
unfolding process
process-NeverPanics rt (Instruction.initialize_config ctx args) w o h =
    (initialize_config-NeverPanics rt ctx args w).calm
process-NeverPanics rt (Instruction.update_config ctx args) w o h =
    (update_config-NeverPanics ctx args w o.config_valid).calm
process-NeverPanics rt (Instruction.create_wager ctx args) w o h =
    (create_wager-NeverPanics rt ctx args w o h.0 h.1).calm
process-NeverPanics rt (Instruction.stake_side ctx) w o h = (stake_side-NeverPanics rt ctx w).calm
process-NeverPanics rt (Instruction.unstake_side ctx) w o h =
    (unstake_side-NeverPanics rt ctx w).calm
process-NeverPanics rt (Instruction.propose_admin ctx k) w o h =
    (propose_admin-NeverPanics rt ctx k w).calm
process-NeverPanics rt (Instruction.accept_admin ctx) w o h =
    (accept_admin-NeverPanics rt ctx w).calm
process-NeverPanics rt (Instruction.cancel_admin_transfer ctx) w o h =
    (cancel_admin-NeverPanics rt ctx w).calm
process-NeverPanics rt (Instruction.resolve ctx winner) w o h =
    (resolve-NeverPanics rt ctx winner w).calm
process-NeverPanics rt (Instruction.concede ctx) w o h = (concede-NeverPanics rt ctx w).calm
process-NeverPanics rt (Instruction.refund_side ctx) w o h = (refund_side-NeverPanics rt ctx w).calm
process-NeverPanics rt (Instruction.cancel_propose ctx) w o h =
    (cancel_propose-NeverPanics rt ctx w).calm
process-NeverPanics rt (Instruction.cancel_clear ctx) w o h =
    (cancel_clear-NeverPanics rt ctx w).calm
process-NeverPanics rt (Instruction.cancel_accept ctx) w o h =
    (cancel_accept-NeverPanics rt ctx w).calm
process-NeverPanics rt (Instruction.close_expired ctx) w o h =
    (close_expired-NeverPanics rt ctx w).calm
