-- ===== src/Program.antt =====
-- programs/shake-escrow/src/lib.rs: the fifteen instructions and their dispatch.
mod Signers
pub use Signers.*
use shake_escrow.Base.{Result}
use shake_escrow.State.{Pubkey}
use shake_escrow.Runtime.{Runtime}
use shake_escrow.World.{World}
use shake_escrow.Instructions.InitializeConfig.{initialize_config}
use shake_escrow.Instructions.UpdateConfig.{update_config}
use shake_escrow.Instructions.AdminTransfers.{propose_admin, accept_admin, cancel_admin_transfer}
use shake_escrow.Instructions.CreateWager.{create_wager}
use shake_escrow.Instructions.StakeSide.{stake_side}
use shake_escrow.Instructions.UnstakeSide.{unstake_side}
use shake_escrow.Instructions.Resolve.{resolve}
use shake_escrow.Instructions.Concede.{concede}
use shake_escrow.Instructions.RefundSide.{refund_side}
use shake_escrow.Instructions.Cancel.{cancel_propose, cancel_clear, cancel_accept}
use shake_escrow.Instructions.CloseExpired.{close_expired}

unfoldable pub process : Runtime → Instruction → World → Result World
process rt (Instruction.initialize_config ctx args) w = initialize_config rt ctx args w
process rt (Instruction.update_config ctx args) w = update_config ctx args w
process rt (Instruction.create_wager ctx args) w = create_wager rt ctx args w
process rt (Instruction.stake_side ctx) w = stake_side rt ctx w
process rt (Instruction.unstake_side ctx) w = unstake_side rt ctx w
process rt (Instruction.propose_admin ctx new_admin) w = propose_admin rt ctx new_admin w
process rt (Instruction.accept_admin ctx) w = accept_admin rt ctx w
process rt (Instruction.cancel_admin_transfer ctx) w = cancel_admin_transfer rt ctx w
process rt (Instruction.resolve ctx winner) w = resolve rt ctx winner w
process rt (Instruction.concede ctx) w = concede rt ctx w
process rt (Instruction.refund_side ctx) w = refund_side rt ctx w
process rt (Instruction.cancel_propose ctx) w = cancel_propose rt ctx w
process rt (Instruction.cancel_clear ctx) w = cancel_clear rt ctx w
process rt (Instruction.cancel_accept ctx) w = cancel_accept rt ctx w
process rt (Instruction.close_expired ctx) w = close_expired rt ctx w
