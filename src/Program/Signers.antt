-- ===== src/Program/Signers.antt =====
-- The instructions with their accounts and arguments, and the keys that sign each: the fields of
-- type `Signer` of its accounts struct.
use shake_escrow.Base.{List, [], ◌∷◌}
use shake_escrow.State.{Pubkey}
use shake_escrow.Instructions.InitializeConfig.{InitializeConfig, InitializeConfigArgs}
use shake_escrow.Instructions.UpdateConfig.{UpdateConfig, UpdateConfigArgs}
use shake_escrow.Instructions.AdminTransfers.{ProposeAdmin, AcceptAdmin, CancelAdminTransfer}
use shake_escrow.Instructions.CreateWager.{CreateWager, CreateWagerArgs}
use shake_escrow.Instructions.StakeSide.{StakeSide}
use shake_escrow.Instructions.UnstakeSide.{UnstakeSide}
use shake_escrow.Instructions.Resolve.{Resolve}
use shake_escrow.Instructions.Concede.{Concede}
use shake_escrow.Instructions.RefundSide.{RefundSide}
use shake_escrow.Instructions.Cancel.{CancelPropose, CancelClear, CancelAccept}
use shake_escrow.Instructions.CloseExpired.{CloseExpired}

pub data Instruction : Type 0 where
  initialize_config : InitializeConfig → InitializeConfigArgs → Instruction
  update_config : UpdateConfig → UpdateConfigArgs → Instruction
  create_wager : CreateWager → CreateWagerArgs → Instruction
  stake_side : StakeSide → Instruction
  unstake_side : UnstakeSide → Instruction
  propose_admin : ProposeAdmin → Pubkey → Instruction
  accept_admin : AcceptAdmin → Instruction
  cancel_admin_transfer : CancelAdminTransfer → Instruction
  resolve : Resolve → Pubkey → Instruction
  concede : Concede → Instruction
  refund_side : RefundSide → Instruction
  cancel_propose : CancelPropose → Instruction
  cancel_clear : CancelClear → Instruction
  cancel_accept : CancelAccept → Instruction
  close_expired : CloseExpired → Instruction

abbrev pub signers : Instruction → List Pubkey
signers (Instruction.initialize_config ctx args) = ctx.authority ∷ []
signers (Instruction.update_config ctx args) = ctx.admin ∷ []
signers (Instruction.create_wager ctx args) = ctx.payer ∷ []
signers (Instruction.stake_side ctx) = ctx.staker ∷ ctx.payer ∷ []
signers (Instruction.unstake_side ctx) = ctx.staker ∷ []
signers (Instruction.propose_admin ctx new_admin) = ctx.admin ∷ []
signers (Instruction.accept_admin ctx) = ctx.new_admin ∷ []
signers (Instruction.cancel_admin_transfer ctx) = ctx.admin ∷ []
signers (Instruction.resolve ctx winner) = ctx.resolver ∷ []
signers (Instruction.concede ctx) = ctx.conceder ∷ []
signers (Instruction.refund_side ctx) = ctx.cranker ∷ []
signers (Instruction.cancel_propose ctx) = ctx.participant ∷ []
signers (Instruction.cancel_clear ctx) = ctx.participant ∷ []
signers (Instruction.cancel_accept ctx) = ctx.acceptor ∷ []
signers (Instruction.close_expired ctx) = ctx.cranker ∷ []
