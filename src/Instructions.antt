-- ===== src/Instructions.antt =====
-- The instructions, one module for each handler of programs/shake-escrow/src/instructions/.
-- An accounts struct becomes a record of the addresses that the caller passes; `config` and the
-- programs are left out, since their addresses are fixed.
pub mod InitializeConfig
pub mod UpdateConfig
pub mod AdminTransfers
pub mod Payout
pub mod CreateWager
pub mod StakeSide
pub mod UnstakeSide
pub mod Resolve
pub mod Concede
pub mod RefundSide
pub mod Cancel
pub mod CloseExpired
