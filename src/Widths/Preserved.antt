-- ===== src/Widths/Preserved.antt =====
-- Every instruction under the widths of Widths.
use shake_escrow.Base.{◌≡◌, ok}
use shake_escrow.Runtime.{Runtime}
use shake_escrow.Runtime.Laws.{TokenLaws}
use shake_escrow.World.{World}
use shake_escrow.Program.{Instruction, process}
use shake_escrow.Instructions.AdminTransfers.Effect.{
  propose_admin-ok, accept_admin-ok, cancel_admin_transfer-ok,
}
use shake_escrow.Instructions.StakeSide.Effect.{stake_side-ok}
use shake_escrow.Instructions.UnstakeSide.Effect.{unstake_side-ok}
use shake_escrow.Instructions.RefundSide.Effect.{refund_side-ok}
use shake_escrow.Instructions.Resolve.Effect.{resolve-ok}
use shake_escrow.Instructions.Concede.Effect.{concede-ok}
use shake_escrow.Instructions.Cancel.Effect.{cancel_propose-ok, cancel_clear-ok, cancel_accept-ok}
use shake_escrow.Instructions.CloseExpired.Effect.{close_expired-ok}
use shake_escrow.Widths.{Fits, HasByteBumps, ArgsFit}
use shake_escrow.Widths.Wagers.{
  Staked-Fits, Unstaked-Fits, Refunded-Fits, Settled-Fits, Accepted-Fits, reproposed-Fits,
}
use shake_escrow.Widths.Settings.{first-Fits, update-Fits, create-Fits}
use shake_escrow.Widths.Entries.{WagersFit-erase, only-ConfigFits, only-bump}

module _ (rt : Runtime) (laws : TokenLaws rt) (bytes : HasByteBumps rt) (w : World)
    (fits : Fits w) where
  -- If every account's numbers fit their Rust types, an instruction whose arguments do and that
  -- succeeds leaves accounts whose numbers do, where bumps are bytes. It is stated under the laws of the
  -- token program.
  pub process-Fits :
      (ix : Instruction) {w' : World} → ArgsFit ix → process rt ix w ≡ ok w' → Fits w'
  unfolding process
  process-Fits (Instruction.initialize_config ctx args) given h =
      first-Fits rt laws bytes w fits ctx args given h
  process-Fits (Instruction.update_config ctx args) given h =
      update-Fits rt laws bytes w fits ctx args given h
  process-Fits (Instruction.create_wager ctx args) given h =
      create-Fits rt laws bytes w fits ctx args given h
  process-Fits (Instruction.stake_side ctx) given h =
      Staked-Fits rt laws bytes w fits ctx (stake_side-ok rt ctx w h)
  process-Fits (Instruction.unstake_side ctx) given h =
      Unstaked-Fits rt laws bytes w fits ctx (unstake_side-ok rt laws ctx w h)
  process-Fits (Instruction.propose_admin ctx new_admin) given h =
      let s = propose_admin-ok rt ctx new_admin w h in
      rw s.result (record {
        config = fits.config;
        admin_transfer = only-bump _ (bytes _);
        wagers = fits.wagers;
        counters = fits.counters;
      })
  process-Fits (Instruction.accept_admin ctx) given h =
      let s = accept_admin-ok rt ctx w h in
      let c = fits.config s.config s.config_at in
      rw s.result (record {
        config = only-ConfigFits _ (record {
          fee_bps = c.fee_bps;
          min_stake = c.min_stake;
          max_stake = c.max_stake;
          max_open_per_wallet = c.max_open_per_wallet;
          resolver_count = c.resolver_count;
          max_window = c.max_window;
          max_total_open = c.max_total_open;
          total_open_value = c.total_open_value;
          bump = c.bump;
        });
        admin_transfer = λ p e. cc;
        wagers = fits.wagers;
        counters = fits.counters;
      })
  process-Fits (Instruction.cancel_admin_transfer ctx) given h =
      let s = cancel_admin_transfer-ok rt ctx w h in
      rw s.result (record {
        config = fits.config;
        admin_transfer = λ p e. cc;
        wagers = fits.wagers;
        counters = fits.counters;
      })
  process-Fits (Instruction.resolve ctx winner) given h =
      Settled-Fits rt laws bytes w fits _ (resolve-ok rt laws ctx winner w h).0
  process-Fits (Instruction.concede ctx) given h =
      Settled-Fits rt laws bytes w fits _ (concede-ok rt laws ctx w h).0
  process-Fits (Instruction.refund_side ctx) given h =
      Refunded-Fits rt laws bytes w fits ctx (refund_side-ok rt laws ctx w h)
  process-Fits (Instruction.cancel_propose ctx) given h =
      let s = cancel_propose-ok rt ctx w h in
      reproposed-Fits rt laws bytes w fits ctx.wager _ s.result s.wager_at.found
  process-Fits (Instruction.cancel_clear ctx) given h =
      let s = cancel_clear-ok rt ctx w h in
      reproposed-Fits rt laws bytes w fits ctx.wager _ s.result s.wager_at.found
  process-Fits (Instruction.cancel_accept ctx) given h =
      Accepted-Fits rt laws bytes w fits ctx (cancel_accept-ok rt laws ctx w h)
  process-Fits (Instruction.close_expired ctx) given h =
      let s = close_expired-ok rt laws ctx w h in
      rw s.result (record {
        config = fits.config;
        admin_transfer = fits.admin_transfer;
        wagers = WagersFit-erase ctx.wager w.wagers fits.wagers;
        counters = fits.counters;
      })
