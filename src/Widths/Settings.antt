-- ===== src/Widths/Settings.antt =====
-- The config and new wagers under the widths of Widths.
use shake_escrow.Base.{◌≡◌, Option, none, some, List, ok, arith}
use shake_escrow.State.{Pubkey, Config}
use shake_escrow.Runtime.{Runtime}
use shake_escrow.Runtime.Laws.{TokenLaws}
use shake_escrow.World.{World}
use shake_escrow.Program.{Instruction}
use shake_escrow.Instructions.InitializeConfig.{
  InitializeConfig, InitializeConfigArgs, initialize_config,
}
use shake_escrow.Instructions.InitializeConfig.Effect.{initialize_config-ok}
use shake_escrow.Instructions.UpdateConfig.{UpdateConfig, UpdateConfigArgs, update_config}
use shake_escrow.Instructions.UpdateConfig.Effect.{Relisted, update_config-ok}
use shake_escrow.Instructions.CreateWager.{CreateWager, CreateWagerArgs, create_wager}
use shake_escrow.Instructions.CreateWager.Effect.{create_wager-ok}
use shake_escrow.Widths.{ConfigFits, Fits, HasByteBumps, ArgsFit}
use shake_escrow.Widths.Entries.{WagersFit-insert, only-ConfigFits, unwrap_or-fits, unwrap_or-IsI64}

Relisted-ConfigFits :
    (o : Option (List Pubkey)) (c c' : Config) → Relisted o c c' → ConfigFits c → ConfigFits c'
Relisted-ConfigFits none c c' e fit = rw e fit
Relisted-ConfigFits (some rs) c c' (listed, copied, e) fit = rw e (record {
  fee_bps = fit.fee_bps;
  min_stake = fit.min_stake;
  max_stake = fit.max_stake;
  max_open_per_wallet = fit.max_open_per_wallet;
  resolver_count = omega arith;
  max_window = fit.max_window;
  max_total_open = fit.max_total_open;
  total_open_value = fit.total_open_value;
  bump = fit.bump;
})

module _ (rt : Runtime) (laws : TokenLaws rt) (bytes : HasByteBumps rt) (w : World)
    (fits : Fits w) where
  pub first-Fits :
      (ctx : InitializeConfig) (args : InitializeConfigArgs) {w' : World}
      → ArgsFit (Instruction.initialize_config ctx args)
      → initialize_config rt ctx args w ≡ ok w'
      → Fits w'
  first-Fits ctx args given h =
      let s = initialize_config-ok rt ctx args w h in
      rw s.result (record {
        config = only-ConfigFits _ (record {
          fee_bps = given.0;
          min_stake = given.1;
          max_stake = given.2;
          max_open_per_wallet = given.3;
          resolver_count = omega arith;
          max_window = given.4;
          max_total_open = given.5;
          total_open_value = omega arith;
          bump = bytes _;
        });
        admin_transfer = fits.admin_transfer;
        wagers = fits.wagers;
        counters = fits.counters;
      })

  pub update-Fits :
      (ctx : UpdateConfig) (args : UpdateConfigArgs) {w' : World}
      → ArgsFit (Instruction.update_config ctx args)
      → update_config ctx args w ≡ ok w'
      → Fits w'
  update-Fits ctx args given h =
      let s = update_config-ok ctx args w h in
      let c = fits.config s.old s.old_at in
      rw s.result (record {
        config = only-ConfigFits s.new (
            Relisted-ConfigFits args.resolvers _ s.new s.relisted (record {
              fee_bps = unwrap_or-fits _ args.fee_bps s.old.fee_bps given.0 c.fee_bps;
              min_stake = unwrap_or-fits _ args.min_stake s.old.min_stake given.1 c.min_stake;
              max_stake = unwrap_or-fits _ args.max_stake s.old.max_stake given.2 c.max_stake;
              max_open_per_wallet =
                  unwrap_or-fits _ args.max_open_per_wallet s.old.max_open_per_wallet given.3
                    c.max_open_per_wallet;
              resolver_count = c.resolver_count;
              max_window = unwrap_or-IsI64 args.max_window s.old.max_window given.4 c.max_window;
              max_total_open =
                  unwrap_or-fits _ args.max_total_open s.old.max_total_open given.5
                    c.max_total_open;
              total_open_value = c.total_open_value;
              bump = c.bump;
            }));
        admin_transfer = fits.admin_transfer;
        wagers = fits.wagers;
        counters = fits.counters;
      })

  pub create-Fits :
      (ctx : CreateWager) (args : CreateWagerArgs) {w' : World}
      → ArgsFit (Instruction.create_wager ctx args)
      → create_wager rt ctx args w ≡ ok w'
      → Fits w'
  create-Fits ctx args given h =
      let s = create_wager-ok rt laws ctx args w h in
      rw (s.result, s.opened.result)
        (record {
          config = fits.config;
          admin_transfer = fits.admin_transfer;
          wagers =
              WagersFit-insert ctx.wager _ w.wagers
                (record {
                  stake = given.1;
                  deadline_fund = given.2;
                  deadline_resolve = given.3;
                  fee_bps = (fits.config s.config s.config_at).fee_bps;
                  nonce = given.0;
                  bump = bytes _;
                })
                fits.wagers;
          counters = fits.counters;
        })
