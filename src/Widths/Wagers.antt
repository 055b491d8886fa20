-- ===== src/Widths/Wagers.antt =====
-- The steps on one wager under the widths of Widths.
use shake_escrow.Base.{◌+◌, ◌≡◌, Bool, some, arith}
use shake_escrow.Base.Dict.{lookup, insert, erase, update, erase-insert}
use shake_escrow.State.{Pubkey, Wager, ExposureCounter}
use shake_escrow.Runtime.{Runtime}
use shake_escrow.Runtime.Laws.{TokenLaws}
use shake_escrow.Events.{Event}
use shake_escrow.World.{World, emit}
use shake_escrow.Instructions.StakeSide.{StakeSide, fund, lock_if_funded}
use shake_escrow.Instructions.StakeSide.Effect.{Staked}
use shake_escrow.Instructions.UnstakeSide.{UnstakeSide, unfund, release}
use shake_escrow.Instructions.UnstakeSide.Effect.{Unstaked}
use shake_escrow.Instructions.RefundSide.{RefundSide, mark_refunded}
use shake_escrow.Instructions.RefundSide.Effect.{Refunded}
use shake_escrow.Instructions.Resolve.Effect.{Parties, Settled}
use shake_escrow.Instructions.Cancel.{CancelAccept}
use shake_escrow.Instructions.Cancel.Effect.{Accepted}
use shake_escrow.Widths.{WagerFits, WagersFit, Fits, HasByteBumps}
use shake_escrow.Widths.Entries.{
  WagersFit-lookup, WagersFit-insert, WagersFit-erase, CountersFit, CountersFit-update,
  release-CounterFits, total-ConfigFits, only-ConfigFits, less-ConfigFits,
}

-- The writes to a wager leave its numbers.
module _ (g : Wager) (fit : WagerFits g) (is_a : Bool) where
  fund-WagerFits : WagerFits (lock_if_funded (fund is_a g))
  fund-WagerFits = record {
    stake = ground (arith, fit.stake);
    deadline_fund = ground (arith, fit.deadline_fund);
    deadline_resolve = ground (arith, fit.deadline_resolve);
    fee_bps = ground (arith, fit.fee_bps);
    nonce = ground (arith, fit.nonce);
    bump = ground (arith, fit.bump);
  }

  unfund-WagerFits : WagerFits (unfund is_a g)
  unfund-WagerFits = record {
    stake = ground (arith, fit.stake);
    deadline_fund = ground (arith, fit.deadline_fund);
    deadline_resolve = ground (arith, fit.deadline_resolve);
    fee_bps = ground (arith, fit.fee_bps);
    nonce = ground (arith, fit.nonce);
    bump = ground (arith, fit.bump);
  }

  mark-WagerFits : WagerFits (mark_refunded is_a g)
  mark-WagerFits = record {
    stake = ground (arith, fit.stake);
    deadline_fund = ground (arith, fit.deadline_fund);
    deadline_resolve = ground (arith, fit.deadline_resolve);
    fee_bps = ground (arith, fit.fee_bps);
    nonce = ground (arith, fit.nonce);
    bump = ground (arith, fit.bump);
  }

propose-WagerFits :
    (g : Wager) (p : Pubkey) → WagerFits g → WagerFits (record g { cancel_proposed_by = p })
propose-WagerFits g p fit = record {
  stake = fit.stake;
  deadline_fund = fit.deadline_fund;
  deadline_resolve = fit.deadline_resolve;
  fee_bps = fit.fee_bps;
  nonce = fit.nonce;
  bump = fit.bump;
}

module _ (rt : Runtime) (laws : TokenLaws rt) (bytes : HasByteBumps rt) (w : World)
    (fits : Fits w) where
  pub Staked-Fits : (ctx : StakeSide) {w' : World} → Staked rt ctx w w' → Fits w'
  Staked-Fits ctx s =
      let c = fits.config s.config s.config_at in
      let g = WagersFit-lookup ctx.wager w.wagers fits.wagers s.wager_at.found in
      rw s.result (record {
        config = only-ConfigFits _ (total-ConfigFits s.config _ s.allowed.total_fits c);
        admin_transfer = fits.admin_transfer;
        wagers = WagersFit-insert ctx.wager _ w.wagers (fund-WagerFits s.wager g _) fits.wagers;
        counters =
            CountersFit-update w.counters ctx.counter _
              (record {
                count = omega (arith, s.allowed.under_cap, c.max_open_per_wallet);
                bump = bytes _;
              })
              fits.counters;
      })

  -- One side leaves: the sum and its counter fall, and its wager is written.
  pub Unstaked-Fits : (ctx : UnstakeSide) {w' : World} → Unstaked rt ctx w w' → Fits w'
  Unstaked-Fits ctx s =
      let c = fits.config s.config s.config_at in
      let g = WagersFit-lookup ctx.wager w.wagers fits.wagers s.wager_at.found in
      let k = fits.counters ctx.counter s.counter s.counter_at.found in
      rw s.result (record {
        config = only-ConfigFits _ (less-ConfigFits s.config s.wager.stake c);
        admin_transfer = fits.admin_transfer;
        wagers = WagersFit-insert ctx.wager _ w.wagers (unfund-WagerFits s.wager g _) fits.wagers;
        counters =
            CountersFit-update w.counters ctx.counter _ (release-CounterFits s.counter k)
              fits.counters;
      })

  pub Refunded-Fits : (ctx : RefundSide) {w' : World} → Refunded rt ctx w w' → Fits w'
  Refunded-Fits ctx s =
      let c = fits.config s.config s.config_at in
      let g = WagersFit-lookup ctx.wager w.wagers fits.wagers s.wager_at.found in
      let k = fits.counters ctx.counter s.counter s.counter_at.found in
      rw s.result (record {
        config = only-ConfigFits _ (less-ConfigFits s.config s.wager.stake c);
        admin_transfer = fits.admin_transfer;
        wagers = WagersFit-insert ctx.wager _ w.wagers (mark-WagerFits s.wager g _) fits.wagers;
        counters =
            CountersFit-update w.counters ctx.counter _ (release-CounterFits s.counter k)
              fits.counters;
      })

  -- Both sides leave and the wager goes.
  both_released :
      (ca cb : Pubkey) (ka kb : ExposureCounter)
      → w.counters ca ≡ some ka
      → w.counters cb ≡ some kb
      → CountersFit (update (update w.counters ca (some (release ka))) cb (some (release kb)))
  both_released ca cb ka kb at_a at_b =
      CountersFit-update _ cb _ (release-CounterFits kb (fits.counters cb kb at_b)) (
        CountersFit-update w.counters ca _ (release-CounterFits ka (fits.counters ca ka at_a))
          fits.counters)

  erased : (k : Pubkey) (final : Wager) → WagersFit (erase k (insert k final w.wagers))
  erased k final = rw (erase-insert k final w.wagers) (WagersFit-erase k w.wagers fits.wagers)

  pub Settled-Fits : (p : Parties) {w' : World} → Settled rt p w w' → Fits w'
  Settled-Fits p s = rw s.result (record {
    config =
        only-ConfigFits _
          (less-ConfigFits s.config (s.payout + s.fee) (fits.config s.config s.config_at));
    admin_transfer = fits.admin_transfer;
    wagers = erased p.wager _;
    counters =
        both_released p.counter_a p.counter_b s.counter_a s.counter_b s.counter_a_at.found
          s.counter_b_at.found;
  })

  pub Accepted-Fits : (ctx : CancelAccept) {w' : World} → Accepted rt ctx w w' → Fits w'
  Accepted-Fits ctx s = rw s.result (record {
    config = only-ConfigFits _ (less-ConfigFits s.config _ (fits.config s.config s.config_at));
    admin_transfer = fits.admin_transfer;
    wagers = erased ctx.wager _;
    counters =
        both_released ctx.counter_a ctx.counter_b s.counter_a s.counter_b s.counter_a_at.found
          s.counter_b_at.found;
  })

  pub reproposed-Fits :
      (k p : Pubkey) {g : Wager} {event : Event} {w' : World}
      → w'
        ≡ emit event (record w { wagers = insert k (record g { cancel_proposed_by = p }) w.wagers })
      → lookup k w.wagers ≡ some g
      → Fits w'
  reproposed-Fits k p {g} result at = rw result (record {
    config = fits.config;
    admin_transfer = fits.admin_transfer;
    wagers =
        WagersFit-insert k _ w.wagers
          (propose-WagerFits g p (WagersFit-lookup k w.wagers fits.wagers at)) fits.wagers;
    counters = fits.counters;
  })
