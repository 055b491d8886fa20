-- ===== src/Shadow/Staking.antt =====
-- `flow_stake` of trident-tests/fuzz_0/test_fuzz.rs against the program's `stake_side`.
use shake_escrow.Base.{
  ℕ, ◌+◌, ◌≤◌, ◌≡◌, ◌||◌, true, false, some, ◌==◌, arith, sym, ap, ◌∙◌, refl, if◌then◌else◌,
}
use shake_escrow.Base.Dict.{lookup, lookup-insert_ne, lookup-insert_self}
use shake_escrow.State.{Pubkey, Config, Wager, ExposureCounter}
use shake_escrow.Runtime.{Runtime}
use shake_escrow.Runtime.Laws.{TokenLaws, AddressLaws, balance, moved}
use shake_escrow.World.{World}
use shake_escrow.Custody.{IsSound}
use shake_escrow.Custody.Counters.{counter_address}
use shake_escrow.Custody.Staking.{counter_or_new-count}
use shake_escrow.Custody.Sides.{unrefunded, funding_early}
use shake_escrow.Instructions.StakeSide.{
  StakeSide, counter_or_new, fund, lock_if_funded, write_stake,
}
use shake_escrow.Instructions.StakeSide.Effect.{MayStake, Staked}
use shake_escrow.Shadow.{MWager, Shadow, side_of, vault_expected}
use shake_escrow.Shadow.Flows.{
  put, raise, lower, may_stake, on_side, set_funded, lock_if_both, flow_stake,
}
use shake_escrow.Shadow.Circulation.{IsDistinct, vault_of-open, circulating-deposit}
use shake_escrow.Shadow.Sending.{Fixture, ata, stake_accounts}
use shake_escrow.Shadow.Coupling.{
  IsConfigured-total, IsActor, IsLive, IsConfigured, live, Coupled, wager_of, Follows,
}
use shake_escrow.Shadow.Frames.{KeepsOthers, Mirrors-insert, Follows-if}
use shake_escrow.Shadow.Purses.{
  counters-update, deposited, deposit-fees, deposit-vault, deposit-others,
}

module _ (rt : Runtime) (fx : Fixture) where
  stake_decided :
      (ctx : StakeSide) (c : Config) (m : Shadow) (g : MWager) (nonce bump : ℕ)
      (counter : ExposureCounter) (w : World)
      → IsConfigured rt fx c m
      → g.closed ≡ false
      → counter.count ≡ m.counters ctx.staker
      → g.stake ≤ m.balances ctx.staker
      → MayStake ctx c (wager_of rt fx g nonce bump) counter w
      → may_stake m g ctx.staker w.clock ≡ true
  stake_decided ctx c m g nonce bump counter w conf is_open count covered s = ground (
    arith, s.is_funding, s.in_time, s.participant, s.unfunded, s.under_cap, s.total_capped,
    conf.wallet_cap, conf.total_cap, conf.total_open,
  )

  wager_of-fund :
      (g : MWager) (x : Pubkey) (nonce bump : ℕ)
      → (x == g.sa || x == g.sb) ≡ true
      → lock_if_funded (fund (x == g.sa) (wager_of rt fx g nonce bump))
        ≡ wager_of rt fx (lock_if_both (on_side (side_of g x) (set_funded true) g)) nonce bump
  wager_of-fund g x nonce bump member = ground arith

  vault-fund :
      (g : MWager) (x : Pubkey)
      → (x == g.sa || x == g.sb) ≡ true
      → (g.refunded_0 ≡ false) × (g.refunded_1 ≡ false)
      → (if x == g.sa then g.funded_0 else g.funded_1) ≡ false
      → vault_expected (lock_if_both (on_side (side_of g x) (set_funded true) g))
        ≡ vault_expected g + g.stake
  vault-fund g x member fresh unfunded = ground arith

  module _ (tokens : TokenLaws rt) (addresses : AddressLaws rt)
      (agent_signs : rt.can_sign fx.agent ≡ true) (w w' : World) (m : Shadow) (k x : Pubkey)
      (g : MWager) (sound : IsSound rt w) (co : Coupled rt fx w m) (actor : IsActor rt fx x)
      (l : IsLive rt fx w k g) (distinct : IsDistinct fx.actors)
      (known : lookup k m.wagers ≡ some g) (s : Staked rt (stake_accounts rt fx k x) w w') where
    abbrev old : Wager
    old = wager_of rt fx g l.nonce l.bump

    abbrev new : MWager
    new = lock_if_both (on_side (side_of g x) (set_funded true) g)

    same : s.wager ≡ old
    same = cc (s.wager_at.found, l.found)

    same_config : s.config ≡ co.config
    same_config = cc (s.config_at, co.config_at)

    cannot : rt.can_sign k ≡ false
    cannot = addresses.off_curve _ _ _ s.wager_at.address

    paid :
        (g.stake ≤ balance w.tokens (ata rt fx x))
        × (s.tokens ≡ moved (ata rt fx x) (ata rt fx k) g.stake w.tokens)
    paid = tokens.transfer_moves _ _ _ _ _ _ (rw same at s.paid)

    abbrev counter : ExposureCounter
    counter = counter_or_new (w.counters (counter_address rt x))

    count : counter.count ≡ m.counters x
    count = counter_or_new-count (w.counters (counter_address rt x)) ∙ co.counters x

    allowed : MayStake (stake_accounts rt fx k x) co.config old counter w
    allowed = rw (same, same_config) at s.allowed

    fresh : (g.refunded_0 ≡ false) × (g.refunded_1 ≡ false)
    fresh =
        unrefunded old w.clock (sound.custodied k old l.found).timely
          (funding_early old w.clock allowed.is_funding allowed.in_time)

    abbrev after : World
    after =
        write_stake rt (stake_accounts rt fx k x) co.config old
          (co.config.total_open_value + g.stake) (counter.count + 1)
          (record w { tokens = moved (ata rt fx x) (ata rt fx k) g.stake w.tokens })

    result : w' ≡ after
    result = rw (same, same_config, paid.1) at s.result

    vaulted : balance after.tokens (ata rt fx k) ≡ vault_expected new
    vaulted =
        deposit-vault rt fx addresses agent_signs w m co x k actor cannot g.stake s.source s.vault
          s.source_at s.vault_at.found
        ∙ (ap (λ n. n + g.stake) l.vaulted
            ∙ sym (vault-fund g x allowed.participant fresh allowed.unfunded))

    others : KeepsOthers rt fx w after k
    others j no_key ne = (
      lookup-insert_ne j k _ w.wagers ne,
      deposit-others rt fx addresses agent_signs w m co x k actor cannot g.stake s.source s.vault
          s.source_at s.vault_at.found j no_key ne,
    )

    kept : (new.sa ≡ g.sa) × (new.sb ≡ g.sb) × (new.closed ≡ g.closed) × (new.proposal ≡ g.proposal)
    kept = ground arith

    still : IsLive rt fx after k new
    still = record {
      is_open = kept.2 ∙ l.is_open;
      nonce = l.nonce;
      bump = l.bump;
      found =
          lookup-insert_self k _ w.wagers
          ∙ ap some (wager_of-fund g x l.nonce l.bump allowed.participant);
      vaulted = vaulted;
      side_0_actor = rw kept.0 l.side_0_actor;
      side_1_actor = rw kept.1 l.side_1_actor;
      proposer_real = rw kept.3 l.proposer_real;
    }

    stake-Coupled : Coupled rt fx after (
        put k new (record m {
          balances = lower g.stake x m.balances;
          counters = raise 1 x m.counters;
          total_open = m.total_open + g.stake;
        }))
    stake-Coupled = record {
      config = record co.config { total_open_value = co.config.total_open_value + g.stake };
      config_at = refl;
      configured =
          IsConfigured-total rt fx co.config m _ _ refl
            (ap (λ n. n + g.stake) co.configured.total_open) co.configured;
      balances =
          deposited rt fx addresses agent_signs w m co x k actor cannot g.stake s.source s.vault
            s.source_at s.vault_at.found;
      fee_balance =
          deposit-fees rt fx addresses agent_signs w m co x k actor cannot g.stake s.source s.vault
            s.source_at s.vault_at.found;
      counters = counters-update rt fx addresses w m x _ _ co (ap (λ n. n + 1) count);
      mirrors = Mirrors-insert rt fx w after m k new co others (live still);
    }

    covered : g.stake ≤ m.balances x
    covered = rw (co.balances x actor) at paid.0

    stake-accepted : may_stake m g x w.clock ≡ true
    stake-accepted =
        stake_decided (stake_accounts rt fx k x) co.config m g l.nonce l.bump counter w
          co.configured l.is_open count covered allowed

    pub stake-Follows : Follows rt fx w' m (flow_stake k x w.clock m g)
    unfolding flow_stake
    stake-Follows = rw result (
        Follows-if rt fx after m _ _ stake-accepted stake-Coupled (
          circulating-deposit fx distinct m k g new known x g.stake actor.listed covered (
            vault_of-open new still.is_open
            ∙ (vault-fund g x allowed.participant fresh allowed.unfunded
                ∙ ap (λ n. n + g.stake) (sym (vault_of-open g l.is_open))))))
