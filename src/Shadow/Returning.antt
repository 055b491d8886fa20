-- ===== src/Shadow/Returning.antt =====
-- One stake on its way back from a vault, for `flow_unstake` and `flow_refund` of
-- trident-tests/fuzz_0/test_fuzz.rs.
use shake_escrow.Base.{
  ◌+◌, ◌-◌, ◌≡◌, Bool, true, false, none, some, arith, ap, ◌∙◌, refl, if◌then◌else◌,
}
use shake_escrow.Base.Dict.{lookup, insert, update, lookup-insert_ne, lookup-insert_self}
use shake_escrow.State.{Pubkey, ExposureCounter}
use shake_escrow.Events.{Event}
use shake_escrow.Runtime.{Runtime, TokenAccount}
use shake_escrow.Runtime.Laws.{AddressLaws, moved}
use shake_escrow.World.{World, emit}
use shake_escrow.Instructions.UnstakeSide.{release}
use shake_escrow.Shadow.{MWager, Shadow, vault_expected}
use shake_escrow.Shadow.Flows.{put, raise, lower}
use shake_escrow.Shadow.Circulation.{IsDistinct, vault_of-open, circulating-payout}
use shake_escrow.Shadow.Sending.{Fixture, ata, counter_pda}
use shake_escrow.Shadow.Coupling.{
  IsConfigured-total, IsActor, IsLive, live, Coupled, wager_of, Follows,
}
use shake_escrow.Shadow.Frames.{KeepsOthers, Mirrors-insert, Follows-if}
use shake_escrow.Shadow.Purses.{
  counters-update, withdrawn, withdraw-fees, withdraw-vault, withdraw-others,
}

module _ (rt : Runtime) (fx : Fixture) (addresses : AddressLaws rt)
    (agent_signs : rt.can_sign fx.agent ≡ true) (w : World) (m : Shadow) (k x : Pubkey) (g : MWager)
    (co : Coupled rt fx w m) (actor : IsActor rt fx x) (l : IsLive rt fx w k g)
    (distinct : IsDistinct fx.actors) (known : lookup k m.wagers ≡ some g) where
  -- The world once the stake is back at `x` and the wager is written as `new`.
  abbrev left : MWager → ExposureCounter → Event → World
  left new counter event = emit event (record w {
    config = some (record co.config { total_open_value = co.config.total_open_value - g.stake });
    counters = update w.counters (counter_pda rt fx x) (some (release counter));
    wagers = insert k (wager_of rt fx new l.nonce l.bump) w.wagers;
    tokens = moved (ata rt fx k) (ata rt fx x) g.stake w.tokens;
  })

  abbrev pays_back : MWager → Shadow
  pays_back new = put k new (record m {
    balances = raise g.stake x m.balances;
    counters = lower 1 x m.counters;
    total_open = m.total_open - g.stake;
  })

  module _ (cannot : rt.can_sign k ≡ false) (new : MWager) (counter : ExposureCounter)
      (event : Event) (target vault : TokenAccount)
      (target_at : w.tokens (ata rt fx x) ≡ some target)
      (vault_at : w.tokens (ata rt fx k) ≡ some vault) (count : counter.count ≡ m.counters x)
      (kept : (new.sa ≡ g.sa)
        × (new.sb ≡ g.sb)
        × (new.closed ≡ g.closed)
        × (new.proposal ≡ g.proposal))
      (owed : vault_expected new + g.stake ≡ vault_expected g) where
    others : KeepsOthers rt fx w (left new counter event) k
    others j no_key ne = (
      lookup-insert_ne j k _ w.wagers ne,
      withdraw-others rt fx addresses agent_signs w m co x k actor cannot g.stake target vault
          target_at vault_at j no_key ne,
    )

    still : IsLive rt fx (left new counter event) k new
    still = record {
      is_open = kept.2 ∙ l.is_open;
      nonce = l.nonce;
      bump = l.bump;
      found = lookup-insert_self k _ w.wagers;
      vaulted =
          withdraw-vault rt fx addresses agent_signs w m co x k actor cannot g.stake target vault
            target_at vault_at
          ∙ omega (arith, owed, l.vaulted);
      side_0_actor = rw kept.0 l.side_0_actor;
      side_1_actor = rw kept.1 l.side_1_actor;
      proposer_real = rw kept.3 l.proposer_real;
    }

    left-Coupled : Coupled rt fx (left new counter event) (pays_back new)
    left-Coupled = record {
      config = record co.config { total_open_value = co.config.total_open_value - g.stake };
      config_at = refl;
      configured =
          IsConfigured-total rt fx co.config m _ _ refl
            (ap (λ n. n - g.stake) co.configured.total_open) co.configured;
      balances =
          withdrawn rt fx addresses agent_signs w m co x k actor cannot g.stake target vault
            target_at vault_at;
      fee_balance =
          withdraw-fees rt fx addresses agent_signs w m co x k actor cannot g.stake target vault
            target_at vault_at;
      counters = counters-update rt fx addresses w m x _ _ co (ap (λ n. n - 1) count);
      mirrors = Mirrors-insert rt fx w (left new counter event) m k new co others (live still);
    }

    pub left-Follows :
        (b : Bool)
        → b ≡ true
        → Follows rt fx (left new counter event) m (if b then some (pays_back new) else none)
    left-Follows b accepts = Follows-if rt fx _ m b _ accepts left-Coupled (
        omega (
          arith,
          circulating-payout fx distinct m k g new known x g.stake 0 actor.listed
              (omega (arith, owed, vault_of-open new still.is_open, vault_of-open g l.is_open)),
        ))
