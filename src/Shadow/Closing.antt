-- ===== src/Shadow/Closing.antt =====
-- `flow_close` of trident-tests/fuzz_0/test_fuzz.rs against the program's `close_expired`.
use shake_escrow.Base.{◌≡◌, ◌≢◌, true, false, some, arith, sym, ap, ◌∙◌, refl}
use shake_escrow.Base.Dict.{lookup, lookup-erase_ne, lookup-erase_self}
use shake_escrow.State.{Pubkey, Wager}
use shake_escrow.Runtime.{Runtime}
use shake_escrow.Runtime.Laws.{AddressLaws, balance}
use shake_escrow.World.{World}
use shake_escrow.Custody.{IsSound}
use shake_escrow.Instructions.Payout.Payments.{amount_at, removed_self, removed-other}
use shake_escrow.Instructions.CloseExpired.Effect.{Closed, closed_world}
use shake_escrow.Shadow.{MWager, Shadow, vault_expected, all_exited}
use shake_escrow.Shadow.Flows.{put, due, flow_close}
use shake_escrow.Shadow.Circulation.{IsDistinct, vault_of-open, circulating-rewritten}
use shake_escrow.Shadow.Sending.{Fixture, ata, close_accounts}
use shake_escrow.Shadow.Coupling.{IsConfigured-total, IsLive, gone, Coupled, wager_of, Follows}
use shake_escrow.Shadow.Frames.{Mirrors-insert, Follows-if, ata_apart, signs_apart}

vault-exited : (g : MWager) → all_exited g ≡ true → vault_expected g ≡ 0
vault-exited g out = ground arith

module _ (rt : Runtime) (fx : Fixture) (addresses : AddressLaws rt)
    (agent_signs : rt.can_sign fx.agent ≡ true) (w w' : World) (m : Shadow) (k cranker : Pubkey)
    (g : MWager) (sound : IsSound rt w) (co : Coupled rt fx w m) (l : IsLive rt fx w k g)
    (distinct : IsDistinct fx.actors) (known : lookup k m.wagers ≡ some g)
    (s : Closed rt (close_accounts rt fx k cranker) w w') where
  abbrev old : Wager
  old = wager_of rt fx g l.nonce l.bump

  same : s.wager ≡ old
  same = cc (s.wager_at.found, l.found)

  cannot : rt.can_sign k ≡ false
  cannot = addresses.off_curve _ _ _ s.wager_at.address

  exited : all_exited g ≡ true
  exited = rw same at s.exited

  is_due : due g w.clock ≡ true
  is_due = let by_program = rw same at s.due in ground arith

  empty : s.vault.amount ≡ 0
  empty =
      sym (amount_at w.tokens (ata rt fx k) s.vault s.vault_at.found)
      ∙ (l.vaulted ∙ vault-exited g exited)

  abbrev after : World
  after = closed_world (close_accounts rt fx k cranker) old 0 w

  result : w' ≡ after
  result = rw (same, empty) at s.result

  elsewhere : (y : Pubkey) → y ≢ k → after.tokens (ata rt fx y) ≡ w.tokens (ata rt fx y)
  elsewhere y ne =
      removed-other (ata rt fx k) (ata rt fx y) w.tokens (ata_apart rt fx addresses y k ne)

  close-Coupled : Coupled rt fx after (put k (record g { closed = true }) m)
  close-Coupled = record {
    config = co.config;
    config_at = co.config_at;
    configured =
        IsConfigured-total rt fx co.config m _ _ refl (co.configured.total_open) co.configured;
    balances = λ y actor.
        ap (λ o. balance (λ z. o) 0)
          (elsewhere y (signs_apart rt fx addresses y k actor.signs cannot))
        ∙ co.balances y actor;
    fee_balance =
        ap (λ o. balance (λ z. o) 0)
          (elsewhere fx.agent (signs_apart rt fx addresses fx.agent k agent_signs cannot))
        ∙ co.fee_balance;
    counters = co.counters;
    mirrors =
        Mirrors-insert rt fx w after m k _ co
          (λ j no_key ne. (lookup-erase_ne j k w.wagers ne, elsewhere j ne))
          (gone refl (lookup-erase_self k w.wagers sound.keyed)
            (removed_self (ata rt fx k) w.tokens));
  }

  pub close-Follows : Follows rt fx w' m (flow_close k w.clock m g)
  unfolding flow_close
  close-Follows = rw result (
      Follows-if rt fx after m _ _ (ground (arith, l.is_open, is_due, exited)) close-Coupled (
        circulating-rewritten fx distinct m k g (record g { closed = true }) known
          (omega (arith, vault_of-open g l.is_open, vault-exited g exited))))
