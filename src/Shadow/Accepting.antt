-- ===== src/Shadow/Accepting.antt =====
-- `cancel_accept` of the cancel trio of trident-tests/fuzz_0/test_fuzz.rs against the program's.
use shake_escrow.Base.{
  ◌+◌, ◌-◌, ◌*◌, ◌≡◌, ◌≢◌, true, false, some, ◌==◌, ==_iff, Bool-cases, inl, inr, arith, sym, ap,
  ◌∙◌, refl,
}
use shake_escrow.Base.Words.{u64_max, saturating_mul}
use shake_escrow.Base.Dict.{lookup}
use shake_escrow.State.{Pubkey, Wager}
use shake_escrow.Runtime.{Runtime}
use shake_escrow.Runtime.Laws.{AddressLaws, balance}
use shake_escrow.World.{World}
use shake_escrow.Custody.{IsSound, locked, count_of, count_at, le-sum_of}
use shake_escrow.Instructions.Cancel.Effect.{MayAccept, Accepted}
use shake_escrow.Instructions.Cancel.Returned.{IsReturned, AreApart, Accepted-IsReturned}
use shake_escrow.Shadow.{MWager, Shadow}
use shake_escrow.Shadow.Flows.{put, raise, lower, flow_accept}
use shake_escrow.Shadow.Circulation.{IsDistinct, vault_of-open, circulating-return}
use shake_escrow.Shadow.Sending.{Fixture, ata, fee_token, accept_accounts}
use shake_escrow.Shadow.Coupling.{
  IsConfigured-total, IsActor, IsLive, gone, Coupled, wager_of, Follows,
}
use shake_escrow.Shadow.Pots.{
  vault_expected-locked, lookup-erased, lookup-erased_ne, counters-settle, conceder_side, pot-full,
}
use shake_escrow.Shadow.Cancelling.{a_proposal}
use shake_escrow.Shadow.Frames.{KeepsOthers, Mirrors-insert, Follows-if, ata_apart, signs_apart}

module _ (rt : Runtime) (fx : Fixture) (addresses : AddressLaws rt)
    (agent_signs : rt.can_sign fx.agent ≡ true) (w w' : World) (m : Shadow) (k x : Pubkey)
    (g : MWager) (sound : IsSound rt w) (co : Coupled rt fx w m) (l : IsLive rt fx w k g)
    (distinct : IsDistinct fx.actors) (known : lookup k m.wagers ≡ some g)
    (s : Accepted rt (accept_accounts rt fx k g x) w w') where
  abbrev before : Wager
  before = wager_of rt fx g l.nonce l.bump

  same : s.wager ≡ before
  same = cc (s.wager_at.found, l.found)

  same_config : s.config ≡ co.config
  same_config = cc (s.config_at, co.config_at)

  cannot : rt.can_sign k ≡ false
  cannot = addresses.off_curve _ _ _ s.wager_at.address

  sides_apart : g.sa ≢ g.sb
  sides_apart = (sound.custodied k before l.found).well_formed.sides_apart

  allowed : MayAccept x before w
  allowed = rw same at s.allowed

  vault-actor : (y : Pubkey) → IsActor rt fx y → y ≢ k
  vault-actor y actor = signs_apart rt fx addresses y k actor.signs cannot

  vault-agent : fx.agent ≢ k
  vault-agent = signs_apart rt fx addresses fx.agent k agent_signs cannot

  apart : AreApart (ata rt fx k) (ata rt fx g.sa) (ata rt fx g.sb) (fee_token rt fx)
  apart = record {
    vault = (
      ata_apart rt fx addresses g.sa k (vault-actor g.sa l.side_0_actor),
      ata_apart rt fx addresses g.sb k (vault-actor g.sb l.side_1_actor),
      ata_apart rt fx addresses fx.agent k vault-agent,
    );
    sides = (
      ata_apart rt fx addresses g.sa g.sb sides_apart,
      ata_apart rt fx addresses g.sa fx.agent l.side_0_actor.not_agent,
      ata_apart rt fx addresses g.sb fx.agent l.side_1_actor.not_agent,
    );
  }

  money : IsReturned (accept_accounts rt fx k g x) g.stake w.tokens w'.tokens
  money = rw same at (Accepted-IsReturned rt (accept_accounts rt fx k g x) w apart s)

  full : balance w.tokens (ata rt fx k) ≡ g.stake + g.stake
  full = pot-full rt fx w k g sound l allowed.is_active allowed.in_time

  elsewhere :
      (y : Pubkey)
      → y ≢ k
      → y ≢ g.sa
      → y ≢ g.sb
      → y ≢ fx.agent
      → w'.tokens (ata rt fx y) ≡ w.tokens (ata rt fx y)
  elsewhere y nk na nb nf =
      money.others_kept (ata rt fx y) (ata_apart rt fx addresses y k nk)
        (ata_apart rt fx addresses y g.sa na) (ata_apart rt fx addresses y g.sb nb)
        (ata_apart rt fx addresses y fx.agent nf)

  returned :
      (y : Pubkey)
      → IsActor rt fx y
      → balance w'.tokens (ata rt fx y) ≡ raise g.stake g.sb (raise g.stake g.sa m.balances) y
  returned y actor = elim (Bool-cases (y == g.sb)) [
    | inl e ↦
        rw (e, (==_iff y g.sb).0 e)
          (money.b_paid ∙ ground (arith, co.balances g.sb l.side_1_actor, sides_apart))
    | inr not_b ↦ elim (Bool-cases (y == g.sa)) [
      | inl e ↦
          rw (not_b, e)
            (ap (λ z. balance w'.tokens (ata rt fx z)) ((==_iff y g.sa).0 e)
              ∙ (money.a_paid ∙ ap (λ n. n + g.stake) (co.balances g.sa l.side_0_actor)))
      | inr not_a ↦
          rw (not_b, not_a)
            (ap (λ o. balance (λ z. o) 0)
                (elsewhere y (vault-actor y actor) (ground arith) (ground arith) actor.not_agent)
              ∙ co.balances y actor)
    ]
  ]

  others : KeepsOthers rt fx w w' k
  others j no_key ne = (
    ap (λ (v : World). lookup j v.wagers) s.result ∙ lookup-erased_ne j k _ w.wagers ne,
    elsewhere j ne (λ e. signs_apart rt fx addresses g.sa j l.side_0_actor.signs no_key (sym e))
        (λ e. signs_apart rt fx addresses g.sb j l.side_1_actor.signs no_key (sym e))
        (λ e. signs_apart rt fx addresses fx.agent j agent_signs no_key (sym e)),
  )

  -- Both stakes are part of the global sum, so their double does not saturate.
  pot-fits : saturating_mul u64_max g.stake 2 ≡ g.stake * 2
  pot-fits =
      let most = le-sum_of locked k before w.wagers l.found in
      ground (
        arith,
        most,
        sound.booked,
        sound.bounded,
        full,
        l.vaulted,
        vault_expected-locked rt fx g l.nonce l.bump,
      )

  accept-Coupled : Coupled rt fx w' (
      put k
        (record g { closed = true })
        (record m {
          balances = raise g.stake g.sb (raise g.stake g.sa m.balances);
          counters = lower 1 g.sb (lower 1 g.sa m.counters);
          total_open = m.total_open - g.stake * 2;
        }))
  accept-Coupled = record {
    config = record co.config { total_open_value = co.config.total_open_value - g.stake * 2 };
    config_at = ap (λ (v : World). v.config) s.result ∙ rw (same_config, same, pot-fits) refl;
    configured =
        IsConfigured-total rt fx co.config m _ _ refl
          (ap (λ n. n - g.stake * 2) co.configured.total_open) co.configured;
    balances = returned;
    fee_balance = omega (arith, money.fee_paid, co.fee_balance, full);
    counters = λ y.
        ap (λ (v : World). count_at rt v y) s.result
        ∙ counters-settle rt fx addresses w m g.sa g.sb s.counter_a s.counter_b co sides_apart
            (ap count_of (sym s.counter_a_at.found) ∙ co.counters g.sa)
            (ap count_of (sym s.counter_b_at.found) ∙ co.counters g.sb) y;
    mirrors = Mirrors-insert rt fx w w' m k _ co others (
        gone refl
          (ap (λ (v : World). lookup k v.wagers) s.result ∙ lookup-erased k _ w.wagers sound.keyed)
          money.vault_closed);
  }

  pub accept-Follows : Follows rt fx w' m (flow_accept k x w.clock m g)
  unfolding flow_accept
  accept-Follows =
      let by_side = conceder_side rt fx g x l.nonce l.bump allowed.participant in
      Follows-if rt fx w' m _ _
        (ground (
          arith,
          l.is_open,
          allowed.is_active,
          allowed.in_time,
          by_side,
          allowed.other,
          a_proposal rt fx w m k g co l distinct known allowed.is_open,
        ))
        accept-Coupled
        (circulating-return fx distinct m k g (record g { closed = true }) known g.sa g.sb g.stake
          l.side_0_actor.listed l.side_1_actor.listed
          (omega (arith, full, l.vaulted, vault_of-open g l.is_open)))
