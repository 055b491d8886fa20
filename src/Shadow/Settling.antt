-- ===== src/Shadow/Settling.antt =====
-- `flow_resolve` and `flow_concede` of trident-tests/fuzz_0/test_fuzz.rs against the program's
-- `resolve` and `concede`: the pot goes to the winner and the fee account.
use shake_escrow.Base.{
  ℕ, ◌+◌, ◌-◌, ◌*◌, ◌≡◌, ◌≢◌, Bool, true, false, some, ok, ◌==◌, ==_iff, Bool-cases, inl, inr,
  arith, sym, ap, ◌∙◌, subst, refl,
}
use shake_escrow.Base.Int.{leb_ℤ}
use shake_escrow.Base.Dict.{lookup}
use shake_escrow.State.{Pubkey, Wager, is_participant}
use shake_escrow.Runtime.{Runtime}
use shake_escrow.Runtime.Laws.{AddressLaws, balance}
use shake_escrow.World.{World}
use shake_escrow.Custody.{IsSound, count_of, count_at}
use shake_escrow.Instructions.Payout.{split_pot}
use shake_escrow.Instructions.Payout.Payments.{IsPaidOut}
use shake_escrow.Instructions.Resolve.Effect.{Parties, Settled}
use shake_escrow.Instructions.Concede.Agreement.{Settled-IsPaidOut}
use shake_escrow.Instructions.Concede.{counterparty}
use shake_escrow.Shadow.{is_active, is_some, MWager, Shadow, side_of}
use shake_escrow.Shadow.Flows.{raise, fee_of, settle, named_winner, flow_resolve, flow_concede}
use shake_escrow.Shadow.Circulation.{IsDistinct, circulating, vault_of-open, circulating-payout}
use shake_escrow.Shadow.Sending.{Fixture, ata, counter_pda, fee_token}
use shake_escrow.Shadow.Coupling.{
  IsConfigured-total, IsActor, IsLive, gone, Coupled, wager_of, Follows,
}
use shake_escrow.Shadow.Pots.{
  lookup-erased, lookup-erased_ne, counters-settle, conceder_side, pot-full,
}
use shake_escrow.Shadow.Frames.{KeepsOthers, Mirrors-insert, Follows-if, ata_apart, signs_apart}

pub split_pot-fee_of :
    (stake fee_bps payout fee : ℕ)
    → split_pot stake fee_bps ≡ ok (payout, fee)
    → (fee ≡ fee_of (stake * 2) fee_bps)
      × (payout ≡ stake * 2 - fee_of (stake * 2) fee_bps)
      × (payout + fee ≡ stake * 2)
unfolding split_pot
split_pot-fee_of stake fee_bps payout fee h = ground arith

module _ (rt : Runtime) (fx : Fixture) where
  conceder_not_named :
      (g : MWager) (actor : Pubkey) (names_self : Bool) (nonce bump : ℕ)
      → g.sa ≢ g.sb
      → is_participant (wager_of rt fx g nonce bump) actor ≡ true
      → named_winner g actor names_self ≡ counterparty (wager_of rt fx g nonce bump) actor
      → names_self ≡ false
  conceder_not_named g actor false nonce bump apart conceder named = refl
  conceder_not_named g actor true nonce bump apart conceder named = ground arith

module _ (rt : Runtime) (fx : Fixture) (addresses : AddressLaws rt)
    (agent_signs : rt.can_sign fx.agent ≡ true) (w w' : World) (m : Shadow) (k x : Pubkey)
    (g : MWager) (sound : IsSound rt w) (co : Coupled rt fx w m) (l : IsLive rt fx w k g)
    (distinct : IsDistinct fx.actors) (known : lookup k m.wagers ≡ some g) where
  abbrev parties : Parties
  parties = record {
    wager = k;
    winner = x;
    winner_token = ata rt fx x;
    fee_token = fee_token rt fx;
    vault = ata rt fx k;
    counter_a = counter_pda rt fx g.sa;
    counter_b = counter_pda rt fx g.sb;
    rent_collector = fx.ops;
  }

  abbrev old : Wager
  old = wager_of rt fx g l.nonce l.bump

  module _ (s : Settled rt parties w w') where
    same : s.wager ≡ old
    same = cc (s.wager_at.found, l.found)

    same_config : s.config ≡ co.config
    same_config = cc (s.config_at, co.config_at)

    cannot : rt.can_sign k ≡ false
    cannot = addresses.off_curve _ _ _ s.wager_at.address

    member : is_participant old x ≡ true
    member = rw same at s.participant

    winner-IsActor : IsActor rt fx x
    winner-IsActor = elim (Bool-cases (x == g.sa)) [
      | inl e ↦ subst (IsActor rt fx) (sym ((==_iff _ _).0 e)) l.side_0_actor
      | inr e ↦ let e' : x ≡ g.sb = ground arith in subst (IsActor rt fx) (sym e') l.side_1_actor
    ]

    money : IsPaidOut (ata rt fx k) (ata rt fx x) (fee_token rt fx) s.payout w.tokens w'.tokens
    money =
        Settled-IsPaidOut rt parties w
          (ata_apart rt fx addresses k x
            (λ e. signs_apart rt fx addresses x k winner-IsActor.signs cannot (sym e)))
          (ata_apart rt fx addresses k fx.agent
            (λ e. signs_apart rt fx addresses fx.agent k agent_signs cannot (sym e)))
          (ata_apart rt fx addresses x fx.agent winner-IsActor.not_agent) s

    shares :
        (s.fee ≡ fee_of (g.stake * 2) g.fee_bps)
        × (s.payout ≡ g.stake * 2 - fee_of (g.stake * 2) g.fee_bps)
        × (s.payout + s.fee ≡ g.stake * 2)
    shares = split_pot-fee_of g.stake g.fee_bps s.payout s.fee (rw same at s.split)

    full : balance w.tokens (ata rt fx k) ≡ g.stake + g.stake
    full = pot-full rt fx w k g sound l (rw same at s.is_active) (rw same at s.in_time)

    elsewhere :
        (y : Pubkey)
        → y ≢ k
        → y ≢ x
        → y ≢ fx.agent
        → w'.tokens (ata rt fx y) ≡ w.tokens (ata rt fx y)
    elsewhere y nk nx nf =
        money.others_kept (ata rt fx y) (ata_apart rt fx addresses y k nk)
          (ata_apart rt fx addresses y x nx) (ata_apart rt fx addresses y fx.agent nf)

    paid :
        (y : Pubkey)
        → IsActor rt fx y
        → balance w'.tokens (ata rt fx y)
          ≡ raise (g.stake * 2 - fee_of (g.stake * 2) g.fee_bps) x m.balances y
    paid y actor = elim (Bool-cases (y == x)) [
      | inl e ↦
          rw (e, (==_iff y x).0 e)
            (money.winner_paid ∙ omega (arith, shares.1, co.balances x winner-IsActor))
      | inr e ↦ rw e (
          ap (λ o. balance (λ z. o) 0)
            (elsewhere y (signs_apart rt fx addresses y k actor.signs cannot) (ground arith)
              actor.not_agent)
          ∙ co.balances y actor)
    ]

    others : KeepsOthers rt fx w w' k
    others j no_key ne = (
      ap (λ (v : World). lookup j v.wagers) s.result ∙ lookup-erased_ne j k _ w.wagers ne,
      elsewhere j ne (λ e. signs_apart rt fx addresses x j winner-IsActor.signs no_key (sym e))
          (λ e. signs_apart rt fx addresses fx.agent j agent_signs no_key (sym e)),
    )

    settle-Coupled : Coupled rt fx w' (settle k x m g)
    settle-Coupled = record {
      config = record co.config {
        total_open_value = co.config.total_open_value - (s.payout + s.fee);
      };
      config_at = ap (λ (v : World). v.config) s.result ∙ rw same_config refl;
      configured =
          IsConfigured-total rt fx co.config m _ _ refl
            (omega (arith, co.configured.total_open, shares.2)) co.configured;
      balances = paid;
      fee_balance = money.fee_paid ∙ omega (arith, co.fee_balance, full, shares.0, shares.2);
      counters = λ y.
          ap (λ (v : World). count_at rt v y) s.result
          ∙ counters-settle rt fx addresses w m g.sa g.sb s.counter_a s.counter_b co
              ((sound.custodied k old l.found).well_formed.sides_apart)
              (ap count_of (sym s.counter_a_at.found) ∙ co.counters g.sa)
              (ap count_of (sym s.counter_b_at.found) ∙ co.counters g.sb) y;
      mirrors = Mirrors-insert rt fx w w' m k _ co others (
          gone refl
            (ap (λ (v : World). lookup k v.wagers) s.result
              ∙ lookup-erased k _ w.wagers sound.keyed)
            money.vault_closed);
    }

    conserved : circulating fx (settle k x m g) ≡ circulating fx m
    conserved =
        circulating-payout fx distinct m k g (record g { closed = true }) known x _ _
          winner-IsActor.listed
          (omega (arith, shares.0, shares.1, shares.2, full, l.vaulted, vault_of-open g l.is_open))

    is_locked : is_active g.state ≡ true
    is_locked = let active_state = rw same at s.is_active in ground arith

    in_time : leb_ℤ w.clock g.d_resolve ≡ true
    in_time = rw same at s.in_time

    pub resolve-Follows : Follows rt fx w' m (flow_resolve k x w.clock m g)
    unfolding flow_resolve
    resolve-Follows =
        Follows-if rt fx w' m _ _ (ground (arith, l.is_open, is_locked, in_time, member))
          settle-Coupled conserved

    -- The winner that a conceder names is another, so it does not name itself.
    module _ (actor : Pubkey) (names_self : Bool) (winner : x ≡ named_winner g actor names_self)
        (conceder : is_participant s.wager actor ≡ true)
        (named : x ≡ counterparty s.wager actor) where
      not_self : names_self ≡ false
      not_self =
          conceder_not_named rt fx g actor names_self l.nonce l.bump
            (sound.custodied k old l.found).well_formed.sides_apart (rw same at conceder)
            (sym winner ∙ rw same at named)

      pub concede-Follows : Follows rt fx w' m (flow_concede k actor names_self w.clock m g)
      unfolding flow_concede
      concede-Follows =
          let by_side : is_some (side_of g actor) ≡ true =
            conceder_side rt fx g actor l.nonce l.bump (rw same at conceder) in
          rw (← winner) (
            Follows-if rt fx w' m _ _
              (ground (arith, l.is_open, is_locked, in_time, by_side, not_self)) settle-Coupled
              conserved)
