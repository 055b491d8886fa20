-- ===== src/Shadow/Opening.antt =====
-- `flow_create` and `flow_update_fee` of trident-tests/fuzz_0/test_fuzz.rs against the program's
-- `create_wager` and `update_config`.
use shake_escrow.Base.{ℕ, ◌≡◌, ◌≢◌, true, false, some, none, Option, arith, ap, ◌∙◌, refl, subst}
use shake_escrow.Base.Int.{ℤ}
use shake_escrow.Base.Dict.{lookup, insert, lookup-insert_ne, lookup-insert_self}
use shake_escrow.State.{Pubkey, Config}
use shake_escrow.Runtime.{Runtime, TokenAccount}
use shake_escrow.Runtime.Laws.{AddressLaws, balance, amount_of}
use shake_escrow.Events.{wager_created}
use shake_escrow.Runtime.Addresses.{wager_seeds}
use shake_escrow.World.{World, emit}
use shake_escrow.Instructions.CreateWager.{new_wager}
use shake_escrow.Instructions.CreateWager.Effect.{Created, vault_or_new}
use shake_escrow.Instructions.UpdateConfig.Effect.{Updated}
use shake_escrow.Shadow.{MWager, Shadow}
use shake_escrow.Shadow.Flows.{put, created, flow_create, flow_update_fee}
use shake_escrow.Custody.{sum_of-insert_new}
use shake_escrow.Shadow.Circulation.{vault_of}
use shake_escrow.Shadow.Sending.{Fixture, ata, wager_pda, create_accounts, create_args, fee_args}
use shake_escrow.Shadow.Coupling.{
  IsConfigured-total, IsActor, IsConfigured, Mirrors, unborn, live, Coupled, wager_of, Follows,
}
use shake_escrow.Shadow.Frames.{Mirrors-keep, Mirrors-insert, ata_apart, signs_apart}

vault_or_new-amount :
    (mint owner : Pubkey) (o : Option TokenAccount)
    → (vault_or_new mint owner o).amount ≡ amount_of o
vault_or_new-amount mint owner none = refl
vault_or_new-amount mint owner (some a) = refl

module _ (rt : Runtime) (fx : Fixture) where
  -- Nothing lies in the vault of a wager that the model does not know.
  unborn-empty :
      (w : World) (k : Pubkey) → Mirrors rt fx w k none → balance w.tokens (ata rt fx k) ≡ 0
  unborn-empty w k (unborn none_at empty) = empty

  wager_of-created :
      (c : Config) (m : Shadow) (sa sb : Pubkey) (nonce stake bump : ℕ) (d_fund d_resolve : ℤ)
      → IsConfigured rt fx c m
      → new_wager c (create_args rt fx sa sb nonce stake d_fund d_resolve) bump
        ≡ wager_of rt fx (created sa sb stake m.fee_bps_current d_fund d_resolve) nonce bump
  wager_of-created c m sa sb nonce stake bump d_fund d_resolve conf =
      rw (conf.mint, conf.fee_bps, conf.fee_destination, conf.rent_collector) refl

  pub update-Follows :
      (w w' : World) (m : Shadow) (new_fee : ℕ)
      → Coupled rt fx w m
      → Updated (record { admin = fx.admin }) (fee_args rt fx new_fee) w w'
      → Follows rt fx w' m (flow_update_fee new_fee m)
  update-Follows w w' m new_fee co s =
      let same : s.old ≡ co.config = cc (s.old_at, co.config_at) in
      let destination = s.fee_replaced.0 in
      let collector = s.rent_replaced.0 in
      let relisted = s.relisted in
      let conf = co.configured in
      (
        record m { fee_bps_current = new_fee },
        refl,
        rw s.result (record {
          config = s.new;
          config_at = refl;
          configured = rw relisted (record {
            mint = rw same conf.mint;
            fee_destination = destination ∙ rw same conf.fee_destination;
            rent_collector = collector ∙ rw same conf.rent_collector;
            wallet_cap = rw same conf.wallet_cap;
            total_cap = rw same conf.total_cap;
            fee_bps = refl;
            total_open = rw same conf.total_open;
          });
          balances = co.balances;
          fee_balance = co.fee_balance;
          counters = co.counters;
          mirrors = λ k cannot. Mirrors-keep rt fx w _ k refl refl (co.mirrors k cannot);
        }),
        refl,
      )

  module _ (addresses : AddressLaws rt) (agent_signs : rt.can_sign fx.agent ≡ true) (w w' : World)
      (m : Shadow) (sa sb : Pubkey) (nonce stake : ℕ) (d_fund d_resolve : ℤ)
      (co : Coupled rt fx w m) (actor_a : IsActor rt fx sa) (actor_b : IsActor rt fx sb)
      (fresh : lookup (wager_pda rt fx sa nonce) m.wagers ≡ none)
      (s : Created rt
        (create_accounts rt fx sa nonce)
        (create_args rt fx sa sb nonce stake d_fund d_resolve)
        w
        w') where
    abbrev key : Pubkey
    key = wager_pda rt fx sa nonce

    abbrev bump : ℕ
    bump = (rt.find_program_address (wager_seeds sa nonce)).1

    abbrev new : MWager
    new = created sa sb stake m.fee_bps_current d_fund d_resolve

    same_config : s.config ≡ co.config
    same_config = cc (s.config_at, co.config_at)

    cannot : rt.can_sign key ≡ false
    cannot = addresses.off_curve _ _ _ (addresses.canonical_bump (wager_seeds sa nonce))

    none_yet : balance w.tokens (ata rt fx key) ≡ 0
    none_yet = unborn-empty w key (subst (Mirrors rt fx w key) fresh (co.mirrors key cannot))

    vaulted : balance s.opened.tokens (ata rt fx key) ≡ 0
    vaulted =
        ap amount_of s.opened.vault_at
        ∙ (vault_or_new-amount fx.mint key (w.tokens (ata rt fx key)) ∙ none_yet)

    elsewhere : (y : Pubkey) → y ≢ key → s.opened.tokens (ata rt fx y) ≡ w.tokens (ata rt fx y)
    elsewhere y ne = s.opened.others (ata rt fx y) (ata_apart rt fx addresses y key ne)

    abbrev after : World
    after =
        emit
          (wager_created key sa sb stake co.config.mint fx.resolver fx.terms_hash d_fund d_resolve
            nonce)
          (record w {
            tokens = s.opened.tokens;
            wagers = insert key (wager_of rt fx new nonce bump) w.wagers;
          })

    result : w' ≡ after
    result =
        rw
          (
            s.opened.result,
            same_config,
            wager_of-created co.config m sa sb nonce stake bump d_fund d_resolve co.configured,
          )
          at s.result

    create-Coupled : Coupled rt fx after (put key new m)
    create-Coupled = record {
      config = co.config;
      config_at = co.config_at;
      configured =
          IsConfigured-total rt fx co.config m _ _ refl (co.configured.total_open) co.configured;
      balances = λ y actor.
          ap amount_of (elsewhere y (signs_apart rt fx addresses y key actor.signs cannot))
          ∙ co.balances y actor;
      fee_balance =
          ap amount_of
            (elsewhere fx.agent (signs_apart rt fx addresses fx.agent key agent_signs cannot))
          ∙ co.fee_balance;
      counters = co.counters;
      mirrors =
          Mirrors-insert rt fx w after m key new co
            (λ j no_key ne. (lookup-insert_ne j key _ w.wagers ne, elsewhere j ne))
            (live (record {
              is_open = refl;
              nonce = nonce;
              bump = bump;
              found = lookup-insert_self key _ w.wagers;
              vaulted = vaulted;
              side_0_actor = actor_a;
              side_1_actor = actor_b;
              proposer_real = λ p e. cc;
            }));
    }

    pub create-Follows : Follows rt fx w' m (flow_create key sa sb stake d_fund d_resolve m)
    create-Follows = rw result (
      put key new m,
      refl,
      create-Coupled,
      omega (arith, sum_of-insert_new vault_of key new m.wagers fresh),
    )
