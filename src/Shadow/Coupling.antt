-- ===== src/Shadow/Coupling.antt =====
-- When the chain and the shadow model agree: `check_invariants` of trident-tests/fuzz_0/test_fuzz.rs,
-- with what the harness keeps in `MWager` and does not check spelled out.
use shake_escrow.Base.{◌∙◌, sym, ℕ, ◌≡◌, ◌≢◌, true, false, Option, none, some}
use shake_escrow.Base.Lists.{contains}
use shake_escrow.Base.Dict.{lookup}
use shake_escrow.State.{Pubkey, default_key, Config, Wager, WagerState, funding, active}
use shake_escrow.Runtime.{Runtime}
use shake_escrow.Runtime.Laws.{balance}
use shake_escrow.World.{World}
use shake_escrow.Custody.{count_at}
use shake_escrow.Shadow.{cap_per_wallet, global_cap, MState, MWager, vault_expected, Shadow}
use shake_escrow.Shadow.Circulation.{circulating}
use shake_escrow.Shadow.Sending.{Fixture, ata, fee_token}

abbrev pub state_of : MState → WagerState
state_of MState.funding = funding
state_of MState.active = active

abbrev pub key_of : Option Pubkey → Pubkey
key_of none = default_key
key_of (some p) = p

module _ (rt : Runtime) (fx : Fixture) where
  -- The account of a wager that the model keeps; `nonce` and `bump` it does not keep.
  abbrev pub wager_of : MWager → (nonce bump : ℕ) → Wager
  wager_of g nonce bump = record {
    state = state_of g.state;
    side_a = g.sa;
    side_b = g.sb;
    stake = g.stake;
    mint = fx.mint;
    funded_a = g.funded_0;
    funded_b = g.funded_1;
    refunded_a = g.refunded_0;
    refunded_b = g.refunded_1;
    resolver = fx.resolver;
    terms_hash = fx.terms_hash;
    deadline_fund = g.d_fund;
    deadline_resolve = g.d_resolve;
    fee_bps = g.fee_bps;
    fee_destination = fee_token rt fx;
    rent_collector = fx.ops;
    nonce = nonce;
    cancel_proposed_by = key_of g.proposal;
    bump = bump;
  }

  -- A wallet of the harness's actors: it signs, and is not the fee account's.
  pub record IsActor (x : Pubkey) : Type 0 where
    pub listed : contains fx.actors x ≡ true
    pub signs : rt.can_sign x ≡ true
    pub not_agent : x ≢ fx.agent
    pub real : x ≢ default_key

  pub record IsLive (w : World) (k : Pubkey) (g : MWager) : Type 0 where
    pub is_open : g.closed ≡ false
    pub nonce : ℕ
    pub bump : ℕ
    pub found : lookup k w.wagers ≡ some (wager_of g nonce bump)
    pub vaulted : balance w.tokens (ata rt fx k) ≡ vault_expected g
    pub side_0_actor : IsActor g.sa
    pub side_1_actor : IsActor g.sb
    pub proposer_real : (p : Pubkey) → g.proposal ≡ some p → p ≢ default_key

  -- What the chain holds under the key of a wager, for what the model keeps under it.
  pub data Mirrors (w : World) (k : Pubkey) : Option MWager → Type 0 where
    unborn : lookup k w.wagers ≡ none → balance w.tokens (ata rt fx k) ≡ 0 → Mirrors w k none
    live : {g : MWager} → IsLive w k g → Mirrors w k (some g)
    gone :
        {g : MWager}
        → g.closed ≡ true
        → lookup k w.wagers ≡ none
        → w.tokens (ata rt fx k) ≡ none
        → Mirrors w k (some g)

  pub record IsConfigured (c : Config) (m : Shadow) : Type 0 where
    pub mint : c.mint ≡ fx.mint
    pub fee_destination : c.fee_destination ≡ fee_token rt fx
    pub rent_collector : c.rent_collector ≡ fx.ops
    pub wallet_cap : c.max_open_per_wallet ≡ cap_per_wallet
    pub total_cap : c.max_total_open ≡ global_cap
    pub fee_bps : c.fee_bps ≡ m.fee_bps_current
    pub total_open : c.total_open_value ≡ m.total_open

  -- The config with another sum, and a model with the same fee.
  pub IsConfigured-total :
      (c : Config) (m m' : Shadow) (n : ℕ)
      → m'.fee_bps_current ≡ m.fee_bps_current
      → n ≡ m'.total_open
      → IsConfigured c m
      → IsConfigured (record c { total_open_value = n }) m'
  IsConfigured-total c m m' n same_fee total conf = record {
    mint = conf.mint;
    fee_destination = conf.fee_destination;
    rent_collector = conf.rent_collector;
    wallet_cap = conf.wallet_cap;
    total_cap = conf.total_cap;
    fee_bps = conf.fee_bps ∙ sym same_fee;
    total_open = total;
  }

  pub record Coupled (w : World) (m : Shadow) : Type 0 where
    pub config : Config
    pub config_at : w.config ≡ some config
    pub configured : IsConfigured config m
    pub balances : (x : Pubkey) → IsActor x → balance w.tokens (ata rt fx x) ≡ m.balances x
    pub fee_balance : balance w.tokens (fee_token rt fx) ≡ m.fee_balance
    pub counters : (x : Pubkey) → count_at rt w x ≡ m.counters x
    pub mirrors : (k : Pubkey) → rt.can_sign k ≡ false → Mirrors w k (lookup k m.wagers)

  -- From `m` the model accepts, agrees with the world that the program left, and has as many tokens
  -- as before.
  abbrev pub Follows : World → Shadow → Option Shadow → Type 0
  Follows w' m o =
      (m' : Shadow) × (o ≡ some m') × Coupled w' m' × (circulating fx m' ≡ circulating fx m)
