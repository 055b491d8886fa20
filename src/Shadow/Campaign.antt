-- ===== src/Shadow/Campaign.antt =====
-- A whole run of the harness, trident-tests/fuzz_0/test_fuzz.rs: its start, then flows and time.
use shake_escrow.Base.{
  ℕ, ◌*◌, ◌≡◌, true, false, none, some, List, [], ◌∷◌, Option, ok, arith, refl, ◌∙◌,
}
use shake_escrow.Base.Int.{ℤ, leb_ℤ}
use shake_escrow.Base.Lists.{length}
use shake_escrow.Base.Dict.{lookup}
use shake_escrow.State.{Pubkey}
use shake_escrow.Runtime.{Runtime}
use shake_escrow.Runtime.Laws.{TokenLaws, AddressLaws, balance}
use shake_escrow.World.{World}
use shake_escrow.Program.{Instruction, process, signers}
use shake_escrow.Custody.{IsSound, sum_of-nil}
use shake_escrow.Custody.Steps.{
  AllSign, IsGenesis, instruction, tick, Step-IsSound, genesis-IsSound,
}
use shake_escrow.Instructions.InitializeConfig.{InitializeConfig, initialize_config}
use shake_escrow.Instructions.InitializeConfig.Effect.{initialize_config-ok}
use shake_escrow.Shadow.{start_balance, Shadow, start}
use shake_escrow.Shadow.Circulation.{sum_over, IsDistinct, vault_of, circulating}
use shake_escrow.Shadow.Sending.{Fixture, Flow, ata, fee_token, init_args, sent, expect}
use shake_escrow.Shadow.Coupling.{IsActor, unborn, Coupled}
use shake_escrow.Shadow.Frames.{Mirrors-keep}
use shake_escrow.Shadow.Simulation.{IsPlayable, process-Follows}

-- The model after a flow: as expected, or as before.
abbrev pub model_after : Option Shadow → Shadow → Shadow
model_after none m = m
model_after (some m') m = m'

sum_over-constant : (n : ℕ) (xs : List Pubkey) → sum_over xs (λ x. n) ≡ length xs * n
unfolding sum_over length
sum_over-constant n [] = grind arith
sum_over-constant n (x ∷ xs) = grind (arith, sum_over-constant n xs)

module _ (rt : Runtime) (fx : Fixture) where
  -- The chain before the first config: every actor has its balance, and no one else has tokens.
  pub record IsFunded (w : World) : Type 0 where
    pub genesis : IsGenesis w
    pub purses : (x : Pubkey) → IsActor rt fx x → balance w.tokens (ata rt fx x) ≡ start_balance
    pub no_fees : balance w.tokens (fee_token rt fx) ≡ 0
    pub no_vaults : (k : Pubkey) → rt.can_sign k ≡ false → balance w.tokens (ata rt fx k) ≡ 0

  -- A run from `w`: the first config, then flows that the program accepted, and time. (A flow that
  -- the program refuses changes neither side.)
  pub data Campaign (ctx : InitializeConfig) (w : World) : World → Shadow → Type 0 where
    started :
        {u : World}
        → AllSign rt (ctx.authority ∷ [])
        → process rt (Instruction.initialize_config ctx (init_args rt fx)) w ≡ ok u
        → Campaign ctx w u start
    flowed :
        {u v : World} {m : Shadow} (f : Flow) (ix : Instruction)
        → Campaign ctx w u m
        → IsPlayable rt fx m f
        → sent rt fx m f ≡ some ix
        → AllSign rt (signers ix)
        → process rt ix u ≡ ok v
        → Campaign ctx w v (model_after (expect rt fx f u.clock m) m)
    warped :
        {u : World} {m : Shadow} (now : ℤ)
        → Campaign ctx w u m
        → leb_ℤ u.clock now ≡ true
        → Campaign ctx w (record u { clock = now }) m

  -- What the invariants of the harness say, and that the books stand behind them.
  pub record Agree (w : World) (m : Shadow) : Type 0 where
    pub sound : IsSound rt w
    pub coupled : Coupled rt fx w m
    pub conserved : circulating fx m ≡ length fx.actors * start_balance

  start-Coupled :
      (ctx : InitializeConfig) (w w' : World)
      → IsFunded w
      → initialize_config rt ctx (init_args rt fx) w ≡ ok w'
      → Coupled rt fx w' start
  unfolding lookup
  start-Coupled ctx w w' funded h =
      let s = initialize_config-ok rt ctx (init_args rt fx) w h in
      rw s.result (record {
        config = _;
        config_at = refl;
        configured = record {
          mint = refl;
          fee_destination = refl;
          rent_collector = refl;
          wallet_cap = refl;
          total_cap = refl;
          fee_bps = refl;
          total_open = refl;
        };
        balances = funded.purses;
        fee_balance = funded.no_fees;
        counters = λ x. rw (funded.genesis.no_counters _) refl;
        mirrors = λ k cannot. unborn (rw funded.genesis.no_wagers refl) (funded.no_vaults k cannot);
      })

  start-conserved : circulating fx start ≡ length fx.actors * start_balance
  start-conserved = omega (arith, sum_over-constant start_balance fx.actors, sum_of-nil vault_of)

  module _ (tokens : TokenLaws rt) (addresses : AddressLaws rt)
      (agent_signs : rt.can_sign fx.agent ≡ true) (distinct : IsDistinct fx.actors) where
    flowed-Agree :
        {u v : World} {m : Shadow} (f : Flow) (ix : Instruction)
        → Agree u m
        → IsPlayable rt fx m f
        → sent rt fx m f ≡ some ix
        → AllSign rt (signers ix)
        → process rt ix u ≡ ok v
        → Agree v (model_after (expect rt fx f u.clock m) m)
    flowed-Agree {u} {v} {m} f ix a play given signed h =
        let (m', accepted, coupled, same) =
          process-Follows rt fx tokens addresses agent_signs distinct f ix u v m a.sound a.coupled
            play given h in
        rw accepted (record {
          sound = Step-IsSound rt tokens addresses (instruction ix signed h) a.sound;
          coupled = coupled;
          conserved = same ∙ a.conserved;
        })

    warped-Coupled :
        (u : World) (m : Shadow) (now : ℤ)
        → Coupled rt fx u m
        → Coupled rt fx (record u { clock = now }) m
    warped-Coupled u m now co = record {
      config = co.config;
      config_at = co.config_at;
      configured = co.configured;
      balances = co.balances;
      fee_balance = co.fee_balance;
      counters = co.counters;
      mirrors = λ k cannot. Mirrors-keep rt fx u _ k refl refl (co.mirrors k cannot);
    }

    -- Every run of the harness from a chain that it funded, under the laws of the token program and of
    -- program addresses, where the agent's key signs and the actors are different: the chain is sound, it
    -- agrees with the shadow model, and as many tokens circulate in the model as were minted.
    pub Campaign-Agree :
        (ctx : InitializeConfig) (w : World) {u : World} {m : Shadow}
        → IsFunded w
        → Campaign ctx w u m
        → Agree u m
    unfolding process
    Campaign-Agree ctx w {u} funded (started signed h) = record {
      sound =
          Step-IsSound rt tokens addresses
            (instruction (Instruction.initialize_config ctx (init_args rt fx)) signed h)
            (genesis-IsSound rt tokens addresses w funded.genesis);
      coupled = start-Coupled ctx w u funded h;
      conserved = start-conserved;
    }
    Campaign-Agree ctx w funded (flowed f ix run play given signed h) =
        flowed-Agree f ix (Campaign-Agree ctx w funded run) play given signed h
    Campaign-Agree ctx w funded (warped {u} {m} now run later) =
        let a = Campaign-Agree ctx w funded run in
        record {
          sound = Step-IsSound rt tokens addresses (tick now later) a.sound;
          coupled = warped-Coupled u m now a.coupled;
          conserved = a.conserved;
        }
