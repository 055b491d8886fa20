-- ===== src/Safety/Keeping.antt =====
-- The config account along a whole run of the chain: Configuration/Upkeep for every instruction.
use shake_escrow.Base.{
  ◌≡◌, refl, none, some, ok, ◌⊎◌, inl, inr, ap, sym, ◌∙◌, subst, Option-cases, none-ne-some,
}
use shake_escrow.State.{Config}
use shake_escrow.Runtime.{Runtime}
use shake_escrow.Runtime.Laws.{TokenLaws}
use shake_escrow.World.{World}
use shake_escrow.Program.{Instruction, process}
use shake_escrow.Configuration.{IsValidConfig}
use shake_escrow.Configuration.Upkeep.{initialize_config-IsValidConfig, update_config-IsValidConfig}
use shake_escrow.Configuration.Authority.{Governed, booked, updated, handed_over, process-Governed}
use shake_escrow.Instructions.InitializeConfig.{InitializeConfig, InitializeConfigArgs}
use shake_escrow.Instructions.UpdateConfig.{UpdateConfig, UpdateConfigArgs}
use shake_escrow.Instructions.UpdateConfig.Effect.{update_config-ok}
use shake_escrow.Instructions.AdminTransfers.Effect.{
  propose_admin-ok, accept_admin-ok, cancel_admin_transfer-ok,
}
use shake_escrow.Instructions.CreateWager.Effect.{create_wager-ok}
use shake_escrow.Instructions.StakeSide.Effect.{stake_side-ok}
use shake_escrow.Instructions.UnstakeSide.Effect.{unstake_side-ok}
use shake_escrow.Instructions.RefundSide.Effect.{refund_side-ok}
use shake_escrow.Instructions.Resolve.Effect.{resolve-ok}
use shake_escrow.Instructions.Concede.Effect.{concede-ok}
use shake_escrow.Instructions.Cancel.Effect.{cancel_propose-ok, cancel_clear-ok, cancel_accept-ok}
use shake_escrow.Instructions.CloseExpired.Effect.{close_expired-ok}
use shake_escrow.Custody.Steps.{Step, instruction, outside, tick, Reach, here, next, IsGenesis}

-- The config that a world holds is valid.
abbrev pub HoldsValid : World → Type 0
HoldsValid w = (c : Config) → w.config ≡ some c → IsValidConfig c

Governed-IsValidConfig :
    (w : World) (c c' : Config) (ix : Instruction)
    → IsValidConfig c
    → ((ctx : UpdateConfig) (args : UpdateConfigArgs)
        → ix ≡ Instruction.update_config ctx args
        → IsValidConfig c')
    → Governed w c c' ix
    → IsValidConfig c'
Governed-IsValidConfig w c c' ix v by_update (booked n e) = subst IsValidConfig (sym e) (record {
  listed = v.listed;
  sliced = v.sliced;
  in_bounds = v.in_bounds;
  real_addresses = v.real_addresses;
})
Governed-IsValidConfig w c c' ix v by_update (updated ctx args signed kept) =
    by_update ctx args refl
Governed-IsValidConfig w c c' ix v by_update (handed_over ctx p pending named e) =
    subst IsValidConfig (sym e) (record {
      listed = v.listed;
      sliced = v.sliced;
      in_bounds = v.in_bounds;
      real_addresses = v.real_addresses;
    })

abbrev IsFirst : Instruction → Type 0
IsFirst ix =
    (ctx : InitializeConfig) × (args : InitializeConfigArgs) × (ix
      ≡ Instruction.initialize_config ctx args)

module _ (rt : Runtime) (laws : TokenLaws rt) where
  -- Without a config, only the first config makes one.
  stays_none :
      (ix : Instruction) (w : World) {w' : World}
      → w.config ≡ none
      → process rt ix w ≡ ok w'
      → (w'.config ≡ none) ⊎ IsFirst ix
  unfolding process
  stays_none (Instruction.initialize_config ctx args) w e h = inr (ctx, args, refl)
  stays_none (Instruction.update_config ctx args) w e h =
      cc ((update_config-ok ctx args w h).old_at)
  stays_none (Instruction.create_wager ctx args) w e h =
      cc ((create_wager-ok rt laws ctx args w h).config_at)
  stays_none (Instruction.stake_side ctx) w e h = cc ((stake_side-ok rt ctx w h).config_at)
  stays_none (Instruction.unstake_side ctx) w e h = cc ((unstake_side-ok rt laws ctx w h).config_at)
  stays_none (Instruction.propose_admin ctx new_admin) w e h =
      let s = propose_admin-ok rt ctx new_admin w h in
      inl (ap (λ (x : World). x.config) s.result ∙ e)
  stays_none (Instruction.accept_admin ctx) w e h = cc ((accept_admin-ok rt ctx w h).config_at)
  stays_none (Instruction.cancel_admin_transfer ctx) w e h =
      let s = cancel_admin_transfer-ok rt ctx w h in inl (ap (λ (x : World). x.config) s.result ∙ e)
  stays_none (Instruction.resolve ctx winner) w e h =
      cc ((resolve-ok rt laws ctx winner w h).0.config_at)
  stays_none (Instruction.concede ctx) w e h = cc ((concede-ok rt laws ctx w h).0.config_at)
  stays_none (Instruction.refund_side ctx) w e h = cc ((refund_side-ok rt laws ctx w h).config_at)
  stays_none (Instruction.cancel_propose ctx) w e h =
      let s = cancel_propose-ok rt ctx w h in inl (ap (λ (x : World). x.config) s.result ∙ e)
  stays_none (Instruction.cancel_clear ctx) w e h =
      let s = cancel_clear-ok rt ctx w h in inl (ap (λ (x : World). x.config) s.result ∙ e)
  stays_none (Instruction.cancel_accept ctx) w e h =
      cc ((cancel_accept-ok rt laws ctx w h).config_at)
  stays_none (Instruction.close_expired ctx) w e h =
      let s = close_expired-ok rt laws ctx w h in inl (ap (λ (x : World). x.config) s.result ∙ e)

  first-HoldsValid :
      (ix : Instruction) (w : World) {w' : World}
      → IsFirst ix
      → process rt ix w ≡ ok w'
      → HoldsValid w'
  unfolding process
  first-HoldsValid ix w {w'} (ctx, args, e) h =
      let made =
        initialize_config-IsValidConfig rt ctx args w {w' = w'}
          (subst (λ i. process rt i w ≡ ok w') e h) in
      λ c' at'. subst IsValidConfig (cc (made.1, at')) made.2

  updated-IsValidConfig :
      (w : World) {w' : World} (c c' : Config) (ix : Instruction)
      → w.config ≡ some c
      → IsValidConfig c
      → w'.config ≡ some c'
      → process rt ix w ≡ ok w'
      → (ctx : UpdateConfig) (args : UpdateConfigArgs) → ix ≡ Instruction.update_config ctx args
      → IsValidConfig c'
  unfolding process
  updated-IsValidConfig w {w'} c c' ix at v at' h ctx args e =
      let (d, d_at, valid) =
        update_config-IsValidConfig ctx args w {w' = w'} c at v
          (subst (λ i. process rt i w ≡ ok w') e h) in
      subst IsValidConfig (cc (d_at, at')) valid

  -- No instruction leaves a config that is not valid.
  pub process-HoldsValid :
      (ix : Instruction) (w : World) {w' : World}
      → HoldsValid w
      → process rt ix w ≡ ok w'
      → HoldsValid w'
  process-HoldsValid ix w {w'} valid h = elim (Option-cases w.config) [
    | inl e ↦ elim (stays_none ix w e h) [
      | inl same ↦ λ c at. absurd (none-ne-some (sym same ∙ at))
      | inr first ↦ first-HoldsValid ix w first h
    ]
    | inr (c, at) ↦
        let (c', at', governed) = process-Governed rt laws ix w c at h in
        λ d d_at. subst IsValidConfig (cc (at', d_at)) (
          Governed-IsValidConfig w c c' ix (valid c at)
            (updated-IsValidConfig w c c' ix at (valid c at) at' h) governed)
  ]

  Step-HoldsValid : {w w' : World} → Step rt w w' → HoldsValid w → HoldsValid w'
  Step-HoldsValid {w} (instruction ix signed h) valid = process-HoldsValid ix w valid h
  Step-HoldsValid (outside t kept) valid = valid
  Step-HoldsValid (tick now later) valid = valid

  Reach-keeps_valid : {w w' : World} → Reach rt w w' → HoldsValid w → HoldsValid w'
  Reach-keeps_valid here valid = valid
  Reach-keeps_valid (next r s) valid = Step-HoldsValid s (Reach-keeps_valid r valid)

  -- On every chain that comes from one on which the program had not run, the config, if there is one, is
  -- valid. It is stated under the laws of the token program.
  pub Reach-HoldsValid :
      (w : World) {w' : World}
      → IsGenesis w
      → Reach rt w w'
      → (c : Config) → w'.config ≡ some c
      → IsValidConfig c
  Reach-HoldsValid w start r =
      Reach-keeps_valid r (λ c at. absurd (none-ne-some (sym start.no_config ∙ at)))
