-- ===== src/Configuration/Authority.antt =====
-- Who can change the config, and how far.
use shake_escrow.Base.{◌≡◌, refl, ℕ, some, ok, ap, ◌∙◌, subst}
use shake_escrow.State.{Config, AdminTransfer}
use shake_escrow.Runtime.{Runtime}
use shake_escrow.Runtime.Laws.{TokenLaws}
use shake_escrow.World.{World}
use shake_escrow.Program.{Instruction, process}
use shake_escrow.Instructions.UpdateConfig.{UpdateConfig, UpdateConfigArgs}
use shake_escrow.Instructions.AdminTransfers.{AcceptAdmin}
use shake_escrow.Instructions.InitializeConfig.Effect.{initialize_config-ok}
use shake_escrow.Instructions.UpdateConfig.Effect.{update_config-ok, Relisted-fixed}
use shake_escrow.Instructions.AdminTransfers.Effect.{
  propose_admin-ok, accept_admin-ok, cancel_admin_transfer-ok,
}
use shake_escrow.Instructions.CreateWager.Effect.{create_wager-ok}
use shake_escrow.Instructions.StakeSide.Effect.{stake_side-ok}
use shake_escrow.Instructions.UnstakeSide.Effect.{unstake_side-ok}
use shake_escrow.Instructions.RefundSide.Effect.{refund_side-ok}
use shake_escrow.Instructions.Resolve.Effect.{Parties, Settled, resolve_parties, resolve-ok}
use shake_escrow.Instructions.Concede.Effect.{concede_parties, concede-ok}
use shake_escrow.Instructions.Cancel.Effect.{cancel_propose-ok, cancel_clear-ok, cancel_accept-ok}
use shake_escrow.Instructions.CloseExpired.Effect.{close_expired-ok}

-- How one instruction turns the config `c` into `c'`.
pub data Governed (w : World) (c c' : Config) : Instruction → Type 0 where
  -- only the global sum moves
  booked : {ix : Instruction} (n : ℕ) → c' ≡ record c { total_open_value = n } → Governed w c c' ix
  -- the admin signs, and stays; mint and global sum stay
  updated :
      (ctx : UpdateConfig) (args : UpdateConfigArgs)
      → ctx.admin ≡ c.admin
      → (c'.admin ≡ c.admin) × (c'.mint ≡ c.mint) × (c'.total_open_value ≡ c.total_open_value)
      → Governed w c c' (Instruction.update_config ctx args)
  -- the key that was proposed signs, and only the admin changes
  handed_over :
      (ctx : AcceptAdmin) (p : AdminTransfer)
      → w.admin_transfer ≡ some p
      → p.proposed ≡ ctx.new_admin
      → c' ≡ record c { admin = ctx.new_admin }
      → Governed w c c' (Instruction.accept_admin ctx)

abbrev ConfigAfter : World → Config → World → Instruction → Type 0
ConfigAfter w c w' ix = (c' : Config) × (w'.config ≡ some c') × Governed w c c' ix

module _ (w w' : World) (c : Config) (at : w.config ≡ some c) where
  same_config : (ix : Instruction) → w'.config ≡ w.config → ConfigAfter w c w' ix
  same_config ix e = (c, e ∙ at, booked c.total_open_value refl)

  new_total :
      (ix : Instruction) (d : Config) (n : ℕ)
      → w.config ≡ some d
      → w'.config ≡ some (record d { total_open_value = n })
      → ConfigAfter w c w' ix
  new_total ix d n found e =
      let same : d ≡ c = cc (found, at) in
      (
        record d { total_open_value = n },
        e,
        booked n (ap (λ (x : Config). record x { total_open_value = n }) same),
      )

  settled_total :
      (ix : Instruction) (rt : Runtime) (p : Parties) → Settled rt p w w' → ConfigAfter w c w' ix
  settled_total ix rt p s =
      new_total ix s.config _ s.config_at (ap (λ (x : World). x.config) s.result)

-- After the first config, a successful instruction leaves a config that differs in the global sum
-- alone, or was updated by the admin with admin, mint and sum kept, or has a new admin who was proposed
-- and who signed.
-- It is stated under the laws of the token program.
pub process-Governed :
    (rt : Runtime)
    → TokenLaws rt
    → (ix : Instruction) (w : World) {w' : World} (c : Config) → w.config ≡ some c
    → process rt ix w ≡ ok w'
    → (c' : Config) × (w'.config ≡ some c') × Governed w c c' ix
unfolding process
process-Governed rt laws (Instruction.initialize_config ctx args) w c at h =
    let s = initialize_config-ok rt ctx args w h in cc (s.was_free, at)
process-Governed rt laws (Instruction.update_config ctx args) w c at h =
    let s = update_config-ok ctx args w h in
    let (admin, mint, total, bump) = Relisted-fixed args.resolvers _ s.new s.relisted in
    let same : s.old ≡ c = cc (s.old_at, at) in
    (
      s.new,
      ap (λ (x : World). x.config) s.result,
      updated ctx args (subst (λ x. ctx.admin ≡ x.admin) same s.by_admin) (
          subst
            (λ x.
              (s.new.admin ≡ x.admin)
              × (s.new.mint ≡ x.mint)
              × (s.new.total_open_value ≡ x.total_open_value))
            same (admin, mint, total)),
    )
process-Governed rt laws (Instruction.create_wager ctx args) w {w'} c at h =
    let s = create_wager-ok rt laws ctx args w h in
    same_config w w' c at _
      (ap (λ (x : World). x.config) s.result ∙ ap (λ (x : World). x.config) s.opened.result)
process-Governed rt laws (Instruction.stake_side ctx) w {w'} c at h =
    let s = stake_side-ok rt ctx w h in
    new_total w w' c at _ s.config _ s.config_at (ap (λ (x : World). x.config) s.result)
process-Governed rt laws (Instruction.unstake_side ctx) w {w'} c at h =
    let s = unstake_side-ok rt laws ctx w h in
    new_total w w' c at _ s.config _ s.config_at (ap (λ (x : World). x.config) s.result)
process-Governed rt laws (Instruction.propose_admin ctx new_admin) w {w'} c at h =
    let s = propose_admin-ok rt ctx new_admin w h in
    same_config w w' c at _ (ap (λ (x : World). x.config) s.result)
process-Governed rt laws (Instruction.accept_admin ctx) w c at h =
    let s = accept_admin-ok rt ctx w h in
    let same : s.config ≡ c = cc (s.config_at, at) in
    (
      record s.config { admin = ctx.new_admin },
      ap (λ (x : World). x.config) s.result,
      handed_over ctx s.transfer s.transfer_at s.by_proposed
          (ap (λ (x : Config). record x { admin = ctx.new_admin }) same),
    )
process-Governed rt laws (Instruction.cancel_admin_transfer ctx) w {w'} c at h =
    let s = cancel_admin_transfer-ok rt ctx w h in
    same_config w w' c at _ (ap (λ (x : World). x.config) s.result)
process-Governed rt laws (Instruction.resolve ctx winner) w {w'} c at h =
    settled_total w w' c at _ rt (resolve_parties ctx) (resolve-ok rt laws ctx winner w h).0
process-Governed rt laws (Instruction.concede ctx) w {w'} c at h =
    settled_total w w' c at _ rt (concede_parties ctx) (concede-ok rt laws ctx w h).0
process-Governed rt laws (Instruction.refund_side ctx) w {w'} c at h =
    let s = refund_side-ok rt laws ctx w h in
    new_total w w' c at _ s.config _ s.config_at (ap (λ (x : World). x.config) s.result)
process-Governed rt laws (Instruction.cancel_propose ctx) w {w'} c at h =
    let s = cancel_propose-ok rt ctx w h in
    same_config w w' c at _ (ap (λ (x : World). x.config) s.result)
process-Governed rt laws (Instruction.cancel_clear ctx) w {w'} c at h =
    let s = cancel_clear-ok rt ctx w h in
    same_config w w' c at _ (ap (λ (x : World). x.config) s.result)
process-Governed rt laws (Instruction.cancel_accept ctx) w {w'} c at h =
    let s = cancel_accept-ok rt laws ctx w h in
    new_total w w' c at _ s.config _ s.config_at (ap (λ (x : World). x.config) s.result)
process-Governed rt laws (Instruction.close_expired ctx) w {w'} c at h =
    let s = close_expired-ok rt laws ctx w h in
    same_config w w' c at _ (ap (λ (x : World). x.config) s.result)
