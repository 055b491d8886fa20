-- ===== src/Custody/Progress.antt =====
-- Liveness of the refund (refund_side.rs).
use shake_escrow.Base.{◌+◌, ◌≤◌, ◌≡◌, false, some, ok, arith, refl, Option-cases, inl, inr, then_ok}
use shake_escrow.Base.Int.{ℤ}
use shake_escrow.Base.Words.{u64_max}
use shake_escrow.Base.Dict.{lookup, lookup-nil}
use shake_escrow.State.{Pubkey, Config, Wager, ExposureCounter}
use shake_escrow.Runtime.{Runtime, TokenAccount}
use shake_escrow.Runtime.Laws.{TokenLaws}
use shake_escrow.World.{World, load_config}
use shake_escrow.World.Loads.{CounterAt, AssociatedAt}
use shake_escrow.World.Forward.{
  load_wager-found, load_counter-found, load_associated-found, transfer-succeeds,
}
use shake_escrow.Custody.{IsSound, locked}
use shake_escrow.Instructions.RefundSide.{
  RefundSide, refund_side, handle_refund_side, check_refund, write_refund,
}
use shake_escrow.Instructions.RefundSide.Effect.{MayRefund}

MayRefund-checks :
    (side : Pubkey) (g : Wager) (now : ℤ) → MayRefund side g now → check_refund side g now ≡ ok tt
unfolding check_refund
MayRefund-checks side g now m = rw (m.due, m.participant, m.staked, m.not_out) refl

-- A stake that may be refunded is still owed.
stake-le-locked : (side : Pubkey) (g : Wager) (now : ℤ) → MayRefund side g now → g.stake ≤ locked g
stake-le-locked side g now m = ground (arith, m.staked, m.not_out)

configured :
    (rt : Runtime) (w : World) (k : Pubkey) (g : Wager)
    → IsSound rt w
    → lookup k w.wagers ≡ some g
    → (c : Config) × (load_config w ≡ ok c)
configured rt w k g sound at = elim (Option-cases w.config) [
  | inl missing ↦ absurd (lookup-nil k w.wagers (sound.unconfigured missing) at)
  | inr (c, found) ↦ (c, rw found refl)
]

-- What a refund needs of the accounts it names: the side's counter and associated token account, and
-- the vault, of one mint and neither of the two frozen.
pub record IsPresented (rt : Runtime) (ctx : RefundSide) (g : Wager) (w : World) : Type 0 where
  pub counter : ExposureCounter
  pub target : TokenAccount
  pub vault : TokenAccount
  pub counter_at : CounterAt rt ctx.counter ctx.side w counter
  pub target_at : AssociatedAt rt ctx.side_token g.mint ctx.side w target
  pub vault_address : rt.associated_address g.mint ctx.wager ≡ ctx.vault
  pub vault_at : w.tokens ctx.vault ≡ some vault
  pub same_mint : vault.mint ≡ target.mint
  pub thawed : (vault.frozen ≡ false) × (target.frozen ≡ false)
  pub fits : target.amount + g.stake ≤ u64_max

-- On a sound chain, whoever asks for the refund of a side that staked, has not left and whose deadline
-- is over gets it, where the named counter, the side's associated token account and the vault are the
-- right ones and exist, the vault and the side's account hold one mint and neither is frozen, and the
-- side's balance with the stake fits a u64.
-- It is stated under the laws of the token program.
pub refund_side-succeeds :
    (rt : Runtime)
    → TokenLaws rt
    → (ctx : RefundSide) (w : World) (g : Wager) → IsSound rt w
    → lookup ctx.wager w.wagers ≡ some g
    → MayRefund ctx.side g w.clock
    → IsPresented rt ctx g w
    → (w' : World) × (refund_side rt ctx w ≡ ok w')
unfolding refund_side handle_refund_side
refund_side-succeeds rt laws ctx w g sound at may p =
    let (c, config_at) = configured rt w ctx.wager g sound at in
    let held = sound.custodied ctx.wager g at in
    let b = held.backed in
    let vault_is : p.vault ≡ b.account = cc (p.vault_at, p.vault_address, b.account_at) in
    let vault_owned : p.vault.owner ≡ ctx.wager = cc (vault_is, b.owned) in
    let owed = stake-le-locked ctx.side g w.clock may in
    let enough : g.stake ≤ p.vault.amount = rw vault_is (omega (arith, owed, b.covers)) in
    let (w₁, paid) =
      transfer-succeeds rt laws ctx.vault ctx.side_token ctx.wager g.stake w (record {
        source = p.vault;
        target = p.target;
        source_at = p.vault_at;
        target_at = p.target_at.found;
        same_mint = p.same_mint;
        thawed = p.thawed;
        owned = vault_owned;
        covered = enough;
        fits = p.fits;
      }) in
    (
      write_refund ctx c g p.counter w₁,
      then_ok _ config_at (
          then_ok _
            (load_wager-found rt ctx.wager w g (record { found = at; address = held.address }))
            (then_ok _
              (load_associated-found rt ctx.side_token g.mint ctx.side w p.target p.target_at)
              (then_ok _ (load_counter-found rt ctx.counter ctx.side w p.counter p.counter_at) (
                then_ok _
                  (load_associated-found rt ctx.vault g.mint ctx.wager w p.vault
                    (record { found = p.vault_at; owned = vault_owned; address = p.vault_address }))
                  (then_ok _ (MayRefund-checks ctx.side g w.clock may) (then_ok _ paid refl)))))),
    )
