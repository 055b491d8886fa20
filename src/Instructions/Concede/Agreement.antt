-- ===== src/Instructions/Concede/Agreement.antt =====
-- The two settlements, resolve.rs and concede.rs: what they pay, side by side.
use shake_escrow.Base.{
  ℕ, true, ok-injective, ◌≡◌, ◌≢◌, some, ok, [], ◌∷◌, ap, sym, subst, ◌∙◌, refl,
}
use shake_escrow.State.{Pubkey, Config, Wager, ExposureCounter, is_participant, active}
use shake_escrow.Base.Dict.{lookup}
use shake_escrow.Runtime.{Runtime}
use shake_escrow.Runtime.Laws.{TokenLaws}
use shake_escrow.World.{World}
use shake_escrow.Base.Int.{leb_ℤ}
use shake_escrow.Instructions.Payout.{split_pot}
use shake_escrow.Events.{Event}
use shake_escrow.Instructions.Payout.Payments.{IsPaidOut, paid_out-IsPaidOut}
use shake_escrow.Instructions.Payout.Split.{IsSplit, split_pot-IsSplit}
use shake_escrow.Instructions.Resolve.{Resolve, resolve}
use shake_escrow.Instructions.Resolve.Effect.{
  Parties, Settled, resolve_parties, resolve-ok, settled_world,
}
use shake_escrow.Instructions.Concede.{Concede, concede, counterparty}
use shake_escrow.Instructions.Concede.Effect.{concede_parties, concede-ok}

abbrev pub silenced : World → World
silenced w = record w { events = [] }

-- What a settlement pays, for a wager whose account holds the stake and the fee at creation.
pub record Paid (p : Parties) (stake fee_bps : ℕ) (w w' : World) : Type 0 where
  pub payout : ℕ
  pub fee : ℕ
  pub split : IsSplit stake fee_bps payout fee
  pub money : IsPaidOut p.vault p.winner_token p.fee_token payout w.tokens w'.tokens
  pub rents : w'.rents ≡ (p.wager, p.rent_collector) ∷ (p.vault, p.rent_collector) ∷ w.rents

-- The accounts of a settlement are the ones that the wager fixes: the winner's associated token account,
-- the wager's vault, its fee destination and its rent collector, which is not the wager's account itself.
pub record ArePinned (rt : Runtime) (p : Parties) (g : Wager) : Type 0 where
  pub winner_token : rt.associated_address g.mint p.winner ≡ p.winner_token
  pub vault : rt.associated_address g.mint p.wager ≡ p.vault
  pub fee_token : p.fee_token ≡ g.fee_destination
  pub rent_collector : p.rent_collector ≡ g.rent_collector
  pub rent_apart : p.rent_collector ≢ p.wager

Settled-ArePinned :
    (rt : Runtime) (p : Parties) (w : World) {w' : World}
    → (s : Settled rt p w w') → ArePinned rt p s.wager
Settled-ArePinned rt p w s = record {
  winner_token = s.target_at.address;
  vault = s.vault_at.address;
  fee_token = s.fee_pinned;
  rent_collector = s.rent_pinned;
  rent_apart = s.rent_apart;
}

pub Settled-IsPaidOut :
    (rt : Runtime) (p : Parties) (w : World) {w' : World}
    → p.vault ≢ p.winner_token
    → p.vault ≢ p.fee_token
    → p.winner_token ≢ p.fee_token
    → (s : Settled rt p w w')
    → IsPaidOut p.vault p.winner_token p.fee_token s.payout w.tokens w'.tokens
Settled-IsPaidOut rt p w vx vf xf s =
    subst (λ (x : World). IsPaidOut p.vault p.winner_token p.fee_token s.payout w.tokens x.tokens)
      (sym s.result)
      (paid_out-IsPaidOut p.vault p.winner_token p.fee_token s.payout s.fee w.tokens s.vault
        s.target s.fee_account vx vf xf s.vault_at.found s.target_at.found s.fee_at s.covered
        s.fee_covered)

Settled-Paid :
    (rt : Runtime) (p : Parties) (w : World) {w' : World}
    → p.vault ≢ p.winner_token
    → p.vault ≢ p.fee_token
    → p.winner_token ≢ p.fee_token
    → (s : Settled rt p w w') → Paid p s.wager.stake s.wager.fee_bps w w'
Settled-Paid rt p w vx vf xf s = record {
  payout = s.payout;
  fee = s.fee;
  split = split_pot-IsSplit _ _ _ _ s.split;
  money = Settled-IsPaidOut rt p w vx vf xf s;
  rents = ap (λ (x : World). x.rents) s.result;
}

settled_alike :
    (p : Parties) (w : World) (e e' : Event) (parts parts' : ℕ × ℕ) (c c' : Config) (g g' : Wager)
    (ka ka' kb kb' : ExposureCounter)
    → parts ≡ parts'
    → c ≡ c'
    → g ≡ g'
    → ka ≡ ka'
    → kb ≡ kb'
    → silenced (settled_world p e parts.0 parts.1 c g ka kb w)
      ≡ silenced (settled_world p e' parts'.0 parts'.1 c' g' ka' kb' w)
settled_alike p w e e' parts parts' c c' g g' ka ka' kb kb' same_parts same_c same_g same_a same_b =
    rw (same_parts, same_c, same_g, same_a, same_b) refl

Settled-unique :
    (rt : Runtime) (p : Parties) (w : World) {w₁ w₂ : World}
    → Settled rt p w w₁
    → Settled rt p w w₂
    → silenced w₁ ≡ silenced w₂
Settled-unique rt p w s t =
    let same_g : s.wager ≡ t.wager = cc (s.wager_at.found, t.wager_at.found) in
    let same_split : split_pot s.wager.stake s.wager.fee_bps
        ≡ split_pot t.wager.stake t.wager.fee_bps =
      ap (λ (g : Wager). split_pot g.stake g.fee_bps) same_g in
    let same_parts : (s.payout, s.fee) ≡ (t.payout, t.fee) =
      ok-injective (sym s.split ∙ (same_split ∙ t.split)) in
    ap silenced s.result
    ∙ (settled_alike p w s.event t.event (s.payout, s.fee) (t.payout, t.fee) s.config t.config
          s.wager t.wager s.counter_a t.counter_a s.counter_b t.counter_b same_parts
          (cc (s.config_at, t.config_at)) same_g (cc (s.counter_a_at.found, t.counter_a_at.found))
          (cc (s.counter_b_at.found, t.counter_b_at.found))
        ∙ sym (ap silenced t.result))

-- A resolution for the winner and a concession of the other side, with the same accounts and in the
-- same world, leave the same world but for the events, where both succeed.
-- It is stated under the laws of the token program.
pub concede-agrees_with-resolve :
    (rt : Runtime)
    → TokenLaws rt
    → (by_resolver : Resolve) (by_side : Concede) (winner : Pubkey) (w : World) {w₁ w₂ : World}
    → resolve_parties by_resolver ≡ concede_parties by_side
    → resolve rt by_resolver winner w ≡ ok w₁
    → concede rt by_side w ≡ ok w₂
    → silenced w₁ ≡ silenced w₂
concede-agrees_with-resolve rt laws by_resolver by_side winner w {w₁} {w₂} same h h' =
    Settled-unique rt (concede_parties by_side) w
      (subst (λ p. Settled rt p w w₁) same (resolve-ok rt laws by_resolver winner w h).0)
      (concede-ok rt laws by_side w h').0

-- A successful resolution, with three different token accounts, was signed by the locked wager's resolver
-- before the deadline for one of the two sides; it splits the pot by the wager's fee, pays the payout
-- to the winner's associated token account and all the rest of the wager's vault to its fee destination,
-- closes the vault, and moves no other token account; the rents of the vault and
-- of the wager's account go to the wager's rent collector, which is not that account itself.
-- It is stated under the laws of the token program.
pub resolve-Paid :
    (rt : Runtime)
    → TokenLaws rt
    → (ctx : Resolve) (winner : Pubkey) (w : World) {w' : World} → ctx.vault ≢ ctx.winner_token
    → ctx.vault ≢ ctx.fee_token
    → ctx.winner_token ≢ ctx.fee_token
    → resolve rt ctx winner w ≡ ok w'
    → (g : Wager) × (lookup ctx.wager w.wagers ≡ some g)
      × (g.state ≡ active)
      × (ctx.resolver ≡ g.resolver)
      × (ctx.winner ≡ winner)
      × (is_participant g winner ≡ true)
      × (leb_ℤ w.clock g.deadline_resolve ≡ true)
      × ArePinned rt (resolve_parties ctx) g
      × Paid (resolve_parties ctx) g.stake g.fee_bps w w'
resolve-Paid rt laws ctx winner w vx vf xf h =
    let (s, signed, named, event) = resolve-ok rt laws ctx winner w h in
    (
      s.wager,
      s.wager_at.found,
      s.is_active,
      signed,
      named,
      rw named at s.participant,
      s.in_time,
      Settled-ArePinned rt (resolve_parties ctx) w s,
      Settled-Paid rt (resolve_parties ctx) w vx vf xf s,
    )

-- A successful concession, with three different token accounts, was signed by a side of the locked wager
-- for the other one before the deadline, and pays that one like a resolution: the payout goes to its associated token account,
-- the rest of the wager's vault to the fee destination, and the rents to the wager's rent collector.
-- It is stated under the laws of the token program.
pub concede-Paid :
    (rt : Runtime)
    → TokenLaws rt
    → (ctx : Concede) (w : World) {w' : World} → ctx.vault ≢ ctx.winner_token
    → ctx.vault ≢ ctx.fee_token
    → ctx.winner_token ≢ ctx.fee_token
    → concede rt ctx w ≡ ok w'
    → (g : Wager) × (lookup ctx.wager w.wagers ≡ some g)
      × (g.state ≡ active)
      × (leb_ℤ w.clock g.deadline_resolve ≡ true)
      × (is_participant g ctx.conceder ≡ true)
      × (ctx.winner ≡ counterparty g ctx.conceder)
      × ArePinned rt (concede_parties ctx) g
      × Paid (concede_parties ctx) g.stake g.fee_bps w w'
concede-Paid rt laws ctx w vx vf xf h =
    let (s, signed, named, event) = concede-ok rt laws ctx w h in
    (
      s.wager,
      s.wager_at.found,
      s.is_active,
      s.in_time,
      signed,
      named,
      Settled-ArePinned rt (concede_parties ctx) w s,
      Settled-Paid rt (concede_parties ctx) w vx vf xf s,
    )
