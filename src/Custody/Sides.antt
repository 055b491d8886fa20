-- ===== src/Custody/Sides.antt =====
-- What one step on a wager does to what it owes, to whom, and to its well-formedness.
use shake_escrow.Base.{◌+◌, ◌≡◌, true, false, ◌==◌, ◌||◌, arith, if◌then◌else◌}
use shake_escrow.Base.Int.{ℤ, leb_ℤ, not-leb_ℤ_of_ltb_ℤ}
use shake_escrow.State.{Pubkey, Wager, funding, active, fully_exited}
use shake_escrow.Custody.{locked, exposure, worth, IsWellFormed, IsTimely}
use shake_escrow.Instructions.StakeSide.{fund, lock_if_funded}
use shake_escrow.Instructions.UnstakeSide.{unfund}
use shake_escrow.Instructions.RefundSide.{mark_refunded, refund_due}

-- Before the deadline that applies nobody has been refunded.
pub unrefunded :
    (g : Wager) (now : ℤ)
    → IsTimely now g
    → refund_due g.state now g.deadline_fund g.deadline_resolve ≡ false
    → (g.refunded_a ≡ false) × (g.refunded_b ≡ false)
unrefunded g now timely early = ground arith

pub funding_early :
    (g : Wager) (now : ℤ)
    → g.state ≡ funding
    → leb_ℤ now g.deadline_fund ≡ true
    → refund_due g.state now g.deadline_fund g.deadline_resolve ≡ false
funding_early g now s h = ground (arith, not-leb_ℤ_of_ltb_ℤ now g.deadline_fund)

pub active_early :
    (g : Wager) (now : ℤ)
    → g.state ≡ active
    → leb_ℤ now g.deadline_resolve ≡ true
    → refund_due g.state now g.deadline_fund g.deadline_resolve ≡ false
active_early g now s h = ground (arith, not-leb_ℤ_of_ltb_ℤ now g.deadline_resolve)

module _ (g : Wager) (s : Pubkey) (v : IsWellFormed g)
    (member : (s == g.side_a || s == g.side_b) ≡ true) where
  module _ (is_funding : g.state ≡ funding)
      (fresh : (g.refunded_a ≡ false) × (g.refunded_b ≡ false))
      (unfunded : (if s == g.side_a then g.funded_a else g.funded_b) ≡ false) where
    pub locked-fund : locked (lock_if_funded (fund (s == g.side_a) g)) ≡ locked g + g.stake
    locked-fund = ground arith

    pub exposure-fund :
        (x : Pubkey)
        → exposure x (lock_if_funded (fund (s == g.side_a) g)) ≡ exposure x g + worth (s == x) 1
    exposure-fund x = ground arith

    pub fund-IsWellFormed : IsWellFormed (lock_if_funded (fund (s == g.side_a) g))
    fund-IsWellFormed = record {
      sides_apart = ground (arith, v.sides_apart);
      live = ground arith;
      refund_a_funded = ground arith;
      refund_b_funded = ground arith;
    }

  module _ (is_funding : g.state ≡ funding)
      (fresh : (g.refunded_a ≡ false) × (g.refunded_b ≡ false))
      (staked : (if s == g.side_a then g.funded_a else g.funded_b) ≡ true) where
    pub locked-unfund : locked (unfund (s == g.side_a) g) + g.stake ≡ locked g
    locked-unfund = ground arith

    pub exposure-unfund :
        (x : Pubkey) → exposure x (unfund (s == g.side_a) g) + worth (s == x) 1 ≡ exposure x g
    exposure-unfund x = ground arith

    pub unfund-IsWellFormed : IsWellFormed (unfund (s == g.side_a) g)
    unfund-IsWellFormed = record {
      sides_apart = ground (arith, v.sides_apart);
      live = ground arith;
      refund_a_funded = ground arith;
      refund_b_funded = ground arith;
    }

  module _ (staked : (if s == g.side_a then g.funded_a else g.funded_b) ≡ true)
      (inside : (if s == g.side_a then g.refunded_a else g.refunded_b) ≡ false) where
    pub locked-mark : locked (mark_refunded (s == g.side_a) g) + g.stake ≡ locked g
    locked-mark = ground arith

    pub exposure-mark :
        (x : Pubkey)
        → exposure x (mark_refunded (s == g.side_a) g) + worth (s == x) 1 ≡ exposure x g
    exposure-mark x = ground arith

    pub mark-IsWellFormed : IsWellFormed (mark_refunded (s == g.side_a) g)
    mark-IsWellFormed = record {
      sides_apart = ground (arith, v.sides_apart);
      live = ground (arith, v.live);
      refund_a_funded = ground (arith, v.refund_a_funded);
      refund_b_funded = ground (arith, v.refund_b_funded);
    }

module _ (g : Wager) (v : IsWellFormed g) where
  -- A locked wager that nobody was refunded from owes both stakes, one to each side.
  module _ (is_active : g.state ≡ active)
      (fresh : (g.refunded_a ≡ false) × (g.refunded_b ≡ false)) where
    pub locked-active : locked g ≡ g.stake + g.stake
    locked-active = ground (arith, v.live)

    pub exposure-active :
        (x : Pubkey) → exposure x g ≡ worth (g.side_a == x) 1 + worth (g.side_b == x) 1
    exposure-active x = ground (arith, v.live)

  -- A wager that every funded side has left owes nothing.
  module _ (out : fully_exited g ≡ true) where
    pub locked-exited : locked g ≡ 0
    locked-exited = ground arith

    pub exposure-exited : (x : Pubkey) → exposure x g ≡ 0
    exposure-exited x = ground arith
