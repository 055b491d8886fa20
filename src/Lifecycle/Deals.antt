-- ===== src/Lifecycle/Deals.antt =====
-- The deal and the state of a wager under the steps on it.
use shake_escrow.Base.{◌≡◌, Bool, true, false, arith, if◌then◌else◌, ◌&&◌}
use shake_escrow.State.{Pubkey, Wager, funding, active}
use shake_escrow.Instructions.StakeSide.{fund, lock_if_funded}
use shake_escrow.Instructions.UnstakeSide.{unfund}
use shake_escrow.Instructions.RefundSide.{mark_refunded}
use shake_escrow.Lifecycle.{SameDeal, Edge, stay, lock}

pub SameDeal-refl : (g : Wager) → SameDeal g g
SameDeal-refl g = ground arith

pub fund-SameDeal : (g : Wager) (is_a : Bool) → SameDeal g (lock_if_funded (fund is_a g))
fund-SameDeal g true = ground arith
fund-SameDeal g false = ground arith

pub unfund-SameDeal : (g : Wager) (is_a : Bool) → SameDeal g (unfund is_a g)
unfund-SameDeal g true = ground arith
unfund-SameDeal g false = ground arith

pub mark-SameDeal : (g : Wager) (is_a : Bool) → SameDeal g (mark_refunded is_a g)
mark-SameDeal g true = ground arith
mark-SameDeal g false = ground arith

pub proposal-SameDeal :
    (g : Wager) (by : Pubkey) → SameDeal g (record g { cancel_proposed_by = by })
proposal-SameDeal g by = ground arith

lock-Edge :
    (g : Wager) (b : Bool)
    → g.state ≡ funding
    → Edge g.state ((if b then record g { state = active } else g).state)
lock-Edge g true h = rw h lock
lock-Edge g false h = stay

pub fund-Edge :
    (g : Wager) (is_a : Bool)
    → g.state ≡ funding
    → Edge g.state ((lock_if_funded (fund is_a g)).state)
fund-Edge g true h = lock-Edge (record g { funded_a = true }) (true && g.funded_b) h
fund-Edge g false h = lock-Edge (record g { funded_b = true }) (g.funded_a && true) h

pub unfund-Edge : (g : Wager) (is_a : Bool) → Edge g.state ((unfund is_a g).state)
unfund-Edge g true = stay
unfund-Edge g false = stay

pub mark-Edge : (g : Wager) (is_a : Bool) → Edge g.state ((mark_refunded is_a g).state)
mark-Edge g true = stay
mark-Edge g false = stay
