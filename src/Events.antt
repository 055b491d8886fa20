-- ===== src/Events.antt =====
-- The events that the instructions emit: programs/shake-escrow/src/events.rs. The arguments of a
-- constructor are the fields of the source's struct, in its order.
use shake_escrow.Base.{ℕ, Bool}
use shake_escrow.Base.Int.{ℤ}
use shake_escrow.State.{Pubkey}

pub data Event : Type 0 where
  wager_created :
      (wager side_a side_b : Pubkey) (stake : ℕ) (mint resolver : Pubkey) (terms_hash : ℕ)
      (deadline_fund deadline_resolve : ℤ) (nonce : ℕ)
      → Event
  side_staked : (wager staker : Pubkey) (is_side_a : Bool) (amount : ℕ) (now_active : Bool) → Event
  side_unstaked : (wager staker : Pubkey) (amount : ℕ) → Event
  wager_resolved : (wager winner : Pubkey) (payout fee : ℕ) → Event
  side_refunded : (wager side : Pubkey) (amount : ℕ) → Event
  cancel_proposed : (wager by : Pubkey) → Event
  cancel_cleared : (wager by : Pubkey) → Event
  wager_cancelled : (wager : Pubkey) → Event
  wager_conceded : (wager conceder winner : Pubkey) (payout fee : ℕ) → Event
  admin_transfer_proposed : (proposed : Pubkey) → Event
  admin_transferred : (previous admin : Pubkey) → Event
  admin_transfer_cancelled : (proposed : Pubkey) → Event
  wager_closed : (wager : Pubkey) (surplus_swept : ℕ) → Event
