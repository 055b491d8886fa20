-- ===== src/Custody/Solvency.antt =====
-- What the soundness of the books means for one wager on a chain that the program has run on.
use shake_escrow.Base.{ℕ, ◌≤◌, ◌≡◌, some}
use shake_escrow.Base.Dict.{lookup}
use shake_escrow.State.{Pubkey, Wager}
use shake_escrow.Runtime.{Runtime}
use shake_escrow.Runtime.Laws.{AddressLaws, TokenLaws, balance}
use shake_escrow.World.{World}
use shake_escrow.Custody.{IsBacked, locked, exposure, sum_of, total_of, count_at}
use shake_escrow.Custody.Steps.{IsGenesis, Reach, Reach-IsSound, genesis-IsSound}

backed-balance :
    (rt : Runtime) (w : World) (v owner : Pubkey) (n : ℕ)
    → IsBacked w.tokens v owner n
    → n ≤ balance w.tokens v
backed-balance rt w v owner n b = rw b.account_at b.covers

-- On every chain that comes from one on which the program had not run, the vault of each live wager
-- holds at least the stakes that the wager still owes, the global open value is the sum of these
-- stakes over all live wagers, and each wallet's counter is the number of its stakes among them.
-- It is stated under the laws of the token program and of program addresses.
pub Reach-solvent :
    (rt : Runtime)
    → TokenLaws rt
    → AddressLaws rt
    → (w : World) {w' : World} → IsGenesis w
    → Reach rt w w'
    → ((k : Pubkey) (g : Wager)
        → lookup k w'.wagers ≡ some g
        → locked g ≤ balance w'.tokens (rt.associated_address g.mint k))
      × (total_of w'.config ≡ sum_of locked w'.wagers)
      × ((x : Pubkey) → count_at rt w' x ≡ sum_of (exposure x) w'.wagers)
Reach-solvent rt tokens addresses w {w'} start r =
    let sound = Reach-IsSound rt tokens addresses (genesis-IsSound rt tokens addresses w start) r in
    (
      λ k g at. backed-balance rt w' _ k (locked g) ((sound.custodied k g at).backed),
      sound.booked,
      sound.counted,
    )
