-- ===== src/World.antt =====
-- The chain as the program sees it, and the loading of accounts that Anchor's account structs
-- declare. An instruction that fails leaves no trace: it returns an error in place of a world.
pub mod Loads
pub mod Forward
use shake_escrow.Base.{
  ℕ, Bool, true, Option, none, some, List, ◌∷◌, ◌==◌, ◌&&◌, Result, ok, ◌>>=◌, ◌>>◌, ensure, ok_or,
  anchor, token_error, AnchorError, account_not_initialized, constraint_seeds,
  constraint_token_owner, constraint_associated, constraint_close, not, if◌then◌else◌,
}
use shake_escrow.Base.Int.{ℤ}
use shake_escrow.Base.Dict.{Dict, lookup, update}
use shake_escrow.State.{Pubkey, Config, Wager, AdminTransfer, ExposureCounter}
use shake_escrow.Events.{Event}
use shake_escrow.Runtime.{Runtime, Tokens, TokenAccount}
use shake_escrow.Runtime.Addresses.{wager_seeds, counter_seeds, is_program_address}

-- The config and the pending admin transfer stand at fixed addresses, so each is one slot. The
-- wagers, counters and token accounts are found by their addresses. `clock` is the time that
-- `Clock::get` reads; `events` are those emitted, the newest first; `rents` pairs each account
-- that was closed with the receiver of its rent, the newest first.
pub record World : Type 0 where
  pub config : Option Config
  pub admin_transfer : Option AdminTransfer
  pub wagers : Dict Wager
  pub counters : Pubkey → Option ExposureCounter
  pub tokens : Tokens
  pub clock : ℤ
  pub events : List Event
  pub rents : List (Pubkey × Pubkey)

abbrev pub emit : Event → World → World
emit e w = record w { events = e ∷ w.events }

-- `close = destination` on the account at `k`.
abbrev pub return_rent : Pubkey → Pubkey → World → World
return_rent k destination w = record w { rents = (k, destination) ∷ w.rents }

-- What `close = destination` asks of the account at `k`: it is not the destination itself.
abbrev pub check_close : Pubkey → Pubkey → Result (Unit {0})
check_close k destination = ensure (not (k == destination)) (anchor constraint_close)

abbrev pub load_config : World → Result Config
load_config w = ok_or w.config (anchor account_not_initialized)

module _ (rt : Runtime) where
  unfoldable pub load_wager : Pubkey → World → Result Wager
  load_wager k w = do
    g ← ok_or (lookup k w.wagers) (anchor account_not_initialized)
    ensure (is_program_address rt (wager_seeds g.side_a g.nonce) g.bump k) (anchor constraint_seeds)
    ok g

  unfoldable pub load_counter : Pubkey → Pubkey → World → Result ExposureCounter
  load_counter k wallet w = do
    c ← ok_or (w.counters k) (anchor account_not_initialized)
    ensure (is_program_address rt (counter_seeds wallet) c.bump k) (anchor constraint_seeds)
    ok c

  abbrev pub load_token : Pubkey → World → Result TokenAccount
  load_token k w = ok_or (w.tokens k) (anchor account_not_initialized)

  -- `associated_token::mint = mint, associated_token::authority = authority` on the account at `k`.
  unfoldable pub load_associated : Pubkey → Pubkey → Pubkey → World → Result TokenAccount
  load_associated k mint authority w = do
    a ← load_token k w
    ensure (a.owner == authority) (anchor constraint_token_owner)
    ensure (rt.associated_address mint authority == k) (anchor constraint_associated)
    ok a

  -- `token::transfer`: from, to, authority, amount.
  unfoldable pub transfer : Pubkey → Pubkey → Pubkey → ℕ → World → Result World
  transfer from to authority n w = do
    t ← ok_or (rt.transfer from to authority n w.tokens) token_error
    ok (record w { tokens = t })

  -- `token::close_account`: account, destination, authority.
  unfoldable pub close_account : Pubkey → Pubkey → Pubkey → World → Result World
  close_account account destination authority w = do
    t ← ok_or (rt.close_account account destination authority w.tokens) token_error
    ok (record w { tokens = t; rents = (account, destination) ∷ w.rents })
