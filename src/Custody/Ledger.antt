-- ===== src/Custody/Ledger.antt =====
-- How transfers and closes leave the accounts that back the wagers.
use shake_escrow.Base.{ℕ, ◌+◌, ◌-◌, ◌≢◌, none, arith, ◌==◌, Bool-cases, inl, inr}
use shake_escrow.Base.Dict.{update}
use shake_escrow.State.{Pubkey}
use shake_escrow.Runtime.{Tokens}
use shake_escrow.Runtime.Laws.{moved}
use shake_escrow.Custody.{IsBacked}

module _ (t : Tokens) (o : Pubkey) where
  -- An account that is not the source of a transfer keeps what it has.
  pub IsBacked-moved :
      (from to v : Pubkey) (n m : ℕ)
      → v ≢ from
      → IsBacked t v o m
      → IsBacked (moved from to n t) v o m
  unfolding moved
  IsBacked-moved from to v n m ne b = elim (Bool-cases (v == to)) [
    | inl same ↦ elim (Bool-cases (from == to)) [
      | inl self ↦ record {
        account = b.account;
        account_at = ground arith;
        owned = b.owned;
        covers = b.covers;
      }
      | inr other ↦ record {
        account = record b.account { amount = b.account.amount + n };
        account_at = ground arith;
        owned = b.owned;
        covers = omega arith;
      }
    ]
    | inr other ↦ record {
      account = b.account;
      account_at = ground arith;
      owned = b.owned;
      covers = b.covers;
    }
  ]

  -- The target of a transfer from elsewhere gains the amount.
  pub IsBacked-received :
      (from v : Pubkey) (n m : ℕ)
      → v ≢ from
      → IsBacked t v o m
      → IsBacked (moved from v n t) v o (m + n)
  unfolding moved
  IsBacked-received from v n m ne b = record {
    account = record b.account { amount = b.account.amount + n };
    account_at = ground arith;
    owned = b.owned;
    covers = omega arith;
  }

  -- The source of a transfer still backs what is left.
  pub IsBacked-sent :
      (v to : Pubkey) (n m : ℕ) → IsBacked t v o (m + n) → IsBacked (moved v to n t) v o m
  unfolding moved
  IsBacked-sent v to n m b = elim (Bool-cases (v == to)) [
    | inl self ↦ record {
      account = b.account;
      account_at = ground arith;
      owned = b.owned;
      covers = omega arith;
    }
    | inr other ↦ record {
      account = record b.account { amount = b.account.amount - n };
      account_at = ground arith;
      owned = b.owned;
      covers = omega arith;
    }
  ]

  pub IsBacked-removed :
      (x v : Pubkey) (m : ℕ) → v ≢ x → IsBacked t v o m → IsBacked (update t x none) v o m
  IsBacked-removed x v m ne b = record {
    account = b.account;
    account_at = ground arith;
    owned = b.owned;
    covers = b.covers;
  }
