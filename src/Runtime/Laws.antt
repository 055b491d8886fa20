-- ===== src/Runtime/Laws.antt =====
-- The documented behaviour of the token program and of program addresses, as named hypotheses.
use shake_escrow.Base.{
  ℕ, ◌+◌, ◌-◌, ◌≤◌, ◌≡◌, ◌≢◌, false, Option, none, some, List, ◌==◌, if◌then◌else◌,
}
use shake_escrow.Base.Dict.{update}
use shake_escrow.Base.Words.{u64_max}
use shake_escrow.State.{Pubkey, Seed}
use shake_escrow.Runtime.{TokenAccount, Tokens, Runtime}
use shake_escrow.Runtime.Addresses.{counter_seeds}

-- The amount that an address holds; nothing, where there is no account.
abbrev pub amount_of : Option TokenAccount → ℕ
amount_of none = 0
amount_of (some a) = a.amount

abbrev pub balance : Tokens → Pubkey → ℕ
balance t k = amount_of (t k)

abbrev pub add_amount : ℕ → Option TokenAccount → Option TokenAccount
add_amount n none = none
add_amount n (some a) = some (record a { amount = a.amount + n })

abbrev pub sub_amount : ℕ → Option TokenAccount → Option TokenAccount
sub_amount n none = none
sub_amount n (some a) = some (record a { amount = a.amount - n })

-- The accounts after `n` has moved. A transfer from an account to itself changes nothing.
unfoldable pub moved : Pubkey → Pubkey → ℕ → Tokens → Tokens
moved from to n t k =
    if from == to
    then t k
    else if k == from
    then sub_amount n (t k)
    else if k == to
    then add_amount n (t k)
    else t k

abbrev pub fresh_account : Pubkey → Pubkey → TokenAccount
fresh_account mint owner = record { mint = mint; owner = owner; amount = 0; frozen = false }

-- What a transfer needs to go through: both accounts exist, hold one mint and are not frozen, the
-- authority owns the source, and the amounts fit.
pub record IsTransferable (t : Tokens) (from to authority : Pubkey) (n : ℕ) : Type 0 where
  pub source : TokenAccount
  pub target : TokenAccount
  pub source_at : t from ≡ some source
  pub target_at : t to ≡ some target
  pub same_mint : source.mint ≡ target.mint
  pub thawed : (source.frozen ≡ false) × (target.frozen ≡ false)
  pub owned : source.owner ≡ authority
  pub covered : n ≤ source.amount
  pub fits : target.amount + n ≤ u64_max

-- SPL token and associated token program, for mints other than wrapped SOL.
pub record TokenLaws (rt : Runtime) : Type 0 where
  pub transfer_moves :
      (from to authority : Pubkey) (n : ℕ) (t t' : Tokens)
      → rt.transfer from to authority n t ≡ some t'
      → (n ≤ balance t from) × (t' ≡ moved from to n t)
  pub transfer_succeeds :
      (from to authority : Pubkey) (n : ℕ) (t : Tokens)
      → IsTransferable t from to authority n
      → rt.transfer from to authority n t ≢ none
  pub close_removes :
      (account destination authority : Pubkey) (t t' : Tokens)
      → rt.close_account account destination authority t ≡ some t'
      → (balance t account ≡ 0) × (t' ≡ update t account none)
  pub close_succeeds :
      (account destination authority : Pubkey) (t : Tokens) (a : TokenAccount)
      → account ≢ destination
      → t account ≡ some a
      → a.amount ≡ 0
      → a.owner ≡ authority
      → rt.close_account account destination authority t ≢ none
  pub create_opens :
      (mint owner : Pubkey) (t t' : Tokens)
      → rt.create_associated mint owner t ≡ some t'
      → t' ≡ update t (rt.associated_address mint owner) (some (fresh_account mint owner))

-- Program addresses: the canonical bump gives the address back, no program address can sign, and
-- the hashes do not collide.
pub record AddressLaws (rt : Runtime) : Type 0 where
  pub canonical_bump :
      (seeds : List Seed)
      → rt.create_program_address seeds (rt.find_program_address seeds).1
        ≡ some (rt.find_program_address seeds).0
  pub off_curve :
      (seeds : List Seed) (b : ℕ) (k : Pubkey)
      → rt.create_program_address seeds b ≡ some k
      → rt.can_sign k ≡ false
  pub counter_injective :
      (x y : Pubkey) (b b' : ℕ) (k : Pubkey)
      → rt.create_program_address (counter_seeds x) b ≡ some k
      → rt.create_program_address (counter_seeds y) b' ≡ some k
      → x ≡ y
  pub associated_injective :
      (mint x y : Pubkey) → rt.associated_address mint x ≡ rt.associated_address mint y → x ≡ y
