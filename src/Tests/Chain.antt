-- ===== src/Tests/Chain.antt =====
-- A runtime on which the program runs: a small token program, and addresses by arithmetic. It shows
-- that the laws of Runtime/Laws can hold together.
use shake_escrow.Base.{
  ℕ, ◌+◌, ◌*◌, ◌%◌, ◌≤◌, ◌≡◌, ◌≢◌, refl, Bool, false, not, ◌&&◌, Option, none, some, List, [], ◌∷◌,
  leb, ◌==◌, if◌then◌else◌, arith, Option-cases, inl, inr,
}
use shake_escrow.Base.Words.{u64_max}
use shake_escrow.Base.Dict.{update}
use shake_escrow.State.{Pubkey, Seed, bytes, key, le_bytes}
use shake_escrow.Runtime.{Runtime, Tokens, TokenAccount}
use shake_escrow.Runtime.Laws.{
  moved, fresh_account, TokenLaws, AddressLaws, IsTransferable, balance,
}

abbrev pub both_ready : TokenAccount → TokenAccount → Pubkey → ℕ → Bool
both_ready a b authority n =
    a.mint == b.mint
    && not a.frozen
    && not b.frozen
    && a.owner == authority
    && leb n a.amount
    && leb (b.amount + n) u64_max

abbrev pub sample_transfer : Pubkey → Pubkey → Pubkey → ℕ → Tokens → Option Tokens
sample_transfer from to authority n t = elim (t from) [
  | none ↦ none
  | some a ↦ elim (t to) [
    | none ↦ none
    | some b ↦ if both_ready a b authority n then some (moved from to n t) else none
  ]
]

abbrev pub sample_close : Pubkey → Pubkey → Pubkey → Tokens → Option Tokens
sample_close account destination authority t = elim (t account) [
  | none ↦ none
  | some a ↦ if a.amount == 0 && a.owner == authority then some (update t account none) else none
]

abbrev pub sample_associated : Pubkey → Pubkey → Pubkey
sample_associated mint owner = owner + 1000000 * (mint + 1)

abbrev pub sample_create : Pubkey → Pubkey → Tokens → Option Tokens
sample_create mint owner t =
    some (update t (sample_associated mint owner) (some (fresh_account mint owner)))

-- No such address is a multiple of four, and those that are can sign.
unfoldable pub address_of : List Seed → Pubkey
address_of (bytes b ∷ key w ∷ []) = 4 * w + 1
address_of (bytes b ∷ key w ∷ le_bytes n ∷ []) = 4 * (1000 * w + n) + 2
address_of _ = 3

abbrev pub sample : Runtime
sample = record {
  transfer = sample_transfer;
  close_account = sample_close;
  create_associated = sample_create;
  associated_address = sample_associated;
  find_program_address = λ seeds. (address_of seeds, 255);
  create_program_address = λ seeds b. if b == 255 then some (address_of seeds) else none;
  can_sign = λ k. k % 4 == 0;
  programdata_address = some 7;
  upgrade_authority = λ k. if k == 7 then some 4 else none;
}

transfer_moves :
    (from to authority : Pubkey) (n : ℕ) (t t' : Tokens)
    → sample_transfer from to authority n t ≡ some t'
    → (n ≤ balance t from) × (t' ≡ moved from to n t)
transfer_moves from to authority n t t' h = elim (Option-cases (t from)) [
  | inl e ↦ cc (rw (e, sample_transfer) at h)
  | inr (a, e) ↦ elim (Option-cases (t to)) [
    | inl e' ↦ cc (rw (e, e', sample_transfer) at h)
    | inr (b, e') ↦ ground arith
  ]
]

transfer_succeeds :
    (from to authority : Pubkey) (n : ℕ) (t : Tokens)
    → IsTransferable t from to authority n
    → sample_transfer from to authority n t ≢ none
transfer_succeeds from to authority n t c =
    ground (arith, c.source_at, c.target_at, c.same_mint, c.thawed, c.owned, c.covered, c.fits)

close_removes :
    (account destination authority : Pubkey) (t t' : Tokens)
    → sample_close account destination authority t ≡ some t'
    → (balance t account ≡ 0) × (t' ≡ update t account none)
close_removes account destination authority t t' h = ground arith

close_succeeds :
    (account destination authority : Pubkey) (t : Tokens) (a : TokenAccount)
    → account ≢ destination
    → t account ≡ some a
    → a.amount ≡ 0
    → a.owner ≡ authority
    → sample_close account destination authority t ≢ none
close_succeeds account destination authority t a apart at empty owner = ground arith

pub sample-TokenLaws : TokenLaws sample
sample-TokenLaws = record {
  transfer_moves = transfer_moves;
  transfer_succeeds = transfer_succeeds;
  close_removes = close_removes;
  close_succeeds = close_succeeds;
  create_opens = λ mint owner t t' h. cc;
}

off_curve : (seeds : List Seed) → ((address_of seeds % 4) == 0) ≡ false
unfolding address_of
off_curve (bytes b ∷ key w ∷ []) = ground arith
off_curve (bytes b ∷ key w ∷ le_bytes n ∷ []) = ground arith
off_curve _ = refl

derived-cannot_sign :
    (seeds : List Seed) (b k : ℕ)
    → (if b == 255 then some (address_of seeds) else none) ≡ some k
    → ((k % 4) == 0) ≡ false
derived-cannot_sign seeds b k h = ground (arith, off_curve seeds)

counter_injective :
    (x y b b' k : ℕ)
    → (if b == 255 then some (4 * x + 1) else none) ≡ some k
    → (if b' == 255 then some (4 * y + 1) else none) ≡ some k
    → x ≡ y
counter_injective x y b b' k h h' = ground arith

pub sample-AddressLaws : AddressLaws sample
unfolding address_of
sample-AddressLaws = record {
  canonical_bump = λ seeds. refl;
  off_curve = derived-cannot_sign;
  counter_injective = counter_injective;
  associated_injective = λ mint x y h. omega arith;
}
