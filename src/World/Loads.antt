-- ===== src/World/Loads.antt =====
-- What a successful load, or a successful call of the token program, tells; each handed to a
-- continuation, like `on_ok`.
use shake_escrow.Base.{
  ℕ, ◌≡◌, ◌∷◌, true, Option, none, some, Result, ok, ◌>>=◌, arith, on_ok, on_pass, on_some,
  ok-injective, subst, token_error, ◌>>◌, ◌==◌, ◌≢◌, not,
}
use shake_escrow.Base.Dict.{lookup}
use shake_escrow.State.{Pubkey, Wager, ExposureCounter}
use shake_escrow.Runtime.{Runtime, TokenAccount, Tokens}
use shake_escrow.Runtime.Addresses.{wager_seeds, counter_seeds, is_some_key}
use shake_escrow.World.{
  World, load_wager, check_close, load_counter, load_associated, transfer, close_account,
}

pub is_some_key_sound : (o : Option Pubkey) (k : Pubkey) → is_some_key o k ≡ true → o ≡ some k
is_some_key_sound none k h = cc
is_some_key_sound (some a) k h = ground arith

-- A wager's account that closes is not the account that its rent goes to.
pub on_closing {ℓ κ} :
    {B : Type ℓ} {C : Type κ} (k destination : Pubkey) {r : Result B} {b : B}
    → (check_close k destination >> r) ≡ ok b
    → (destination ≢ k → r ≡ ok b → C)
    → C
on_closing k destination h go =
    on_pass (not (k == destination)) _ h λ apart rest. go (λ same. ground (arith, apart, same)) rest

module _ (rt : Runtime) where
  -- The wager at an address that its own seeds give.
  pub record WagerAt (k : Pubkey) (w : World) (g : Wager) : Type 0 where
    pub found : lookup k w.wagers ≡ some g
    pub address : rt.create_program_address (wager_seeds g.side_a g.nonce) g.bump ≡ some k

  pub record CounterAt (k wallet : Pubkey) (w : World) (c : ExposureCounter) : Type 0 where
    pub found : w.counters k ≡ some c
    pub address : rt.create_program_address (counter_seeds wallet) c.bump ≡ some k

  pub record AssociatedAt (k mint authority : Pubkey) (w : World) (a : TokenAccount) : Type 0 where
    pub found : w.tokens k ≡ some a
    pub owned : a.owner ≡ authority
    pub address : rt.associated_address mint authority ≡ k

  load_wager-ok : (k : Pubkey) (w : World) {g : Wager} → load_wager rt k w ≡ ok g → WagerAt k w g
  unfolding load_wager
  load_wager-ok k w h = on_some (lookup k w.wagers) _ h λ x found h₁.
      on_pass (is_some_key (rt.create_program_address (wager_seeds x.side_a x.nonce) x.bump) k) _ h₁
        λ a last.
          subst (WagerAt k w) (ok-injective last)
            (record { found = found; address = is_some_key_sound _ k a })

  load_counter-ok :
      (k wallet : Pubkey) (w : World) {c : ExposureCounter}
      → load_counter rt k wallet w ≡ ok c
      → CounterAt k wallet w c
  unfolding load_counter
  load_counter-ok k wallet w h = on_some (w.counters k) _ h λ x found h₁.
      on_pass (is_some_key (rt.create_program_address (counter_seeds wallet) x.bump) k) _ h₁
        λ a last.
          subst (CounterAt k wallet w) (ok-injective last)
            (record { found = found; address = is_some_key_sound _ k a })

  load_associated-ok :
      (k mint authority : Pubkey) (w : World) {a : TokenAccount}
      → load_associated rt k mint authority w ≡ ok a
      → AssociatedAt k mint authority w a
  unfolding load_associated
  load_associated-ok k mint authority w h = ground arith

  pub transfer-ok :
      (from to authority : Pubkey) (n : ℕ) (w : World) {w' : World}
      → transfer rt from to authority n w ≡ ok w'
      → (t : Tokens) × (rt.transfer from to authority n w.tokens ≡ some t)
        × (record w { tokens = t } ≡ w')
  unfolding transfer
  transfer-ok from to authority n w h =
      on_some (rt.transfer from to authority n w.tokens) token_error h
        λ t e last. (t, e, ok-injective last)

  close_account-ok :
      (account destination authority : Pubkey) (w : World) {w' : World}
      → close_account rt account destination authority w ≡ ok w'
      → (t : Tokens) × (rt.close_account account destination authority w.tokens ≡ some t)
        × (record w { tokens = t; rents = (account, destination) ∷ w.rents } ≡ w')
  unfolding close_account
  close_account-ok account destination authority w h =
      on_some (rt.close_account account destination authority w.tokens) token_error h
        λ t e last. (t, e, ok-injective last)

  module _ {ℓ κ} {B : Type ℓ} {C : Type κ} where
    pub on_wager :
        (k : Pubkey) (w : World) {f : Wager → Result B} {b : B}
        → (load_wager rt k w >>= f) ≡ ok b
        → ((g : Wager) → WagerAt k w g → f g ≡ ok b → C)
        → C
    on_wager k w h go = on_ok (load_wager rt k w) h λ g e. go g (load_wager-ok k w e)

    pub on_counter :
        (k wallet : Pubkey) (w : World) {f : ExposureCounter → Result B} {b : B}
        → (load_counter rt k wallet w >>= f) ≡ ok b
        → ((c : ExposureCounter) → CounterAt k wallet w c → f c ≡ ok b → C)
        → C
    on_counter k wallet w h go =
        on_ok (load_counter rt k wallet w) h λ c e. go c (load_counter-ok k wallet w e)

    pub on_associated :
        (k mint authority : Pubkey) (w : World) {f : TokenAccount → Result B} {b : B}
        → (load_associated rt k mint authority w >>= f) ≡ ok b
        → ((a : TokenAccount) → AssociatedAt k mint authority w a → f a ≡ ok b → C)
        → C
    on_associated k mint authority w h go =
        on_ok (load_associated rt k mint authority w) h
          λ a e. go a (load_associated-ok k mint authority w e)

    pub on_transfer :
        (from to authority : Pubkey) (n : ℕ) (w : World) (f : World → Result B) {b : B}
        → (transfer rt from to authority n w >>= f) ≡ ok b
        → ((t : Tokens)
            → rt.transfer from to authority n w.tokens ≡ some t
            → f (record w { tokens = t }) ≡ ok b
            → C)
        → C
    on_transfer from to authority n w f h go =
        on_ok (transfer rt from to authority n w) h λ w₁ e h₁.
          let (t, paid, same) = transfer-ok from to authority n w e in go t paid (rw same h₁)

    pub on_close :
        (account destination authority : Pubkey) (w : World) (f : World → Result B) {b : B}
        → (close_account rt account destination authority w >>= f) ≡ ok b
        → ((t : Tokens)
            → rt.close_account account destination authority w.tokens ≡ some t
            → f (record w { tokens = t; rents = (account, destination) ∷ w.rents }) ≡ ok b
            → C)
        → C
    on_close account destination authority w f h go =
        on_ok (close_account rt account destination authority w) h λ w₁ e h₁.
          let (t, closed, same) = close_account-ok account destination authority w e in
          go t closed (rw same h₁)
