-- ===== src/Safety/Rules.antt =====
-- Results that are no panic, one rule for each way to build a result.
use shake_escrow.Base.{
  ◌≡◌, ◌≢◌, refl, Bool, true, false, Option, none, some, Result, ok, err, Error, ShakeError, shake,
  AnchorError, anchor, token_error, panic, ◌>>=◌, ensure, ok_or,
}

pub record NeverPanics {ℓ} {A : Type ℓ} (r : Result A) : Type ℓ where
  pub calm : r ≢ err panic

module _ {ℓ} {A : Type ℓ} where
  pub NeverPanics-ok : (a : A) → NeverPanics (ok a)
  NeverPanics-ok a = record { calm = λ e. cc }

  pub NeverPanics-shake : (o : Option A) (e : ShakeError) → NeverPanics (ok_or o (shake e))
  NeverPanics-shake none e = record { calm = λ h. cc }
  NeverPanics-shake (some a) e = record { calm = λ h. cc }

  pub NeverPanics-anchor : (o : Option A) (e : AnchorError) → NeverPanics (ok_or o (anchor e))
  NeverPanics-anchor none e = record { calm = λ h. cc }
  NeverPanics-anchor (some a) e = record { calm = λ h. cc }

  pub NeverPanics-token : (o : Option A) → NeverPanics (ok_or o token_error)
  NeverPanics-token none = record { calm = λ h. cc }
  NeverPanics-token (some a) = record { calm = λ h. cc }

  -- Where the code would panic on `none`, there is a value.
  pub NeverPanics-some : (o : Option A) (e : Error) (a : A) → o ≡ some a → NeverPanics (ok_or o e)
  NeverPanics-some o e a h = rw h (NeverPanics-ok a)

  pub NeverPanics-eq_ok : (r : Result A) (a : A) → r ≡ ok a → NeverPanics r
  NeverPanics-eq_ok r a h = rw h (NeverPanics-ok a)

pub NeverPanics-require : (b : Bool) (e : ShakeError) → NeverPanics (ensure b (shake e))
NeverPanics-require true e = NeverPanics-ok tt
NeverPanics-require false e = record { calm = λ h. cc }

pub NeverPanics-constraint : (b : Bool) (e : AnchorError) → NeverPanics (ensure b (anchor e))
NeverPanics-constraint true e = NeverPanics-ok tt
NeverPanics-constraint false e = record { calm = λ h. cc }

module _ {ℓ} {A B : Type ℓ} where
  pub NeverPanics-bind :
      (m : Result A) (f : A → Result B)
      → NeverPanics m
      → ((a : A) → m ≡ ok a → NeverPanics (f a))
      → NeverPanics (m >>= f)
  NeverPanics-bind (ok a) f calm rest = rest a refl
  NeverPanics-bind (err e) f calm rest = record { calm = λ h. calm.calm (cc) }

pub ruleset calm_rules = (
  NeverPanics-ok, NeverPanics-shake, NeverPanics-anchor, NeverPanics-token, NeverPanics-require,
  NeverPanics-constraint, NeverPanics-bind,
)
