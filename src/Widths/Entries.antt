-- ===== src/Widths/Entries.antt =====
-- Writes to one account, under the widths of Widths.
use shake_escrow.Base.{
  ℕ, ◌-◌, ◌≤◌, ◌≡◌, Option, none, some, [], ◌∷◌, ◌==◌, arith, subst, Bool-cases, inl, inr,
}
use shake_escrow.Base.Int.{ℤ}
use shake_escrow.Base.Words.{u8_max, u64_max}
use shake_escrow.Base.Dict.{Dict, lookup, insert, erase, update}
use shake_escrow.State.{Pubkey, Config, Wager, AdminTransfer, ExposureCounter}
use shake_escrow.Widths.{IsI64, ConfigFits, WagerFits, WagersFit, CounterFits, GivenFits, GivenI64}
use shake_escrow.Instructions.UpdateConfig.{unwrap_or}
use shake_escrow.Instructions.UnstakeSide.{release}

pub WagersFit-lookup :
    (k : Pubkey) (d : Dict Wager) {g : Wager} → WagersFit d → lookup k d ≡ some g → WagerFits g
unfolding lookup
WagersFit-lookup k [] fits h = cc
WagersFit-lookup k ((j, v) ∷ d) fits h = elim (Bool-cases (k == j)) [
  | inl e ↦ subst WagerFits (cc (rw e at h)) fits.0
  | inr e ↦ WagersFit-lookup k d fits.1 (rw e at h)
]

pub WagersFit-insert :
    (k : Pubkey) (g : Wager) (d : Dict Wager) → WagerFits g → WagersFit d → WagersFit (insert k g d)
unfolding insert
WagersFit-insert k g [] fit fits = (fit, tt)
WagersFit-insert k g ((j, v) ∷ d) fit fits = elim (Bool-cases (k == j)) [
  | inl e ↦ rw e (fit, fits.1)
  | inr e ↦ rw e (fits.0, WagersFit-insert k g d fit fits.1)
]

pub WagersFit-erase : (k : Pubkey) (d : Dict Wager) → WagersFit d → WagersFit (erase k d)
unfolding erase
WagersFit-erase k [] fits = tt
WagersFit-erase k ((j, v) ∷ d) fits = elim (Bool-cases (k == j)) [
  | inl e ↦ rw e fits.1
  | inr e ↦ rw e (fits.0, WagersFit-erase k d fits.1)
]

-- The counters as a whole.
abbrev pub CountersFit : (Pubkey → Option ExposureCounter) → Type 0
CountersFit counters = (k : Pubkey) (c : ExposureCounter) → counters k ≡ some c → CounterFits c

pub CountersFit-update :
    (counters : Pubkey → Option ExposureCounter) (k : Pubkey) (c : ExposureCounter)
    → CounterFits c
    → CountersFit counters
    → CountersFit (update counters k (some c))
CountersFit-update counters k c fit fits j d at = elim (Bool-cases (j == k)) [
  | inl e ↦ subst CounterFits (cc (rw e at at)) fit
  | inr e ↦ fits j d (rw e at at)
]

pub release-CounterFits : (c : ExposureCounter) → CounterFits c → CounterFits (release c)
release-CounterFits c fit = record { count = omega (arith, fit.count); bump = fit.bump }

-- A config with another sum.
pub total-ConfigFits :
    (c : Config) (n : ℕ)
    → n ≤ u64_max
    → ConfigFits c
    → ConfigFits (record c { total_open_value = n })
total-ConfigFits c n small fit = record {
  fee_bps = fit.fee_bps;
  min_stake = fit.min_stake;
  max_stake = fit.max_stake;
  max_open_per_wallet = fit.max_open_per_wallet;
  resolver_count = fit.resolver_count;
  max_window = fit.max_window;
  max_total_open = fit.max_total_open;
  total_open_value = small;
  bump = fit.bump;
}

pub less-ConfigFits :
    (c : Config) (n : ℕ)
    → ConfigFits c
    → ConfigFits (record c { total_open_value = c.total_open_value - n })
less-ConfigFits c n fit = total-ConfigFits c _ (omega (arith, fit.total_open_value)) fit

pub unwrap_or-fits :
    (top : ℕ) (o : Option ℕ) (old : ℕ) → GivenFits top o → old ≤ top → unwrap_or o old ≤ top
unwrap_or-fits top none old given fit = fit
unwrap_or-fits top (some n) old given fit = given

pub unwrap_or-IsI64 : (o : Option ℤ) (old : ℤ) → GivenI64 o → IsI64 old → IsI64 (unwrap_or o old)
unwrap_or-IsI64 none old given fit = fit
unwrap_or-IsI64 (some n) old given fit = given

-- One known config, and one known handover.
pub only-ConfigFits : (c : Config) → ConfigFits c → (d : Config) → some c ≡ some d → ConfigFits d
only-ConfigFits c fit d e = subst ConfigFits (cc e) fit

pub only-bump :
    (q : AdminTransfer) → q.bump ≤ u8_max → (p : AdminTransfer) → some q ≡ some p → p.bump ≤ u8_max
only-bump q small p e = let same : q ≡ p = cc in rw (← same) small
