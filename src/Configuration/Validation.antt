-- ===== src/Configuration/Validation.antt =====
-- `validate_config_values` (initialize_config.rs) against its bounds.
use shake_escrow.Base.{ℕ, ◌≡◌, ◌↔◌, List, [], ◌∷◌, ok, arith}
use shake_escrow.Base.Int.{ℤ, pos, ltb_ℤ_iff, leb_ℤ_iff}
use shake_escrow.State.{Pubkey, max_window_cap}
use shake_escrow.Instructions.InitializeConfig.{validate_config_values}
use shake_escrow.Configuration.{IsInBounds}

-- The check passes exactly on values that are in bounds.
pub validate_config_values_iff :
    (fee_bps min_stake max_stake : ℕ) (resolvers : List Pubkey) (max_window : ℤ)
    (per_wallet total : ℕ)
    → (validate_config_values fee_bps min_stake max_stake resolvers max_window per_wallet total
        ≡ ok tt)
      ↔ IsInBounds fee_bps min_stake max_stake resolvers max_window per_wallet total
unfolding validate_config_values
validate_config_values_iff fee_bps min_stake max_stake [] max_window per_wallet total =
    (λ h. ground arith, λ v. absurd (omega (arith, v.resolvers_few)))
validate_config_values_iff fee_bps min_stake max_stake (r ∷ rs) max_window per_wallet total = (
  λ h. ground (arith, ltb_ℤ_iff (pos 0) max_window, leb_ℤ_iff max_window max_window_cap),
  λ v. ground (arith, ltb_ℤ_iff (pos 0) max_window, leb_ℤ_iff max_window max_window_cap),
)
