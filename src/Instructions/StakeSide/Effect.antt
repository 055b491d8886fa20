-- ===== src/Instructions/StakeSide/Effect.antt =====
-- What a successful `stake_side` read and wrote.
use shake_escrow.Base.{
  ℕ, ◌+◌, ◌≤◌, ◌<◌, ◌≡◌, true, false, ◌||◌, some, ◌==◌, ok, arith, on_ok, on_pass, on_some,
  ok-injective, sym, if◌then◌else◌, ==_iff,
}
use shake_escrow.Base.Int.{leb_ℤ}
use shake_escrow.Base.Words.{checked_add, u8_max, u64_max}
use shake_escrow.State.{Config, Wager, funding, ExposureCounter}
use shake_escrow.Runtime.{Runtime, Tokens, TokenAccount}
use shake_escrow.Runtime.Addresses.{counter_seeds}
use shake_escrow.World.{World}
use shake_escrow.World.Loads.{WagerAt, AssociatedAt, on_wager, on_associated, on_transfer}
use shake_escrow.Instructions.StakeSide.{
  StakeSide, stake_side, handle_stake_side, check_stake, counter_or_new, write_stake,
}

-- The checks that were passed.
pub record MayStake (ctx : StakeSide) (c : Config) (g : Wager) (k : ExposureCounter) (w : World)
    : Type 0 where
  pub is_funding : g.state ≡ funding
  pub in_time : leb_ℤ w.clock g.deadline_fund ≡ true
  pub participant : (ctx.staker == g.side_a || ctx.staker == g.side_b) ≡ true
  pub unfunded : (if ctx.staker == g.side_a then g.funded_a else g.funded_b) ≡ false
  pub under_cap : k.count < c.max_open_per_wallet
  pub total_capped : c.total_open_value + g.stake ≤ c.max_total_open
  pub total_fits : c.total_open_value + g.stake ≤ u64_max

pub check_stake-ok :
    (ctx : StakeSide) (c : Config) (g : Wager) (k : ExposureCounter) (w : World) {n : ℕ}
    → check_stake ctx c g k w ≡ ok n
    → MayStake ctx c g k w × (n ≡ c.total_open_value + g.stake)
unfolding check_stake
check_stake-ok ctx c g k w h = ground arith

pub record Staked (rt : Runtime) (ctx : StakeSide) (w w' : World) : Type 0 where
  pub config : Config
  pub wager : Wager
  pub source : TokenAccount
  pub vault : TokenAccount
  pub tokens : Tokens
  pub config_at : w.config ≡ some config
  pub wager_at : WagerAt rt ctx.wager w wager
  pub counter_address : (rt.find_program_address (counter_seeds ctx.staker)).0 ≡ ctx.counter
  pub source_at : w.tokens ctx.staker_token ≡ some source
  pub source_owner : source.owner ≡ ctx.staker
  pub vault_at : AssociatedAt rt ctx.vault wager.mint ctx.wager w vault
  pub allowed : MayStake ctx config wager (counter_or_new (w.counters ctx.counter)) w
  pub paid : rt.transfer ctx.staker_token ctx.vault ctx.staker wager.stake w.tokens ≡ some tokens
  pub result :
      w'
      ≡ write_stake rt ctx config wager
          (config.total_open_value + wager.stake)
          ((counter_or_new (w.counters ctx.counter)).count + 1)
          (record w { tokens = tokens })

pub checked_add-ok : (top a b : ℕ) {n : ℕ} → checked_add top a b ≡ some n → n ≡ a + b
checked_add-ok top a b h = ground arith

module _ (rt : Runtime) (ctx : StakeSide) (w : World) {w' : World} where
  pub stake_side-ok : stake_side rt ctx w ≡ ok w' → Staked rt ctx w w'
  unfolding stake_side handle_stake_side
  stake_side-ok h = on_some w.config _ h λ c config_at h₁.
      on_wager rt ctx.wager w h₁ λ g wager_at h₂.
        on_pass ((rt.find_program_address (counter_seeds ctx.staker)).0 == ctx.counter) _ h₂
          λ counter_address h₃. on_some (w.tokens ctx.staker_token) _ h₃ λ source source_at h₄.
            on_pass (source.owner == ctx.staker) _ h₄ λ source_owner h₅.
              on_pass (source.mint == g.mint) _ h₅ λ source_mint h₆.
                on_associated rt ctx.vault g.mint ctx.wager w h₆ λ vault vault_at h₇.
                  let k = counter_or_new (w.counters ctx.counter) in
                  on_ok (check_stake ctx c g k w) h₇ λ n checked h₈.
                    on_transfer rt ctx.staker_token ctx.vault ctx.staker g.stake w _ h₈ λ t paid h₉.
                      on_some (checked_add u8_max k.count 1) _ h₉ λ count counted last.
                        let (allowed, total) = check_stake-ok ctx c g k w checked in
                        record {
                          config = c;
                          wager = g;
                          source = source;
                          vault = vault;
                          tokens = t;
                          config_at = config_at;
                          wager_at = wager_at;
                          counter_address = (==_iff _ _).0 counter_address;
                          source_at = source_at;
                          source_owner = (==_iff _ _).0 source_owner;
                          vault_at = vault_at;
                          allowed = allowed;
                          paid = paid;
                          result =
                              rw (← total, ← checked_add-ok _ _ _ counted)
                                (sym (ok-injective last));
                        }
