-- ===== src/Custody/Staking.antt =====
-- The books under `stake_side`.
use shake_escrow.Base.{
  ℕ, ◌+◌, ◌≡◌, ◌≢◌, Bool, true, false, Option, none, some, ◌==◌, ok, arith, refl, sym, ap, ◌∙◌,
  ◌||◌,
}
use shake_escrow.State.{Pubkey, Wager, ExposureCounter}
use shake_escrow.Runtime.{Runtime, Tokens, TokenAccount}
use shake_escrow.Runtime.Laws.{AddressLaws, TokenLaws, moved}
use shake_escrow.World.{World}
use shake_escrow.Custody.{IsSound, IsCustodied, IsBacked, locked, worth, count_of, count_at}
use shake_escrow.Custody.Ledger.{IsBacked-moved, IsBacked-received}
use shake_escrow.Custody.Frames.{Frame, IsSound-replace}
use shake_escrow.Custody.Counters.{counter_address, count_of-update, update-IsCanonical}
use shake_escrow.Custody.Sides.{
  unrefunded, funding_early, locked-fund, exposure-fund, fund-IsWellFormed,
}
use shake_escrow.Instructions.StakeSide.{
  StakeSide, stake_side, counter_or_new, fund, lock_if_funded, write_stake,
}
use shake_escrow.Instructions.StakeSide.Effect.{Staked, stake_side-ok}

pub counter_or_new-count : (o : Option ExposureCounter) → (counter_or_new o).count ≡ count_of o
counter_or_new-count none = refl
counter_or_new-count (some c) = refl

-- A token account that a program address owns is not the staker's.
apart_from_source :
    (rt : Runtime) (t : Tokens) (u o from staker : Pubkey) (n : ℕ) (source : TokenAccount)
    → rt.can_sign staker ≡ true
    → rt.can_sign o ≡ false
    → t from ≡ some source
    → source.owner ≡ staker
    → IsBacked t u o n
    → u ≢ from
apart_from_source rt t u o from staker n source signs cannot at owner b same =
    let twice : some b.account ≡ some source = sym b.account_at ∙ (ap t same ∙ at) in
    let owners : o ≡ staker = cc (b.owned, owner, twice) in
    cc (signs, cannot, ap rt.can_sign owners)

-- Whether the side stakes changes no one's earlier exit.
fund_timely :
    (g : Wager) (is_a : Bool)
    → (g.refunded_a ≡ false) × (g.refunded_b ≡ false)
    → let g' = lock_if_funded (fund is_a g) in (g'.refunded_a || g'.refunded_b) ≡ false
fund_timely g is_a h = ground arith

-- The terms of a wager that its address and its vault depend on.
abbrev pub SameTerms : Wager → Wager → Type 0
SameTerms g g' =
    (g'.mint ≡ g.mint) × (g'.side_a ≡ g.side_a) × (g'.nonce ≡ g.nonce) × (g'.bump ≡ g.bump)

fund-SameTerms : (g : Wager) (is_a : Bool) → SameTerms g (lock_if_funded (fund is_a g))
fund-SameTerms g is_a = ground arith

module _ (rt : Runtime) (tokens : TokenLaws rt) (addresses : AddressLaws rt) (ctx : StakeSide)
    (w w' : World) (sound : IsSound rt w) (signs : rt.can_sign ctx.staker ≡ true)
    (s : Staked rt ctx w w') where
  open s use {wager as g, config as c, allowed}

  abbrev is_a : Bool
  is_a = ctx.staker == g.side_a

  abbrev after : World
  after =
      write_stake rt ctx c g (c.total_open_value + g.stake)
        ((counter_or_new (w.counters ctx.counter)).count + 1) (record w { tokens = s.tokens })

  held : IsCustodied rt w.tokens w.clock ctx.wager g
  held = sound.custodied ctx.wager g s.wager_at.found

  fresh : (g.refunded_a ≡ false) × (g.refunded_b ≡ false)
  fresh =
      unrefunded g w.clock held.timely (funding_early g w.clock allowed.is_funding allowed.in_time)

  paid : s.tokens ≡ moved ctx.staker_token ctx.vault g.stake w.tokens
  paid = (tokens.transfer_moves _ _ _ _ _ _ s.paid).1

  counted_one : (x : Pubkey) → count_at rt after x ≡ count_at rt w x + worth (ctx.staker == x) 1
  counted_one x = rw (← s.counter_address) (
      rw (count_of-update rt addresses w.counters ctx.staker x _)
        (ground (arith, counter_or_new-count (w.counters (counter_address rt ctx.staker)))))

  vault_after :
      IsBacked s.tokens (rt.associated_address g.mint ctx.wager) ctx.wager (locked g + g.stake)
  vault_after =
      rw (paid, ← s.vault_at.address)
        (IsBacked-received w.tokens ctx.wager ctx.staker_token
          (rt.associated_address g.mint ctx.wager) g.stake (locked g)
          (apart_from_source rt w.tokens _ _ _ _ _ s.source signs
            (addresses.off_curve _ _ _ held.address) s.source_at s.source_owner held.backed)
          held.backed)

  stake-Frame : Frame rt (rt.associated_address g.mint ctx.wager) w after
  stake-Frame = record {
    same_clock = refl;
    same_mint = rw s.config_at refl;
    bounded = allowed.total_fits;
    stays_configured = λ e. cc;
    spared = λ u o n ne cannot b. rw paid (
        IsBacked-moved w.tokens o ctx.staker_token ctx.vault u g.stake n
          (apart_from_source rt w.tokens _ _ _ _ _ s.source signs cannot s.source_at s.source_owner
            b)
          b);
    canonical =
        rw (← s.counter_address) (update-IsCanonical rt w.counters ctx.staker _ sound.canonical);
  }

  IsCustodied-after : IsCustodied rt s.tokens w.clock ctx.wager (lock_if_funded (fund is_a g))
  IsCustodied-after =
      let (mint, side_a, nonce, bump) = fund-SameTerms g is_a in
      let member = allowed.participant in
      let wf = held.well_formed in
      record {
        address = rw (side_a, nonce, bump) held.address;
        well_formed =
            fund-IsWellFormed g ctx.staker wf member allowed.is_funding fresh allowed.unfunded;
        timely = λ out. cc (out, fund_timely g is_a fresh);
        backed =
            rw (mint, locked-fund g ctx.staker wf member allowed.is_funding fresh allowed.unfunded)
              vault_after;
      }

  pub staked-IsSound : IsSound rt w'
  staked-IsSound =
      let wf = held.well_formed in
      let member = allowed.participant in
      rw s.result (
        IsSound-replace rt addresses w after sound ctx.wager g (lock_if_funded (fund is_a g))
          s.wager_at.found stake-Frame refl (fund-SameTerms g is_a).0 IsCustodied-after
          (rw s.config_at (
            omega (
              arith,
              locked-fund g ctx.staker wf member allowed.is_funding fresh allowed.unfunded,
            )))
          (λ x. omega (
            arith,
            counted_one x,
            exposure-fund g ctx.staker wf member allowed.is_funding fresh allowed.unfunded x,
          )))

-- `stake_side` keeps the system sound.
pub stake_side-IsSound :
    (rt : Runtime)
    → TokenLaws rt
    → AddressLaws rt
    → (ctx : StakeSide) (w : World) {w' : World} → rt.can_sign ctx.staker ≡ true
    → IsSound rt w
    → stake_side rt ctx w ≡ ok w'
    → IsSound rt w'
stake_side-IsSound rt tokens addresses ctx w {w'} signs sound h =
    staked-IsSound rt tokens addresses ctx w w' sound signs (stake_side-ok rt ctx w h)
