-- ===== src/Custody/Settlement.antt =====
-- The books under `resolve`, `concede`, `cancel_accept` and `close_expired`, where the wager's account
-- goes.
use shake_escrow.Base.{
  ℕ, ◌+◌, ◌-◌, ◌*◌, ◌≤◌, ◌≡◌, ◌≢◌, List, some, ◌==◌, ok, arith, refl, ◌∙◌, sym, zero, suc,
}
use shake_escrow.Base.Words.{saturating_mul, u64_max}
use shake_escrow.Base.Dict.{update, erase-insert}
use shake_escrow.State.{Pubkey, Config, Wager, ExposureCounter}
use shake_escrow.Events.{Event}
use shake_escrow.Runtime.{Runtime, Tokens}
use shake_escrow.Runtime.Laws.{AddressLaws, TokenLaws}
use shake_escrow.World.{World, emit}
use shake_escrow.World.Loads.{WagerAt, CounterAt}
use shake_escrow.Custody.{IsSound, IsBacked, locked, exposure, worth, count_at, le-sum_of}
use shake_escrow.Custody.Ledger.{IsBacked-moved, IsBacked-removed}
use shake_escrow.Custody.Frames.{Frame, IsSound-remove}
use shake_escrow.Custody.Counters.{
  counter_address, count_of-update, update-IsCanonical, CounterAt-canonical,
}
use shake_escrow.Custody.Sides.{
  unrefunded, active_early, locked-active, exposure-active, locked-exited, exposure-exited,
}
use shake_escrow.Custody.Exits.{counter_count}
use shake_escrow.Instructions.UnstakeSide.{release}
use shake_escrow.Instructions.Payout.Split.{split_pot-IsSplit}
use shake_escrow.Instructions.Payout.Effect.{paid_out}
use shake_escrow.Instructions.Resolve.{Resolve, resolve, settle_books}
use shake_escrow.Instructions.Resolve.Effect.{Parties, Settled, resolve_parties, resolve-ok}
use shake_escrow.Instructions.Concede.{Concede, concede}
use shake_escrow.Instructions.Concede.Effect.{concede_parties, concede-ok}
use shake_escrow.Instructions.Cancel.{CancelAccept, cancel_accept}
use shake_escrow.Instructions.Cancel.Effect.{cancel_accept-ok, cancelled_tokens}
use shake_escrow.Instructions.CloseExpired.{CloseExpired, close_expired}
use shake_escrow.Instructions.CloseExpired.Effect.{close_expired-ok, swept, closed_world}

-- Both sides of a locked wager leave at once, and the books are written by `settle_books`.
module _ (rt : Runtime) (addresses : AddressLaws rt) (w : World) (sound : IsSound rt w)
    (k ca cb collector : Pubkey) (total : ℕ) (final : Wager) (c : Config) (g : Wager)
    (ka kb : ExposureCounter) (t : Tokens) (rents : List (Pubkey × Pubkey)) (first second : Event)
    (config_at : w.config ≡ some c) (wager_at : WagerAt rt k w g)
    (counter_a_at : CounterAt rt ca g.side_a w ka) (counter_b_at : CounterAt rt cb g.side_b w kb)
    (spared : (u o : Pubkey) (n : ℕ)
      → u ≢ rt.associated_address g.mint k
      → IsBacked w.tokens u o n
      → IsBacked t u o n)
    (owed : total ≡ locked g)
    (exposed : (x : Pubkey)
      → exposure x g ≡ worth (g.side_a == x) 1 + worth (g.side_b == x) 1) where
  abbrev settled : World
  settled = emit second (
      emit first (
        settle_books k ca cb collector total final c ka kb
          (record w { tokens = t; rents = rents })))

  home_a : ca ≡ counter_address rt g.side_a
  home_a = CounterAt-canonical rt addresses w sound ca g.side_a ka counter_a_at

  home_b : cb ≡ counter_address rt g.side_b
  home_b = CounterAt-canonical rt addresses w sound cb g.side_b kb counter_b_at

  counted_both :
      (x : Pubkey)
      → count_at rt settled x
        ≡ count_at rt w x - (worth (g.side_a == x) 1 + worth (g.side_b == x) 1)
  counted_both x =
      let held = sound.custodied k g wager_at.found in
      let a = counter_count rt addresses w sound ca g.side_a ka counter_a_at in
      let b = counter_count rt addresses w sound cb g.side_b kb counter_b_at in
      rw (home_a, home_b)
        (rw
          (count_of-update rt addresses
            (update w.counters (counter_address rt g.side_a) (some (release ka))) g.side_b x
            (release kb))
          (rw (count_of-update rt addresses w.counters g.side_a x (release ka))
            (ground (arith, a, b, held.well_formed.sides_apart))))

  settle-Frame : Frame rt (rt.associated_address g.mint k) w settled
  settle-Frame = record {
    same_clock = refl;
    same_mint = rw config_at refl;
    bounded = let top = rw config_at at sound.bounded in omega (arith, top);
    stays_configured = λ e. cc;
    spared = λ u o n ne cannot b. spared u o n ne b;
    canonical =
        rw (home_a, home_b)
          (update-IsCanonical rt
            (update w.counters (counter_address rt g.side_a) (some (release ka))) g.side_b _
            (update-IsCanonical rt w.counters g.side_a _ sound.canonical));
  }

  pub settled-IsSound : IsSound rt settled
  settled-IsSound =
      IsSound-remove rt addresses w settled sound k g wager_at.found settle-Frame
        (erase-insert k final w.wagers)
        (let booked : c.total_open_value ≡ _ = rw config_at at sound.booked in
          rw config_at (omega (arith, owed, booked, le-sum_of locked k g w.wagers wager_at.found)))
        (λ x. omega (
          arith,
          counted_both x,
          exposed x,
          sound.counted x,
          le-sum_of (exposure x) k g w.wagers wager_at.found,
        ))

-- What the payments of a settlement and of a cancellation leave to the other vaults.
paid_out_spares :
    (v x y : Pubkey) (p f : ℕ) (t : Tokens) (u o : Pubkey) (n : ℕ)
    → u ≢ v
    → IsBacked t u o n
    → IsBacked (paid_out v x y p f t) u o n
paid_out_spares v x y p f t u o n ne b =
    let b₁ = IsBacked-moved t o v x u p n ne b in
    let b₂ = IsBacked-moved _ o v y u f n ne b₁ in
    IsBacked-removed _ o v u n ne (IsBacked-moved _ o v y u _ n ne b₂)

cancelled_spares :
    (ctx : CancelAccept) (stake : ℕ) (t : Tokens) (u o : Pubkey) (n : ℕ)
    → u ≢ ctx.vault
    → IsBacked t u o n
    → IsBacked (cancelled_tokens ctx stake t) u o n
cancelled_spares ctx stake t u o n ne b =
    let b₁ = IsBacked-moved t o ctx.vault ctx.side_a_token u stake n ne b in
    let b₂ = IsBacked-moved _ o ctx.vault ctx.side_b_token u stake n ne b₁ in
    IsBacked-removed _ o ctx.vault u n ne (IsBacked-moved _ o ctx.vault ctx.fee_token u _ n ne b₂)

swept_spares :
    (ctx : CloseExpired) (g : Wager) (m : ℕ) (t : Tokens) (u o : Pubkey) (n : ℕ)
    → u ≢ ctx.vault
    → IsBacked t u o n
    → IsBacked (swept ctx g m t) u o n
swept_spares ctx g zero t u o n ne b = b
swept_spares ctx g (suc m) t u o n ne b =
    IsBacked-moved t o ctx.vault g.fee_destination u (suc m) n ne b

module _ (rt : Runtime) (tokens : TokenLaws rt) (addresses : AddressLaws rt) where
  settlement-IsSound :
      (p : Parties) (w w' : World) → IsSound rt w → Settled rt p w w' → IsSound rt w'
  settlement-IsSound p w w' sound s =
      let g = s.wager in
      let held = sound.custodied p.wager g s.wager_at.found in
      let fresh = unrefunded g w.clock held.timely (active_early g w.clock s.is_active s.in_time) in
      let parts = split_pot-IsSplit _ _ _ _ s.split in
      rw s.result (
        settled-IsSound rt addresses w sound p.wager p.counter_a p.counter_b p.rent_collector
          (s.payout + s.fee) _ s.config g s.counter_a s.counter_b _ _ _ _ s.config_at s.wager_at
          s.counter_a_at s.counter_b_at
          (λ u o n ne b.
            paid_out_spares p.vault p.winner_token p.fee_token _ _ w.tokens u o n
              (λ e. ne (e ∙ sym s.vault_at.address)) b)
          (omega (arith, parts.whole, locked-active g held.well_formed s.is_active fresh))
          (exposure-active g held.well_formed s.is_active fresh))

  -- `resolve` keeps the system sound.
  pub resolve-IsSound :
      (ctx : Resolve) (winner : Pubkey) (w : World) {w' : World}
      → IsSound rt w
      → resolve rt ctx winner w ≡ ok w'
      → IsSound rt w'
  resolve-IsSound ctx winner w {w'} sound h =
      settlement-IsSound (resolve_parties ctx) w w' sound (resolve-ok rt tokens ctx winner w h).0

  -- `concede` keeps the system sound.
  pub concede-IsSound :
      (ctx : Concede) (w : World) {w' : World}
      → IsSound rt w
      → concede rt ctx w ≡ ok w'
      → IsSound rt w'
  concede-IsSound ctx w {w'} sound h =
      settlement-IsSound (concede_parties ctx) w w' sound (concede-ok rt tokens ctx w h).0

  -- `cancel_accept` keeps the system sound: the doubled stake does not saturate, since the global
  -- sum, which covers it, fits a u64.
  pub cancel_accept-IsSound :
      (ctx : CancelAccept) (w : World) {w' : World}
      → IsSound rt w
      → cancel_accept rt ctx w ≡ ok w'
      → IsSound rt w'
  cancel_accept-IsSound ctx w sound h =
      let s = cancel_accept-ok rt tokens ctx w h in
      let g = s.wager in
      let a = s.allowed in
      let held = sound.custodied ctx.wager g s.wager_at.found in
      let fresh = unrefunded g w.clock held.timely (active_early g w.clock a.is_active a.in_time) in
      let both = locked-active g held.well_formed a.is_active fresh in
      let within = le-sum_of locked ctx.wager g w.wagers s.wager_at.found in
      let fits : g.stake * 2 ≤ u64_max = omega (arith, both, within, sound.booked, sound.bounded) in
      rw s.result (
        settled-IsSound rt addresses w sound ctx.wager ctx.counter_a ctx.counter_b
          ctx.rent_collector (saturating_mul u64_max g.stake 2) _ s.config g s.counter_a s.counter_b
          _ _ _ _ s.config_at s.wager_at s.counter_a_at s.counter_b_at
          (λ u o n ne b.
            cancelled_spares ctx g.stake w.tokens u o n (λ e. ne (e ∙ sym s.vault_at.address)) b)
          (ground (arith, both, fits)) (exposure-active g held.well_formed a.is_active fresh))

  -- `close_expired` keeps the system sound: a wager that everyone has left owes nothing.
  pub close_expired-IsSound :
      (ctx : CloseExpired) (w : World) {w' : World}
      → IsSound rt w
      → close_expired rt ctx w ≡ ok w'
      → IsSound rt w'
  close_expired-IsSound ctx w sound h =
      let s = close_expired-ok rt tokens ctx w h in
      let g = s.wager in
      let held = sound.custodied ctx.wager g s.wager_at.found in
      rw s.result (
        IsSound-remove rt addresses w (closed_world ctx g s.vault.amount w) sound ctx.wager g
          s.wager_at.found
          (record {
            same_clock = refl;
            same_mint = refl;
            bounded = sound.bounded;
            stays_configured = λ e. e;
            spared = λ u o n ne cannot b.
                let apart = λ (e : u ≡ ctx.vault). ne (e ∙ sym s.vault_at.address) in
                IsBacked-removed _ o ctx.vault u n apart
                  (swept_spares ctx g s.vault.amount w.tokens u o n apart b);
            canonical = sound.canonical;
          })
          refl (omega (arith, locked-exited g held.well_formed s.exited))
          (λ x. omega (arith, exposure-exited g held.well_formed s.exited x)))
