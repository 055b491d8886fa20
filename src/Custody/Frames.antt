-- ===== src/Custody/Frames.antt =====
-- What a step that touches one wager has to show for the whole system to stay sound.
use shake_escrow.Base.{
  ℕ, ◌+◌, ◌≤◌, ◌≡◌, ◌≢◌, none, some, arith, refl, sym, inl, inr, subst, ◌∙◌, ◌⊎◌, false,
}
use shake_escrow.Base.Dict.{
  lookup, insert, erase, insert-IsKeyed, erase-IsKeyed, lookup-insert_cases, lookup-erase_cases,
  lookup-nil,
}
use shake_escrow.Base.Words.{u64_max}
use shake_escrow.State.{Pubkey, Wager, ExposureCounter}
use shake_escrow.Runtime.{Runtime}
use shake_escrow.Runtime.Laws.{AddressLaws}
use shake_escrow.World.{World}
use shake_escrow.Custody.{
  IsSound, IsCustodied, IsTimely, IsBacked, IsCanonical, locked, exposure, total_of, mint_of,
  count_at, sum_of-insert, sum_of-insert_new, sum_of-erase,
}

-- A step that may take from the token account at `v` and from those of wallets, and leaves clock and mint as they are.
pub record Frame (rt : Runtime) (v : Pubkey) (w w' : World) : Type 0 where
  pub same_clock : w'.clock ≡ w.clock
  pub same_mint : mint_of w'.config ≡ mint_of w.config
  pub bounded : total_of w'.config ≤ u64_max
  pub stays_configured : w'.config ≡ none → w.config ≡ none
  pub spared :
      (u o : Pubkey) (n : ℕ)
      → u ≢ v
      → rt.can_sign o ≡ false
      → IsBacked w.tokens u o n
      → IsBacked w'.tokens u o n
  pub canonical : (k : Pubkey) (c : ExposureCounter) → w'.counters k ≡ some c → IsCanonical rt k c

module _ (rt : Runtime) (laws : AddressLaws rt) (w w' : World) (sound : IsSound rt w) where
  -- A wager other than the one at `k` is custodied as before.
  IsCustodied-other :
      (k j : Pubkey) (mint : Pubkey) (h : Wager)
      → Frame rt (rt.associated_address mint k) w w'
      → mint ≡ mint_of w.config
      → j ≢ k
      → lookup j w.wagers ≡ some h
      → IsCustodied rt w'.tokens w'.clock j h
  IsCustodied-other k j mint h frame minted ne found =
      let old = sound.custodied j h found in
      record {
        address = old.address;
        well_formed = old.well_formed;
        timely = rw frame.same_clock old.timely;
        backed =
            frame.spared _ _ _
              (λ e. ne (
                laws.associated_injective mint j k (
                  subst (λ m. rt.associated_address m j ≡ rt.associated_address mint k)
                    (sound.minted j h found ∙ sym minted) e)))
              (laws.off_curve _ _ _ old.address) old.backed;
      }

  -- One wager is replaced by another.
  pub IsSound-replace :
      (k : Pubkey) (g g' : Wager)
      → lookup k w.wagers ≡ some g
      → Frame rt (rt.associated_address g.mint k) w w'
      → w'.wagers ≡ insert k g' w.wagers
      → g'.mint ≡ g.mint
      → IsCustodied rt w'.tokens w'.clock k g'
      → total_of w'.config + locked g ≡ total_of w.config + locked g'
      → ((x : Pubkey) → count_at rt w' x + exposure x g ≡ count_at rt w x + exposure x g')
      → IsSound rt w'
  IsSound-replace k g g' found frame written mint_kept held totals counts = record {
    keyed = rw written (insert-IsKeyed k g' w.wagers sound.keyed);
    unconfigured =
        λ e. absurd (lookup-nil k w.wagers (sound.unconfigured (frame.stays_configured e)) found);
    minted = λ j h at. elim (lookup-insert_cases j k g' w.wagers (rw written at at)) [
      | inl (here, new) ↦ rw (new, mint_kept, frame.same_mint) (sound.minted k g found)
      | inr (ne, old) ↦ rw frame.same_mint (sound.minted j h old)
    ];
    custodied = λ j h at. elim (lookup-insert_cases j k g' w.wagers (rw written at at)) [
      | inl (here, new) ↦ rw (here, new) held
      | inr (ne, old) ↦ IsCustodied-other k j g.mint h frame (sound.minted k g found) ne old
    ];
    canonical = frame.canonical;
    bounded = frame.bounded;
    booked =
        rw written
          (omega (arith, totals, sound.booked, sum_of-insert locked k g g' w.wagers found));
    counted = λ x. rw written (
        omega (arith, counts x, sound.counted x, sum_of-insert (exposure x) k g g' w.wagers found));
  }

  -- One wager is gone.
  pub IsSound-remove :
      (k : Pubkey) (g : Wager)
      → lookup k w.wagers ≡ some g
      → Frame rt (rt.associated_address g.mint k) w w'
      → w'.wagers ≡ erase k w.wagers
      → total_of w'.config + locked g ≡ total_of w.config
      → ((x : Pubkey) → count_at rt w' x + exposure x g ≡ count_at rt w x)
      → IsSound rt w'
  IsSound-remove k g found frame written totals counts = record {
    keyed = rw written (erase-IsKeyed k w.wagers sound.keyed);
    unconfigured =
        λ e. absurd (lookup-nil k w.wagers (sound.unconfigured (frame.stays_configured e)) found);
    minted = λ j h at.
        let (ne, old) = lookup-erase_cases j k w.wagers sound.keyed (rw written at at) in
        rw frame.same_mint (sound.minted j h old);
    custodied = λ j h at.
        let (ne, old) = lookup-erase_cases j k w.wagers sound.keyed (rw written at at) in
        IsCustodied-other k j g.mint h frame (sound.minted k g found) ne old;
    canonical = frame.canonical;
    bounded = frame.bounded;
    booked =
        rw written (omega (arith, totals, sound.booked, sum_of-erase locked k g w.wagers found));
    counted = λ x.
        rw written
          (omega (arith, counts x, sound.counted x, sum_of-erase (exposure x) k g w.wagers found));
  }

  -- A wager is new.
  pub IsSound-add :
      (k : Pubkey) (g : Wager)
      → lookup k w.wagers ≡ none
      → Frame rt (rt.associated_address g.mint k) w w'
      → w.config ≢ none
      → w'.wagers ≡ insert k g w.wagers
      → g.mint ≡ mint_of w.config
      → IsCustodied rt w'.tokens w'.clock k g
      → total_of w'.config ≡ total_of w.config + locked g
      → ((x : Pubkey) → count_at rt w' x ≡ count_at rt w x + exposure x g)
      → IsSound rt w'
  IsSound-add k g free frame configured written mint_kept held totals counts = record {
    keyed = rw written (insert-IsKeyed k g w.wagers sound.keyed);
    unconfigured = λ e. absurd (configured (frame.stays_configured e));
    minted = λ j h at. elim (lookup-insert_cases j k g w.wagers (rw written at at)) [
      | inl (here, new) ↦ rw (new, mint_kept, frame.same_mint) refl
      | inr (ne, old) ↦ rw frame.same_mint (sound.minted j h old)
    ];
    custodied = λ j h at. elim (lookup-insert_cases j k g w.wagers (rw written at at)) [
      | inl (here, new) ↦ rw (here, new) held
      | inr (ne, old) ↦ IsCustodied-other k j g.mint h frame mint_kept ne old
    ];
    canonical = frame.canonical;
    bounded = frame.bounded;
    booked =
        rw written
          (omega (arith, totals, sound.booked, sum_of-insert_new locked k g w.wagers free));
    counted = λ x. rw written (
        omega (arith, counts x, sound.counted x, sum_of-insert_new (exposure x) k g w.wagers free));
  }

-- A step that touches no wager and takes from no token account that backs one.
pub IsSound-keep :
    (rt : Runtime) (w w' : World)
    → IsSound rt w
    → (w'.config ≡ none → w.config ≡ none)
    → ((w.config ≡ none) ⊎ (mint_of w'.config ≡ mint_of w.config))
    → total_of w'.config ≡ total_of w.config
    → w'.wagers ≡ w.wagers
    → ((u o : Pubkey) (n : ℕ)
        → rt.can_sign o ≡ false
        → IsBacked w.tokens u o n
        → IsBacked w'.tokens u o n)
    → ((k : Pubkey) (g : Wager) → IsTimely w.clock g → IsTimely w'.clock g)
    → ((k : Pubkey) → w'.counters k ≡ w.counters k)
    → AddressLaws rt
    → IsSound rt w'
IsSound-keep rt w w' sound stays mints totals wagers spared timely counters laws = record {
  keyed = rw wagers sound.keyed;
  unconfigured = λ e. rw wagers (sound.unconfigured (stays e));
  minted = λ j h at.
      let old : lookup j w.wagers ≡ some h = rw wagers at at in
      elim mints [
        | inl fresh ↦ absurd (lookup-nil j w.wagers (sound.unconfigured fresh) old)
        | inr same ↦ rw same (sound.minted j h old)
      ];
  custodied = λ j h at.
      let held = sound.custodied j h (rw wagers at at) in
      record {
        address = held.address;
        well_formed = held.well_formed;
        timely = timely j h held.timely;
        backed = spared _ _ _ (laws.off_curve _ _ _ held.address) held.backed;
      };
  canonical = λ k c at. sound.canonical k c (sym (counters k) ∙ at);
  bounded = rw totals sound.bounded;
  booked = rw (totals, wagers) sound.booked;
  counted = λ x. rw (counters _, wagers) (sound.counted x);
}
