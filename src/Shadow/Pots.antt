-- ===== src/Shadow/Pots.antt =====
-- A locked wager's pot, and a wager's account that goes: what the settlements and the agreed
-- cancellation of trident-tests/fuzz_0/test_fuzz.rs share.
use shake_escrow.Base.{ℕ, ◌+◌, ◌≡◌, ◌≢◌, true, some, none, arith, ◌∙◌}
use shake_escrow.Base.Int.{leb_ℤ}
use shake_escrow.Base.Dict.{
  Dict, IsKeyed, lookup, insert, erase, update, lookup-insert_ne, lookup-erase_ne, erase-insert,
  lookup-erase_self,
}
use shake_escrow.State.{Pubkey, Wager, ExposureCounter, active, is_participant}
use shake_escrow.Runtime.{Runtime}
use shake_escrow.Runtime.Laws.{AddressLaws, balance}
use shake_escrow.World.{World}
use shake_escrow.Custody.{IsSound, locked, count_of}
use shake_escrow.Custody.Counters.{count_of-update}
use shake_escrow.Custody.Sides.{unrefunded, active_early, locked-active}
use shake_escrow.Instructions.UnstakeSide.{release}
use shake_escrow.Shadow.{is_some, MWager, Shadow, side_of, vault_expected}
use shake_escrow.Shadow.Flows.{lower}
use shake_escrow.Shadow.Sending.{Fixture, ata, counter_pda}
use shake_escrow.Shadow.Coupling.{IsLive, Coupled, wager_of}

pub vault_expected-locked :
    (rt : Runtime) (fx : Fixture) (g : MWager) (nonce bump : ℕ)
    → vault_expected g ≡ locked (wager_of rt fx g nonce bump)
vault_expected-locked rt fx g nonce bump = ground arith

-- A wager whose account is written once more and closed.
pub lookup-erased_ne :
    (j k : Pubkey) (final : Wager) (d : Dict Wager)
    → j ≢ k
    → lookup j (erase k (insert k final d)) ≡ lookup j d
lookup-erased_ne j k final d ne =
    lookup-erase_ne j k (insert k final d) ne ∙ lookup-insert_ne j k final d ne

pub lookup-erased :
    (k : Pubkey) (final : Wager) (d : Dict Wager)
    → IsKeyed d
    → lookup k (erase k (insert k final d)) ≡ none
lookup-erased k final d keyed = rw (erase-insert k final d) (lookup-erase_self k d keyed)

-- Both sides' counters fall.
pub counters-settle :
    (rt : Runtime) (fx : Fixture)
    → AddressLaws rt
    → (w : World) (m : Shadow) (a b : Pubkey) (ka kb : ExposureCounter) → Coupled rt fx w m
    → a ≢ b
    → ka.count ≡ m.counters a
    → kb.count ≡ m.counters b
    → (y : Pubkey)
    → count_of (
        update
          (update w.counters (counter_pda rt fx a) (some (release ka)))
          (counter_pda rt fx b)
          (some (release kb))
          (counter_pda rt fx y))
      ≡ lower 1 b (lower 1 a m.counters) y
counters-settle rt fx laws w m a b ka kb co apart count_a count_b y =
    count_of-update rt laws (update w.counters (counter_pda rt fx a) (some (release ka))) b y _
    ∙ ground (arith, count_of-update rt laws w.counters a y (release ka), co.counters y)

module _ (rt : Runtime) (fx : Fixture) where
  pub conceder_side :
      (g : MWager) (actor : Pubkey) (nonce bump : ℕ)
      → is_participant (wager_of rt fx g nonce bump) actor ≡ true
      → is_some (side_of g actor) ≡ true
  conceder_side g actor nonce bump conceder = ground arith

  -- Before its deadline the vault of a locked wager holds both stakes.
  pub pot-full :
      (w : World) (k : Pubkey) (g : MWager)
      → IsSound rt w
      → (l : IsLive rt fx w k g) → (wager_of rt fx g l.nonce l.bump).state ≡ active
      → leb_ℤ w.clock g.d_resolve ≡ true
      → balance w.tokens (ata rt fx k) ≡ g.stake + g.stake
  pot-full w k g sound l is_locked in_time =
      let old = wager_of rt fx g l.nonce l.bump in
      let custody = sound.custodied k old l.found in
      l.vaulted
      ∙ (vault_expected-locked rt fx g l.nonce l.bump
          ∙ locked-active old custody.well_formed is_locked
              (unrefunded old w.clock custody.timely (active_early old w.clock is_locked in_time)))
