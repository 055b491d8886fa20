-- ===== src/Custody/Counters.antt =====
-- The wallets' counters under a write to one of them.
use shake_escrow.Base.{
  ◌≡◌, Option, some, ◌==◌, ==_iff, arith, sym, ◌∙◌, ap, Bool-cases, inl, inr, if◌then◌else◌,
}
use shake_escrow.Base.Dict.{update}
use shake_escrow.State.{Pubkey, ExposureCounter}
use shake_escrow.Runtime.{Runtime}
use shake_escrow.Runtime.Addresses.{counter_seeds}
use shake_escrow.Runtime.Laws.{AddressLaws}
use shake_escrow.World.{World}
use shake_escrow.World.Loads.{CounterAt}
use shake_escrow.Custody.{IsSound, IsCanonical, count_of}

-- The canonical address of a wallet's counter.
abbrev pub counter_address : Runtime → Pubkey → Pubkey
counter_address rt x = (rt.find_program_address (counter_seeds x)).0

module _ (rt : Runtime) (laws : AddressLaws rt) where
  pub counter_address-injective :
      (x y : Pubkey) → counter_address rt x ≡ counter_address rt y → x ≡ y
  counter_address-injective x y e =
      laws.counter_injective x y _ _ _ (laws.canonical_bump (counter_seeds x))
        (laws.canonical_bump (counter_seeds y) ∙ ap some (sym e))

  -- A counter that is found by its stored bump stands at the canonical address.
  pub CounterAt-canonical :
      (w : World)
      → IsSound rt w
      → (k x : Pubkey) (c : ExposureCounter) → CounterAt rt k x w c
      → k ≡ counter_address rt x
  CounterAt-canonical w sound k x c at =
      let home = sound.canonical k c at.found in
      let same : x ≡ home.wallet =
        laws.counter_injective x home.wallet _ _ k at.address
          (laws.canonical_bump (counter_seeds home.wallet) ∙ ap some (sym home.address)) in
      rw same home.address

  pub count_of-update :
      (counters : Pubkey → Option ExposureCounter) (x y : Pubkey) (c : ExposureCounter)
      → count_of (update counters (counter_address rt x) (some c) (counter_address rt y))
        ≡ (if x == y then c.count else count_of (counters (counter_address rt y)))
  count_of-update counters x y c = elim (Bool-cases (x == y)) [
    | inl same ↦ let e = (==_iff x y).0 same in rw e (ground arith)
    | inr other ↦ elim (Bool-cases (counter_address rt y == counter_address rt x)) [
      | inl clash ↦
          let e = counter_address-injective y x ((==_iff _ _).0 clash) in absurd (ground (arith, e))
      | inr apart ↦ rw (apart, other)
    ]
  ]

-- Writing at a wallet's canonical address keeps every counter at one.
pub update-IsCanonical :
    (rt : Runtime) (counters : Pubkey → Option ExposureCounter) (x : Pubkey) (c : ExposureCounter)
    → ((k : Pubkey) (d : ExposureCounter) → counters k ≡ some d → IsCanonical rt k d)
    → (k : Pubkey) (d : ExposureCounter)
    → update counters (counter_address rt x) (some c) k ≡ some d
    → IsCanonical rt k d
update-IsCanonical rt counters x c old k d at = elim (Bool-cases (k == counter_address rt x)) [
  | inl here ↦ record { wallet = x; address = (==_iff _ _).0 here }
  | inr other ↦ old k d (rw other at at)
]
