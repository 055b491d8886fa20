-- ===== src/Shadow/Flows.antt =====
-- The flows of trident-tests/fuzz_0/test_fuzz.rs on the shadow model alone: what each expects of the
-- program, and what it writes when the program does it. `none` stands for a transaction that the
-- model expects to fail. Where the harness sends nothing for a closed wager, `none` stands too.
use shake_escrow.Base.{
  ℕ, ◌+◌, ◌-◌, ◌*◌, ◌/◌, ◌%◌, ◌^◌, Bool, true, false, not, ◌&&◌, ◌||◌, Option, none, some, ltb, leb,
  ◌==◌, if◌then◌else◌,
}
use shake_escrow.Base.Int.{ℤ, leb_ℤ, ltb_ℤ}
use shake_escrow.Base.Dict.{insert, update}
use shake_escrow.State.{Pubkey}
use shake_escrow.Shadow.{
  cap_per_wallet, global_cap, MState, is_funding, is_active, Side, side_0, side_1, MWager, side_of,
  is_some, funded, refunded, all_exited, Shadow,
}

-- `+=` and `-=` on one place of an array. The subtraction of ℕ stops at 0, where the harness's would
-- overflow.
abbrev pub raise : ℕ → Pubkey → (Pubkey → ℕ) → Pubkey → ℕ
raise n actor f = update f actor (f actor + n)

abbrev pub lower : ℕ → Pubkey → (Pubkey → ℕ) → Pubkey → ℕ
lower n actor f = update f actor (f actor - n)

abbrev pub put : Pubkey → MWager → Shadow → Shadow
put k g m = record m { wagers = insert k g m.wagers }

abbrev pub set_funded : Bool → Side → MWager → MWager
set_funded b side_0 g = record g { funded_0 = b }
set_funded b side_1 g = record g { funded_1 = b }

abbrev pub set_refunded : Side → MWager → MWager
set_refunded side_0 g = record g { refunded_0 = true }
set_refunded side_1 g = record g { refunded_1 = true }

-- `side.map(|s| test(s)).unwrap_or(false)`
abbrev pub holds_on : Option Side → (Side → Bool) → Bool
holds_on none test = false
holds_on (some s) test = test s

abbrev pub created : (sa sb : Pubkey) (stake fee_bps : ℕ) (d_fund d_resolve : ℤ) → MWager
created sa sb stake fee_bps d_fund d_resolve = record {
  sa = sa;
  sb = sb;
  stake = stake;
  fee_bps = fee_bps;
  d_fund = d_fund;
  d_resolve = d_resolve;
  state = MState.funding;
  funded_0 = false;
  funded_1 = false;
  refunded_0 = false;
  refunded_1 = false;
  proposal = none;
  closed = false;
}

-- Every create that the harness sends is valid, so the model expects it to succeed.
abbrev pub flow_create :
    Pubkey → (sa sb : Pubkey) (stake : ℕ) (d_fund d_resolve : ℤ) → Shadow → Option Shadow
flow_create k sa sb stake d_fund d_resolve m =
    some (put k (created sa sb stake m.fee_bps_current d_fund d_resolve) m)

abbrev pub may_stake : Shadow → MWager → Pubkey → ℤ → Bool
may_stake m g actor now =
    not g.closed
    && is_funding g.state
    && leb_ℤ now g.d_fund
    && holds_on (side_of g actor) (λ s. not (funded g s))
    && ltb (m.counters actor) cap_per_wallet
    && leb (m.total_open + g.stake) global_cap
    && leb g.stake (m.balances actor)

-- The second stake locks the wager.
abbrev pub lock_if_both : MWager → MWager
lock_if_both g = if g.funded_0 && g.funded_1 then record g { state = MState.active } else g

abbrev pub on_side : Option Side → (Side → MWager → MWager) → MWager → MWager
on_side none write g = g
on_side (some s) write g = write s g

unfoldable pub flow_stake : Pubkey → Pubkey → ℤ → Shadow → MWager → Option Shadow
flow_stake k actor now m g =
    if may_stake m g actor now
    then some (
        put k (lock_if_both (on_side (side_of g actor) (set_funded true) g)) (record m {
          balances = lower g.stake actor m.balances;
          counters = raise 1 actor m.counters;
          total_open = m.total_open + g.stake;
        }))
    else none

abbrev pub may_unstake : MWager → Pubkey → ℤ → Bool
may_unstake g actor now =
    not g.closed
    && is_funding g.state
    && leb_ℤ now g.d_fund
    && holds_on (side_of g actor) (funded g)

unfoldable pub flow_unstake : Pubkey → Pubkey → ℤ → Shadow → MWager → Option Shadow
flow_unstake k actor now m g =
    if may_unstake g actor now
    then some (
        put k (on_side (side_of g actor) (set_funded false) g) (record m {
          balances = raise g.stake actor m.balances;
          counters = lower 1 actor m.counters;
          total_open = m.total_open - g.stake;
        }))
    else none

-- `((pot as u128) * (fee_bps as u128) / 10_000) as u64`
abbrev pub fee_of : (pot fee_bps : ℕ) → ℕ
fee_of pot fee_bps = pot * fee_bps / 10000 % 2 ^ 64

-- The books of a resolution and of a concession.
abbrev pub settle : Pubkey → Pubkey → Shadow → MWager → Shadow
settle k winner m g =
    let pot = g.stake * 2 in
    let fee = fee_of pot g.fee_bps in
    put k (record g { closed = true })
      (record m {
        balances = raise (pot - fee) winner m.balances;
        fee_balance = m.fee_balance + fee;
        counters = lower 1 g.sb (lower 1 g.sa m.counters);
        total_open = m.total_open - pot;
      })

unfoldable pub flow_resolve : Pubkey → Pubkey → ℤ → Shadow → MWager → Option Shadow
flow_resolve k winner now m g =
    if not g.closed
      && is_active g.state
      && leb_ℤ now g.d_resolve
      && (winner == g.sa || winner == g.sb)
    then some (settle k winner m g)
    else none

-- Whom the harness names as the winner: the other side, or the conceder.
abbrev pub named_winner : MWager → Pubkey → Bool → Pubkey
named_winner g actor true = actor
named_winner g actor false = elim (side_of g actor) [
  | none ↦ actor
  | some s ↦ elim s [ side_0 ↦ g.sb | side_1 ↦ g.sa ]
]

unfoldable pub flow_concede : Pubkey → Pubkey → Bool → ℤ → Shadow → MWager → Option Shadow
flow_concede k actor names_self now m g =
    if not g.closed
      && is_active g.state
      && leb_ℤ now g.d_resolve
      && is_some (side_of g actor)
      && not names_self
    then some (settle k (named_winner g actor names_self) m g)
    else none

-- The `match w.state` of the refund and of the close.
abbrev pub due : MWager → ℤ → Bool
due g now = elim g.state [
  | MState.funding ↦ ltb_ℤ g.d_fund now
  | MState.active ↦ ltb_ℤ g.d_resolve now
]

abbrev pub actor_of : MWager → Side → Pubkey
actor_of g side_0 = g.sa
actor_of g side_1 = g.sb

unfoldable pub flow_refund : Pubkey → Side → ℤ → Shadow → MWager → Option Shadow
flow_refund k s now m g =
    if not g.closed && due g now && funded g s && not (refunded g s)
    then some (
        put k (set_refunded s g) (record m {
          balances = raise g.stake (actor_of g s) m.balances;
          counters = lower 1 (actor_of g s) m.counters;
          total_open = m.total_open - g.stake;
        }))
    else none

unfoldable pub flow_close : Pubkey → ℤ → Shadow → MWager → Option Shadow
flow_close k now m g =
    if not g.closed && due g now && all_exited g
    then some (put k (record g { closed = true }) m)
    else none

-- The three steps of the cancel trio.
unfoldable pub flow_propose : Pubkey → Pubkey → ℤ → Shadow → MWager → Option Shadow
flow_propose k actor now m g =
    if not g.closed
      && is_active g.state
      && leb_ℤ now g.d_resolve
      && is_some (side_of g actor)
      && not (is_some g.proposal)
    then some (put k (record g { proposal = some actor }) m)
    else none

unfoldable pub flow_clear : Pubkey → Pubkey → Shadow → MWager → Option Shadow
flow_clear k actor m g =
    if not g.closed && is_some g.proposal && is_some (side_of g actor)
    then some (put k (record g { proposal = none }) m)
    else none

abbrev pub proposed_by : MWager → Pubkey → Bool
proposed_by g actor = elim g.proposal [ none ↦ false | some p ↦ p == actor ]

unfoldable pub flow_accept : Pubkey → Pubkey → ℤ → Shadow → MWager → Option Shadow
flow_accept k actor now m g =
    if not g.closed
      && is_active g.state
      && leb_ℤ now g.d_resolve
      && is_some (side_of g actor)
      && is_some g.proposal
      && not (proposed_by g actor)
    then some (
        put k (record g { closed = true })
          (record m {
            balances = raise g.stake g.sb (raise g.stake g.sa m.balances);
            counters = lower 1 g.sb (lower 1 g.sa m.counters);
            total_open = m.total_open - g.stake * 2;
          }))
    else none

abbrev pub flow_update_fee : ℕ → Shadow → Option Shadow
flow_update_fee new_fee m = some (record m { fee_bps_current = new_fee })
