-- ===== src/Shadow/Cancelling.antt =====
-- `cancel_propose` and `cancel_clear` of the cancel trio of trident-tests/fuzz_0/test_fuzz.rs against
-- the program's.
use shake_escrow.Base.{
  ◌≡◌, ◌≢◌, Option, Option-cases, true, false, some, none, inl, inr, arith, refl,
}
use shake_escrow.Base.Dict.{lookup, insert, lookup-insert_ne, lookup-insert_self}
use shake_escrow.State.{Pubkey, default_key, Wager, is_participant}
use shake_escrow.Events.{Event}
use shake_escrow.Runtime.{Runtime}
use shake_escrow.World.{World, emit}
use shake_escrow.Instructions.Cancel.Effect.{MayPropose, Proposed, MayClear, Cleared}
use shake_escrow.Shadow.{is_some, MWager, Shadow}
use shake_escrow.Shadow.Flows.{put, flow_propose, flow_clear}
use shake_escrow.Shadow.Circulation.{IsDistinct, circulating-rewritten}
use shake_escrow.Shadow.Sending.{Fixture}
use shake_escrow.Shadow.Coupling.{IsConfigured-total, IsLive, live, Coupled, wager_of, Follows}
use shake_escrow.Shadow.Pots.{conceder_side}
use shake_escrow.Shadow.Frames.{Mirrors-insert, Follows-if}

module _ (rt : Runtime) (fx : Fixture) (w : World) (m : Shadow) (k : Pubkey) (g : MWager)
    (co : Coupled rt fx w m) (l : IsLive rt fx w k g) (distinct : IsDistinct fx.actors)
    (known : lookup k m.wagers ≡ some g) where
  abbrev old : Wager
  old = wager_of rt fx g l.nonce l.bump

  -- The world once the proposal alone has changed.
  abbrev reproposed : MWager → Event → World
  reproposed new event =
      emit event (record w { wagers = insert k (wager_of rt fx new l.nonce l.bump) w.wagers })

  reproposed-Coupled :
      (proposal : Option Pubkey) (event : Event)
      → ((p : Pubkey) → proposal ≡ some p → p ≢ default_key)
      → let new = record g { proposal = proposal } in
        Coupled rt fx (reproposed new event) (put k new m)
  reproposed-Coupled proposal event real = record {
    config = co.config;
    config_at = co.config_at;
    configured =
        IsConfigured-total rt fx co.config m _ _ refl (co.configured.total_open) co.configured;
    balances = co.balances;
    fee_balance = co.fee_balance;
    counters = co.counters;
    mirrors =
        Mirrors-insert rt fx w _ m k _ co
          (λ j no_key ne. (lookup-insert_ne j k _ w.wagers ne, refl))
          (live (record {
            is_open = l.is_open;
            nonce = l.nonce;
            bump = l.bump;
            found = lookup-insert_self k _ w.wagers;
            vaulted = l.vaulted;
            side_0_actor = l.side_0_actor;
            side_1_actor = l.side_1_actor;
            proposer_real = real;
          }));
  }

  -- A proposal by nobody is the default key, and no actor has that one.
  no_proposal : old.cancel_proposed_by ≡ default_key → is_some g.proposal ≡ false
  no_proposal by_nobody = elim (Option-cases g.proposal) [
    | inl e ↦ rw e refl
    | inr (p, e) ↦ absurd (l.proposer_real p e (rw e at by_nobody))
  ]

  pub a_proposal : old.cancel_proposed_by ≢ default_key → is_some g.proposal ≡ true
  a_proposal by_someone = ground arith

  side_real : (x : Pubkey) → is_participant old x ≡ true → x ≢ default_key
  side_real x member = ground (arith, l.side_0_actor.real, l.side_1_actor.real)

  proposed_real : (x : Pubkey) → x ≢ default_key → (p : Pubkey) → some x ≡ some p → p ≢ default_key
  proposed_real x real p e z = real (cc (e, z))

  module _ (x : Pubkey) (w' : World) where
    pub propose-Follows :
        Proposed rt (record { participant = x; wager = k }) w w'
        → Follows rt fx w' m (flow_propose k x w.clock m g)
    unfolding flow_propose
    propose-Follows s =
        let same : s.wager ≡ old = cc (s.wager_at.found, l.found) in
        let allowed : MayPropose x old w = rw same at s.allowed in
        let by_side = conceder_side rt fx g x l.nonce l.bump allowed.participant in
        rw (s.result, same)
          (Follows-if rt fx _ m _ _
            (ground (
              arith,
              l.is_open,
              allowed.is_active,
              allowed.in_time,
              by_side,
              no_proposal allowed.not_open,
            ))
            (reproposed-Coupled (some x) _ (proposed_real x (side_real x allowed.participant)))
            (circulating-rewritten fx distinct m k g _ known refl))

    pub clear-Follows :
        Cleared rt (record { participant = x; wager = k }) w w'
        → Follows rt fx w' m (flow_clear k x m g)
    unfolding flow_clear
    clear-Follows s =
        let same : s.wager ≡ old = cc (s.wager_at.found, l.found) in
        let allowed : MayClear x old = rw same at s.allowed in
        let by_side = conceder_side rt fx g x l.nonce l.bump allowed.participant in
        rw (s.result, same)
          (Follows-if rt fx _ m _ _ (ground (arith, l.is_open, by_side, a_proposal allowed.is_open))
            (reproposed-Coupled none _ (λ p e. cc))
            (circulating-rewritten fx distinct m k g _ known refl))
