-- ===== src/Flight.antt =====
-- src/flight.rs: the coordinator that lets one request per session refresh while others wait for its
-- outcome. Each operation runs under the registry's lock, so it is one step. A flight behind an `Arc` is
-- known by its place in a store of flights; a `HashMap` and a `HashSet` are a function and a list.
pub mod System
pub mod SingleFlight
pub mod Steps
pub mod Outcomes
use auth_mini_gateway.Prelude.{
  ℕ, suc, ◌+◌, ◌%◌, ◌^◌, Bool, true, false, ◌||◌, Option, none, some, List, [], ◌∷◌, ◌==◌,
  if◌then◌else◌,
}
use auth_mini_gateway.Prelude.Text.{Str, str_eq}
use auth_mini_gateway.AuthTypes.{
  RefreshRejected, TemporaryClass, IndeterminateClass, leader_aborted,
}
use auth_mini_gateway.Db.{ObservedVersion, same_version}

pub data RejectedReason : Type 0 where
  remote : RefreshRejected → RejectedReason
  audience_rejected local_inactive : RejectedReason

pub data FlightOutcome : Type 0 where
  ready : ℕ → FlightOutcome
  rejected : RejectedReason → FlightOutcome
  temporary : TemporaryClass → FlightOutcome
  indeterminate : IndeterminateClass → FlightOutcome

pub record Flight : Type 0 where
  pub label : ℕ
  pub accepted_versions : List ObservedVersion
  pub outcome : Option FlightOutcome
  pub registered_joiners : ℕ

pub record FlightCoordinator : Type 0 where
  pub registry : Str → Option ℕ
  pub next_id : ℕ
  -- the flights that were allocated, and how many
  pub flights : ℕ → Flight
  pub allocated : ℕ

pub record FlightLeader : Type 0 where
  pub session_id : Str
  pub flight : ℕ
  pub completed : Bool

pub data Acquire : Type 0 where
  leader : FlightLeader → Acquire
  joined wait_for_close : ℕ → Acquire

abbrev pub put : (Str → Option ℕ) → Str → Option ℕ → Str → Option ℕ
put registry key value s = if str_eq key s then value else registry s

abbrev pub set_flight : (ℕ → Flight) → ℕ → Flight → ℕ → Flight
set_flight flights f flight g = if f == g then flight else flights g

unfoldable pub accepts : List ObservedVersion → ObservedVersion → Bool
accepts [] v = false
accepts (w ∷ ws) v = same_version w v || accepts ws v

-- The empty coordinator.
pub blank : Flight
blank = record { label = 0; accepted_versions = []; outcome = none; registered_joiners = 0 }

unfoldable pub new_coordinator : FlightCoordinator
unfolding blank
new_coordinator = record { registry = λ s. none; next_id = 0; flights = λ f. blank; allocated = 0 }

-- The flight that a first request opens.
unfoldable pub open_flight : FlightCoordinator → Str → ObservedVersion → Acquire × FlightCoordinator
open_flight c session_id observed = (
  leader (record { session_id = session_id; flight = c.allocated; completed = false }),
  record {
    registry = put c.registry session_id (some c.allocated);
    next_id = (c.next_id + 1) % 2 ^ 64;
    flights = set_flight c.flights c.allocated (record {
      label = c.next_id;
      accepted_versions = observed ∷ [];
      outcome = none;
      registered_joiners = 0;
    });
    allocated = suc c.allocated;
  },
)

unfoldable pub join_open : FlightCoordinator → ObservedVersion → ℕ → Acquire × FlightCoordinator
join_open c observed f =
    if accepts (c.flights f).accepted_versions observed
    then (
      joined f,
      record c {
        flights =
            set_flight c.flights f
              (record (c.flights f) { registered_joiners = (c.flights f).registered_joiners + 1 });
      },
    )
    else (wait_for_close f, c)

unfoldable pub join_flight :
    FlightCoordinator
    → Str
    → ObservedVersion
    → ℕ
    → Option FlightOutcome
    → Acquire × FlightCoordinator
join_flight c session_id observed f (some outcome) =
    open_flight (record c { registry = put c.registry session_id none }) session_id observed
join_flight c session_id observed f none = join_open c observed f

unfoldable pub acquire_at :
    FlightCoordinator → Str → ObservedVersion → Option ℕ → Acquire × FlightCoordinator
acquire_at c session_id observed none = open_flight c session_id observed
acquire_at c session_id observed (some f) =
    join_flight c session_id observed f (c.flights f).outcome

unfoldable pub acquire : FlightCoordinator → Str → ObservedVersion → Acquire × FlightCoordinator
unfolding acquire_at join_flight
acquire c session_id observed = acquire_at c session_id observed (c.registry session_id)

-- if state.outcome.is_none() { state.outcome = Some(outcome) }
abbrev pub publish : Flight → FlightOutcome → Flight
publish flight outcome = elim flight.outcome [
  | none ↦ record flight { outcome = some outcome }
  | some _ ↦ flight
]

abbrev pub published : Flight → FlightOutcome → FlightOutcome
published flight outcome = elim flight.outcome [ none ↦ outcome | some shared ↦ shared ]

is_current : Option ℕ → ℕ → Bool
is_current none f = false
is_current (some g) f = g == f

-- FlightCoordinator::complete returns the outcome that is shared.
unfoldable pub complete :
    FlightCoordinator → Str → ℕ → FlightOutcome → FlightOutcome × FlightCoordinator
unfolding is_current
complete c session_id f outcome = (
  published (c.flights f) outcome,
  record c {
    flights = set_flight c.flights f (publish (c.flights f) outcome);
    registry =
        if is_current (c.registry session_id) f then put c.registry session_id none else c.registry;
  },
)

unfoldable pub alias_on :
    FlightCoordinator → ℕ → ObservedVersion → Option FlightOutcome → FlightCoordinator
alias_on c f observed (some outcome) = c
alias_on c f observed none = record c {
  flights =
      set_flight c.flights f
        (record (c.flights f) { accepted_versions = observed ∷ (c.flights f).accepted_versions });
}

-- FlightLeader::add_alias
unfoldable pub add_alias : FlightCoordinator → FlightLeader → ObservedVersion → FlightCoordinator
unfolding alias_on
add_alias c l observed = alias_on c l.flight observed (c.flights l.flight).outcome

-- FlightLeader::complete; the leader is consumed with its flag set, so that its drop does nothing.
unfoldable pub complete_leader :
    FlightCoordinator → FlightLeader → FlightOutcome → FlightOutcome × FlightCoordinator
unfolding complete
complete_leader c l outcome = complete c l.session_id l.flight outcome

-- Drop for FlightLeader
unfoldable pub drop_leader : FlightCoordinator → FlightLeader → FlightCoordinator
unfolding complete
drop_leader c l =
    if l.completed then c else (complete c l.session_id l.flight (indeterminate leader_aborted)).1
