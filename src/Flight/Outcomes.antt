-- ===== src/Flight/Outcomes.antt =====
-- src/flight.rs: what the requests that join a flight receive.
use auth_mini_gateway.Prelude.{
  ℕ, ◌<◌, ◌+◌, ◌≡◌, refl, true, false, none, some, List, [], ◌∷◌, arith, inl, inr, Bool-cases,
  Option-cases, ◌==◌, ◌∙◌, ==_refl,
}
use auth_mini_gateway.Prelude.Text.{Str, str_eq_refl}
use auth_mini_gateway.Db.{ObservedVersion}
use auth_mini_gateway.Flight.{
  FlightCoordinator, FlightLeader, FlightOutcome, Flight, Acquire, leader, joined, wait_for_close,
  acquire, join_open, open_flight, accepts, add_alias, complete, complete_leader, drop_leader, put,
  set_flight, publish, indeterminate, is_current,
}
use auth_mini_gateway.AuthTypes.{leader_aborted}
use auth_mini_gateway.Flight.System.{
  System, Event, acquires, aliases, completes, drops, take_at, acquired, alias_at, complete_at,
  drop_at, step, run,
}
use auth_mini_gateway.Flight.SingleFlight.{IsFlying, Inv}
use auth_mini_gateway.Flight.Steps.{take-All}

-- The flight was allocated, and its outcome was published.
abbrev pub IsPublished : ℕ → FlightOutcome → FlightCoordinator → Type 0
IsPublished f o c = (f < c.allocated) × ((c.flights f).outcome ≡ some o)

set_flight-outcome :
    (c : FlightCoordinator) (f g : ℕ) (flight : Flight) {o : FlightOutcome}
    → ((c.flights f).outcome ≡ some o)
    → ((c.flights g).outcome ≡ (c.flights f).outcome → flight.outcome ≡ some o)
    → (set_flight c.flights g flight f).outcome ≡ some o
set_flight-outcome c f g flight h k = elim (Bool-cases (g == f)) [
  | inl t ↦ let e : g ≡ f = ground arith in rw t (k (ap_outcome e))
  | inr n ↦ rw n h
]
  where
    ap_outcome : g ≡ f → (c.flights g).outcome ≡ (c.flights f).outcome
    ap_outcome e = rw e

open-IsPublished :
    (c : FlightCoordinator) (s : Str) (v : ObservedVersion) (f : ℕ) (o : FlightOutcome)
    → IsPublished f o c
    → IsPublished f o (open_flight c s v).1
unfolding open_flight
open-IsPublished c s v f o (below, h) =
    let other : (c.allocated == f) ≡ false = ground arith in (omega arith, rw other h)

acquire-IsPublished :
    (y : System) (s : Str) (v : ObservedVersion) (f : ℕ) (o : FlightOutcome)
    → IsPublished f o y.coordinator
    → IsPublished f o (acquired y.leaders (acquire y.coordinator s v)).coordinator
unfolding acquire acquired open_flight
acquire-IsPublished y s v f o h = elim (Option-cases (y.coordinator.registry s)) [
  | inl e ↦ rw e (open-IsPublished y.coordinator s v f o h)
  | inr (g, e) ↦ rw e (elim (Option-cases (y.coordinator.flights g).outcome) [
    | inr (o', q) ↦ rw q (
        open-IsPublished (record y.coordinator { registry = put y.coordinator.registry s none }) s v
          f o h)
    | inl q ↦ rw q (join g h)
  ])
]
  where
    join :
        (g : ℕ)
        → IsPublished f o y.coordinator
        → IsPublished f o (acquired y.leaders (join_open y.coordinator v g)).coordinator
    join g (below, h) =
        unfold join_open in
        elim (Bool-cases (accepts (y.coordinator.flights g).accepted_versions v)) [
          | inl t ↦ rw t (below, set_flight-outcome y.coordinator f g _ h (λ q. q ∙ h))
          | inr n ↦ rw n (below, h)
        ]

complete-IsPublished :
    (c : FlightCoordinator) (s : Str) (g : ℕ) (o' : FlightOutcome) (f : ℕ) (o : FlightOutcome)
    → IsPublished f o c
    → IsPublished f o (complete c s g o').1
unfolding complete
complete-IsPublished c s g o' f o (below, h) = (
  below,
  set_flight-outcome c f g (publish (c.flights g) o') h
      (λ q. let e : (c.flights g).outcome ≡ some o = q ∙ h in rw e),
)

step-IsPublished :
    (y : System) (x : Event) (f : ℕ) (o : FlightOutcome)
    → IsPublished f o y.coordinator
    → IsPublished f o (step y x).coordinator
unfolding step alias_at complete_at drop_at add_alias complete_leader drop_leader
step-IsPublished y (acquires s v) f o h = acquire-IsPublished y s v f o h
step-IsPublished y (aliases n v) f o h = elim (Option-cases (take_at n y.leaders)) [
  | inl e ↦ rw e h
  | inr ((l, rest), e) ↦ rw e (elim (Option-cases (y.coordinator.flights l.flight).outcome) [
    | inl q ↦ rw q (h.0, set_flight-outcome y.coordinator f l.flight _ h.1 (λ r. r ∙ h.1))
    | inr (o', q) ↦ rw q h
  ])
]
step-IsPublished y (completes n o') f o h = elim (Option-cases (take_at n y.leaders)) [
  | inl e ↦ rw e h
  | inr ((l, rest), e) ↦ rw e (complete-IsPublished y.coordinator l.session_id l.flight o' f o h)
]
step-IsPublished y (drops n) f o h = elim (Option-cases (take_at n y.leaders)) [
  | inl e ↦ rw e h
  | inr ((l, rest), e) ↦ rw e (elim (Bool-cases l.completed) [
    | inl t ↦ rw t h
    | inr q ↦ rw q (
        complete-IsPublished y.coordinator l.session_id l.flight (indeterminate leader_aborted) f o
          h)
  ])
]

-- An outcome that was published is final: whatever requests follow, every waiter of the flight reads
-- that outcome, also one that wakes late.
pub run-IsPublished :
    (y : System) (xs : List Event) (f : ℕ) (o : FlightOutcome)
    → IsPublished f o y.coordinator
    → IsPublished f o (run y xs).coordinator
unfolding run
run-IsPublished y [] f o h = h
run-IsPublished y (x ∷ xs) f o h = run-IsPublished (step y x) xs f o (step-IsPublished y x f o h)

closed :
    (c : FlightCoordinator) (l : FlightLeader) (o : FlightOutcome)
    → IsFlying c l
    → ((complete c l.session_id l.flight o).0 ≡ o)
      × IsPublished l.flight o (complete c l.session_id l.flight o).1
      × ((complete c l.session_id l.flight o).1.registry l.session_id ≡ none)
unfolding complete is_current
closed c l o p =
    rw (p.is_open, p.registered, ==_refl l.flight, str_eq_refl l.session_id)
      (refl, (p.known, refl), refl)

-- In every state that the requests reach, a leader that completes publishes exactly its outcome, one that
-- is dropped without completing publishes the outcome of an aborted leader, and in both cases the session
-- is free again, so that the next request leads.
pub leader_finishes :
    (y : System) (n : ℕ) (o : FlightOutcome) {l : FlightLeader} {rest : List FlightLeader}
    → Inv y
    → take_at n y.leaders ≡ some (l, rest)
    → (IsPublished l.flight o (step y (completes n o)).coordinator
        × ((step y (completes n o)).coordinator.registry l.session_id ≡ none))
      × (IsPublished l.flight (indeterminate leader_aborted) (step y (drops n)).coordinator
          × ((step y (drops n)).coordinator.registry l.session_id ≡ none))
unfolding step complete_at drop_at complete_leader drop_leader
leader_finishes y n o {l} {rest} i e =
    let mine = (take-All (IsFlying y.coordinator) n y.leaders e i.flying).0 in
    let (_, done, free) = closed y.coordinator l o mine in
    let (_, aborted, free') = closed y.coordinator l (indeterminate leader_aborted) mine in
    (rw e (done, free), rw e (rw mine.pending (aborted, free')))

-- What a request is told, and what it finds and leaves.
abbrev pub AcquireCase :
    FlightCoordinator → Str → ObservedVersion → Acquire × FlightCoordinator → Type 0
AcquireCase c s v (leader l, c') =
    (c.registry s ≡ none)
    × (l.session_id ≡ s)
    × (c'.registry s ≡ some l.flight)
    × ((c'.flights l.flight).accepted_versions ≡ v ∷ [])
AcquireCase c s v (joined f, c') =
    (c.registry s ≡ some f)
    × (accepts (c.flights f).accepted_versions v ≡ true)
    × ((c'.flights f).registered_joiners ≡ (c.flights f).registered_joiners + 1)
AcquireCase c s v (wait_for_close f, c') =
    (c.registry s ≡ some f) × (accepts (c.flights f).accepted_versions v ≡ false) × (c' ≡ c)

-- A request leads exactly if its session has no registered flight, and the new flight accepts the
-- version that it observed. It joins, and is counted, if the registered flight accepts that version, and
-- it waits for the flight to close, with nothing changed, if it does not. The registered flights are
-- open, as in every state that the requests reach.
pub acquire_cases :
    (c : FlightCoordinator) (s : Str) (v : ObservedVersion)
    → ((t : Str) (f : ℕ) → c.registry t ≡ some f → (c.flights f).outcome ≡ none)
    → AcquireCase c s v (acquire c s v)
unfolding acquire
acquire_cases c s v opened = elim (Option-cases (c.registry s)) [
  | inl e ↦ rw e (opening e)
  | inr (f, e) ↦ rw e (rw (opened s f e) (joining f e))
]
  where
    opening : c.registry s ≡ none → AcquireCase c s v (open_flight c s v)
    opening e = unfold open_flight in (e, refl, rw (str_eq_refl s), rw (==_refl c.allocated))

    joining : (f : ℕ) → c.registry s ≡ some f → AcquireCase c s v (join_open c v f)
    joining f e =
        unfold join_open in
        elim (Bool-cases (accepts (c.flights f).accepted_versions v)) [
          | inl t ↦ rw t (e, t, rw (==_refl f))
          | inr n ↦ rw n (e, n, refl)
        ]
