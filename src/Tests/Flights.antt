-- ===== src/Tests/Flights.antt =====
-- Runs of the flight coordinator.
use auth_mini_gateway.Prelude.{ℕ, ◌≡◌, refl, false, some, none, [], ◌∷◌, arith}
use auth_mini_gateway.Prelude.Text.{Str, codes}
use auth_mini_gateway.Db.{ObservedVersion, ready}
use auth_mini_gateway.AuthTypes.{leader_aborted, timeout}
use auth_mini_gateway.Flight.{
  FlightOutcome, temporary, indeterminate, FlightLeader, acquire, open_flight, new_coordinator,
  Acquire,
}
use auth_mini_gateway.Flight
use auth_mini_gateway.Flight.System.{
  acquires, completes, drops, start, run, step, take_at, acquired,
}
use auth_mini_gateway.Flight.SingleFlight.{Inv}
use auth_mini_gateway.Flight.Steps.{single_flight}
use auth_mini_gateway.Flight.Outcomes.{IsPublished, run-IsPublished, leader_finishes}

abbrev version : ObservedVersion
version = record { generation = 0; identity_state = ready }

abbrev sid : Str
sid = codes "s1"

abbrev outcome : FlightOutcome
outcome = temporary timeout

single_flight_example : Inv (run start (acquires sid version ∷ acquires sid version ∷ drops 0 ∷ []))
single_flight_example = single_flight (acquires sid version ∷ acquires sid version ∷ drops 0 ∷ [])

flown :
    IsPublished 0 outcome (run start (acquires sid version ∷ completes 0 outcome ∷ [])).coordinator
unfolding run step acquired acquire open_flight new_coordinator take_at Flight.complete_leader
    Flight.complete
flown = (omega arith, refl)

run-IsPublished_example :
    IsPublished 0 outcome
      (run
        (run start (acquires sid version ∷ completes 0 outcome ∷ []))
        (acquires sid version ∷ drops 0 ∷ [])).coordinator
run-IsPublished_example =
    run-IsPublished (run start (acquires sid version ∷ completes 0 outcome ∷ []))
      (acquires sid version ∷ drops 0 ∷ []) 0 outcome flown

abbrev flying : FlightLeader
flying = record { session_id = sid; flight = 0; completed = false }

first : take_at 0 (run start (acquires sid version ∷ [])).leaders ≡ some (flying, [])
unfolding run step acquired acquire open_flight new_coordinator take_at
first = refl

leader_finishes_example :
    let y = run start (acquires sid version ∷ []) in
    (IsPublished 0 outcome (step y (completes 0 outcome)).coordinator
      × ((step y (completes 0 outcome)).coordinator.registry sid ≡ none))
    × (IsPublished 0 (indeterminate leader_aborted) (step y (drops 0)).coordinator
        × ((step y (drops 0)).coordinator.registry sid ≡ none))
leader_finishes_example =
    leader_finishes (run start (acquires sid version ∷ [])) 0 outcome
      (single_flight (acquires sid version ∷ [])) first

nothing_registered :
    (t : Str) (f : ℕ)
    → new_coordinator.registry t ≡ some f
    → (new_coordinator.flights f).outcome ≡ none
unfolding new_coordinator
nothing_registered t f q = refl
