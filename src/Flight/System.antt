-- ===== src/Flight/System.antt =====
-- src/flight.rs: any number of requests that share one coordinator. A list of events is an interleaving
-- of their operations; a leader is named by its place among the leaders that are still flying.
use auth_mini_gateway.Prelude.{ℕ, zero, suc, Option, none, some, List, [], ◌∷◌}
use auth_mini_gateway.Prelude.Text.{Str}
use auth_mini_gateway.Db.{ObservedVersion}
use auth_mini_gateway.Flight.{
  FlightCoordinator, FlightLeader, FlightOutcome, Acquire, leader, joined, wait_for_close, acquire,
  add_alias, complete_leader, drop_leader, new_coordinator,
}

pub record System : Type 0 where
  pub coordinator : FlightCoordinator
  pub leaders : List FlightLeader

pub data Event : Type 0 where
  acquires : Str → ObservedVersion → Event
  aliases : ℕ → ObservedVersion → Event
  completes : ℕ → FlightOutcome → Event
  drops : ℕ → Event

abbrev put_back :
    FlightLeader
    → Option (FlightLeader × List FlightLeader)
    → Option (FlightLeader × List FlightLeader)
put_back l none = none
put_back l (some (m, rest)) = some (m, l ∷ rest)

-- The leader at a place, and the others.
unfoldable pub take_at : ℕ → List FlightLeader → Option (FlightLeader × List FlightLeader)
take_at n [] = none
take_at zero (l ∷ ls) = some (l, ls)
take_at (suc n) (l ∷ ls) = put_back l (take_at n ls)

unfoldable pub acquired : List FlightLeader → Acquire × FlightCoordinator → System
acquired ls (leader l, c) = record { coordinator = c; leaders = l ∷ ls }
acquired ls (joined f, c) = record { coordinator = c; leaders = ls }
acquired ls (wait_for_close f, c) = record { coordinator = c; leaders = ls }

unfoldable pub alias_at :
    System → ObservedVersion → Option (FlightLeader × List FlightLeader) → System
alias_at y v none = y
alias_at y v (some (l, rest)) = record y { coordinator = add_alias y.coordinator l v }

unfoldable pub complete_at :
    System → FlightOutcome → Option (FlightLeader × List FlightLeader) → System
complete_at y o none = y
complete_at y o (some (l, rest)) = record {
  coordinator = (complete_leader y.coordinator l o).1;
  leaders = rest;
}

unfoldable pub drop_at : System → Option (FlightLeader × List FlightLeader) → System
drop_at y none = y
drop_at y (some (l, rest)) = record { coordinator = drop_leader y.coordinator l; leaders = rest }

unfoldable pub step : System → Event → System
unfolding acquired alias_at complete_at drop_at
step y (acquires s v) = acquired y.leaders (acquire y.coordinator s v)
step y (aliases n v) = alias_at y v (take_at n y.leaders)
step y (completes n o) = complete_at y o (take_at n y.leaders)
step y (drops n) = drop_at y (take_at n y.leaders)

unfoldable pub run : System → List Event → System
run y [] = y
run y (x ∷ xs) = run (step y x) xs

abbrev pub start : System
start = record { coordinator = new_coordinator; leaders = [] }
