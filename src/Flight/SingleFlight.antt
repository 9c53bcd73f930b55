-- ===== src/Flight/SingleFlight.antt =====
-- src/flight.rs: one flight per session.
use auth_mini_gateway.Prelude.{
  ℕ, ◌<◌, ◌≡◌, ◌≢◌, refl, false, none, some, List, [], ◌∷◌, arith, ◌⊎◌, inl, inr, Bool-cases, All,
  All_map, ◌==◌, ◌∙◌, ==_refl,
}
use auth_mini_gateway.Prelude.Text.{Str, str_eq, str_eq_iff, str_eq_refl}
use auth_mini_gateway.Db.{ObservedVersion}
use auth_mini_gateway.Flight.{FlightCoordinator, FlightLeader, Flight, open_flight, set_flight}
use auth_mini_gateway.Flight.System.{System, acquired}

-- A leader's flight is the one registered for its session, and it is open.
pub record IsFlying (c : FlightCoordinator) (l : FlightLeader) : Type 0 where
  pub registered : c.registry l.session_id ≡ some l.flight
  pub is_open : (c.flights l.flight).outcome ≡ none
  pub known : l.flight < c.allocated
  pub pending : l.completed ≡ false

pub record AreApart (l m : FlightLeader) : Type 0 where
  pub sessions : l.session_id ≢ m.session_id
  pub flights : l.flight ≢ m.flight

abbrev pub AllApart : List FlightLeader → Type 0
AllApart [] = Unit
AllApart (l ∷ ls) = All (AreApart l) ls × AllApart ls

-- One of the leaders leads the flight for the session.
abbrev pub HasLeader : Str → ℕ → List FlightLeader → Type 0
HasLeader s f [] = ⊥
HasLeader s f (l ∷ ls) = ((l.session_id ≡ s) × (l.flight ≡ f)) ⊎ HasLeader s f ls

pub record Inv (y : System) : Type 0 where
  pub flying : All (IsFlying y.coordinator) y.leaders
  pub apart : AllApart y.leaders
  pub led : (s : Str) (f : ℕ) → y.coordinator.registry s ≡ some f → HasLeader s f y.leaders

pub leader_flying :
    (c : FlightCoordinator) (s : Str) (f : ℕ) (ls : List FlightLeader)
    → All (IsFlying c) ls
    → HasLeader s f ls
    → ((c.flights f).outcome ≡ none) × (f < c.allocated)
leader_flying c s f [] h x = absurd x
leader_flying c s f (l ∷ ls) (p, h) (inl (e, q)) = (rw (← q) p.is_open, rw (← q) p.known)
leader_flying c s f (l ∷ ls) (p, h) (inr x) = leader_flying c s f ls h x

-- A change of one flight that keeps its outcome keeps the invariant.
same_outcome :
    (c : FlightCoordinator) (f : ℕ) (flight : Flight) (l : FlightLeader)
    → flight.outcome ≡ (c.flights f).outcome
    → IsFlying c l
    → IsFlying (record c { flights = set_flight c.flights f flight }) l
same_outcome c f flight l e p = record {
  registered = p.registered;
  is_open = elim (Bool-cases (f == l.flight)) [
    | inl t ↦ let g : f ≡ l.flight = ground arith in rw t (e ∙ rw g p.is_open)
    | inr n ↦ rw n p.is_open
  ];
  known = p.known;
  pending = p.pending;
}

pub change-Inv :
    (c : FlightCoordinator) (ls : List FlightLeader) (f : ℕ) (flight : Flight)
    → flight.outcome ≡ (c.flights f).outcome
    → Inv (record { coordinator = c; leaders = ls })
    → Inv (record {
      coordinator = record c { flights = set_flight c.flights f flight };
      leaders = ls;
    })
change-Inv c ls f flight e v = record {
  flying = All_map ls (λ l p. same_outcome c f flight l e p) v.flying;
  apart = v.apart;
  led = v.led;
}

opened_flying :
    (c : FlightCoordinator) (s : Str) (v : ObservedVersion) (l : FlightLeader)
    → c.registry s ≡ none
    → IsFlying c l
    → IsFlying (open_flight c s v).1 l
unfolding open_flight
opened_flying c s v l e p =
    let other : str_eq s l.session_id ≡ false = elim (Bool-cases (str_eq s l.session_id)) [
      | inl t ↦
          let q = (str_eq_iff s l.session_id).0 t in
          let r = rw (← q) at p.registered in ground (arith, r)
      | inr n ↦ n
    ] in
    let below = p.known in
    let fresh : (c.allocated == l.flight) ≡ false = ground arith in
    record {
      registered = rw other p.registered;
      is_open = rw fresh p.is_open;
      known = omega arith;
      pending = p.pending;
    }

opened_apart :
    (c : FlightCoordinator) (s : Str) (l : FlightLeader)
    → c.registry s ≡ none
    → IsFlying c l
    → AreApart (record { session_id = s; flight = c.allocated; completed = false }) l
opened_apart c s l e p = record {
  sessions = λ q. let r = rw (← q) at p.registered in ground (arith, r);
  flights = λ q. let below = p.known in absurd (omega arith);
}

opened_led :
    (c : FlightCoordinator) (s : Str) (v : ObservedVersion) (ls : List FlightLeader)
    → ((t : Str) (f : ℕ) → c.registry t ≡ some f → HasLeader t f ls)
    → (t : Str) (f : ℕ) → (open_flight c s v).1.registry t ≡ some f
    → ((s ≡ t) × (c.allocated ≡ f)) ⊎ HasLeader t f ls
unfolding open_flight
opened_led c s v ls led t f e = elim (Bool-cases (str_eq s t)) [
  | inl x ↦ inl ((str_eq_iff s t).0 x, ground arith)
  | inr x ↦ inr (led t f (rw x at e))
]

pub open-Inv :
    (c : FlightCoordinator) (ls : List FlightLeader) (s : Str) (v : ObservedVersion)
    → c.registry s ≡ none
    → Inv (record { coordinator = c; leaders = ls })
    → Inv (acquired ls (open_flight c s v))
unfolding open_flight acquired
open-Inv c ls s v e i = record {
  flying = (
    record {
      registered = rw (str_eq_refl s);
      is_open = rw (==_refl c.allocated);
      known = omega arith;
      pending = refl;
    },
    All_map ls (λ l p. opened_flying c s v l e p) i.flying,
  );
  apart = (All_map ls (λ l p. opened_apart c s l e p) i.flying, i.apart);
  led = λ t f q. opened_led c s v ls i.led t f q;
}
