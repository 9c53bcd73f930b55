-- ===== src/Flight/Steps.antt =====
-- src/flight.rs: the invariant of one flight per session, along every interleaving.
use auth_mini_gateway.Prelude.{
  ℕ, zero, suc, ◌≡◌, refl, false, Option, none, some, List, [], ◌∷◌, arith, ◌⊎◌, inl, inr,
  Bool-cases, Option-cases, All, ◌==◌, ==_iff, sym, ==_refl,
}
use auth_mini_gateway.Prelude.Text.{Str, str_eq, str_eq_iff}
use auth_mini_gateway.Db.{ObservedVersion}
use auth_mini_gateway.Flight.{
  FlightCoordinator, FlightLeader, FlightOutcome, acquire, join_open, accepts, add_alias, complete,
  complete_leader, drop_leader, new_coordinator, indeterminate, is_current,
}
use auth_mini_gateway.AuthTypes.{leader_aborted}
use auth_mini_gateway.Flight.System.{
  System, Event, acquires, aliases, completes, drops, take_at, acquired, alias_at, complete_at,
  drop_at, step, run, start,
}
use auth_mini_gateway.Flight.SingleFlight.{
  IsFlying, AreApart, AllApart, HasLeader, Inv, leader_flying, change-Inv, open-Inv,
}

pub take-All :
    (P : FlightLeader → Type 0) (n : ℕ) (ls : List FlightLeader) {l : FlightLeader}
    {rest : List FlightLeader}
    → take_at n ls ≡ some (l, rest)
    → All P ls
    → P l × All P rest
unfolding take_at
take-All P n [] e h = absurd (ground arith)
take-All P zero (m ∷ ls) {l} {rest} e (p, h) =
    let q : m ≡ l = ground arith in let r : ls ≡ rest = ground arith in (rw (← q) p, rw (← r) h)
take-All P (suc n) (m ∷ ls) {l} {rest} e (p, h) = elim (Option-cases (take_at n ls)) [
  | inl none_left ↦ absurd (ground arith)
  | inr ((k, others), f) ↦
      let (pk, ph) = take-All P n ls f h in
      let q : k ≡ l = ground arith in
      let r : m ∷ others ≡ rest = ground arith in (rw (← q) pk, rw (← r) (p, ph))
]

apart_sym : (l m : FlightLeader) → AreApart l m → AreApart m l
apart_sym l m a = record { sessions = λ q. a.sessions (sym q); flights = λ q. a.flights (sym q) }

take-AllApart :
    (n : ℕ) (ls : List FlightLeader) {l : FlightLeader} {rest : List FlightLeader}
    → take_at n ls ≡ some (l, rest)
    → AllApart ls
    → All (AreApart l) rest × AllApart rest
unfolding take_at
take-AllApart n [] e h = absurd (ground arith)
take-AllApart zero (m ∷ ls) {l} {rest} e (p, h) =
    let q : m ≡ l = ground arith in
    let r : ls ≡ rest = ground arith in (rw (← q, ← r) p, rw (← r) h)
take-AllApart (suc n) (m ∷ ls) {l} {rest} e (p, h) = elim (Option-cases (take_at n ls)) [
  | inl none_left ↦ absurd (ground arith)
  | inr ((k, others), f) ↦
      let (pk, ph) = take-AllApart n ls f h in
      let (mk, mo) = take-All (AreApart m) n ls f p in
      let q : k ≡ l = ground arith in
      let r : m ∷ others ≡ rest = ground arith in
      (rw (← q, ← r) (apart_sym m k mk, pk), rw (← r) (mo, ph))
]

take-HasLeader :
    (n : ℕ) (ls : List FlightLeader) {l : FlightLeader} {rest : List FlightLeader} (s : Str) (f : ℕ)
    → take_at n ls ≡ some (l, rest)
    → HasLeader s f ls
    → ((l.session_id ≡ s) × (l.flight ≡ f)) ⊎ HasLeader s f rest
unfolding take_at
take-HasLeader n [] s f e h = absurd h
take-HasLeader zero (m ∷ ls) {l} {rest} s f e h =
    let q : m ≡ l = ground arith in let r : ls ≡ rest = ground arith in rw (← q, ← r) h
take-HasLeader (suc n) (m ∷ ls) {l} {rest} s f e h = elim (Option-cases (take_at n ls)) [
  | inl none_left ↦ absurd (ground arith)
  | inr ((k, others), g) ↦
      let q : k ≡ l = ground arith in
      let r : m ∷ others ≡ rest = ground arith in
      rw (← q, ← r)
        (elim h [
          | inl here ↦ inr (inl here)
          | inr there ↦ elim (take-HasLeader n ls s f g there) [
            | inl mine ↦ inl mine
            | inr yours ↦ inr (inr yours)
          ]
        ])
]

acquire-Inv :
    (y : System) (s : Str) (v : ObservedVersion)
    → Inv y
    → Inv (acquired y.leaders (acquire y.coordinator s v))
unfolding acquire acquired
acquire-Inv y s v i = elim (Option-cases (y.coordinator.registry s)) [
  | inl e ↦ rw e (open-Inv y.coordinator y.leaders s v e i)
  | inr (f, e) ↦
      let (open_now, _) = leader_flying y.coordinator s f y.leaders i.flying (i.led s f e) in
      rw e (rw open_now (join s v f i))
]
  where
    join :
        (s : Str) (v : ObservedVersion) (f : ℕ)
        → Inv y
        → Inv (acquired y.leaders (join_open y.coordinator v f))
    join s v f i =
        unfold join_open in
        elim (Bool-cases (accepts (y.coordinator.flights f).accepted_versions v)) [
          | inl t ↦ rw t (change-Inv y.coordinator y.leaders f _ refl i)
          | inr n ↦ rw n i
        ]

alias-Inv :
    (y : System) (v : ObservedVersion) (o : Option (FlightLeader × List FlightLeader))
    → Inv y
    → Inv (alias_at y v o)
unfolding alias_at add_alias
alias-Inv y v none i = i
alias-Inv y v (some (l, rest)) i = elim (Option-cases (y.coordinator.flights l.flight).outcome) [
  | inl e ↦ rw e (change-Inv y.coordinator y.leaders l.flight _ refl i)
  | inr (o, e) ↦ rw e i
]

finished_flying :
    (c : FlightCoordinator) (l m : FlightLeader) (o : FlightOutcome)
    → IsFlying c m
    → AreApart l m
    → IsFlying (complete c l.session_id l.flight o).1 m
unfolding complete
finished_flying c l m o p a =
    let other : str_eq l.session_id m.session_id ≡ false =
      elim (Bool-cases (str_eq l.session_id m.session_id)) [
        | inl t ↦ absurd (a.sessions ((str_eq_iff l.session_id m.session_id).0 t))
        | inr n ↦ n
      ] in
    let apart : (l.flight == m.flight) ≡ false = elim (Bool-cases (l.flight == m.flight)) [
      | inl t ↦ absurd (a.flights ((==_iff l.flight m.flight).0 t))
      | inr n ↦ n
    ] in
    record {
      registered = elim (Bool-cases (is_current (c.registry l.session_id) l.flight)) [
        | inl t ↦ rw t (rw other p.registered)
        | inr n ↦ rw n p.registered
      ];
      is_open = rw apart p.is_open;
      known = p.known;
      pending = p.pending;
    }

-- A leader that finishes, with whatever outcome, leaves the invariant to the others.
finish-Inv :
    (y : System) (n : ℕ) (o : FlightOutcome) {l : FlightLeader} {rest : List FlightLeader}
    → take_at n y.leaders ≡ some (l, rest)
    → Inv y
    → Inv (record {
      coordinator = (complete y.coordinator l.session_id l.flight o).1;
      leaders = rest;
    })
finish-Inv y n o {l} {rest} e i =
    let (mine, others) = take-All (IsFlying y.coordinator) n y.leaders e i.flying in
    let (from_me, apart) = take-AllApart n y.leaders e i.apart in
    record {
      flying = both rest others from_me;
      apart = apart;
      led = λ s f q. remaining mine.registered s f q;
    }
  where
    both :
        (ms : List FlightLeader)
        → All (IsFlying y.coordinator) ms
        → All (AreApart l) ms
        → All (IsFlying (complete y.coordinator l.session_id l.flight o).1) ms
    both [] h k = tt
    both (m ∷ ms) (p, h) (a, k) = (finished_flying y.coordinator l m o p a, both ms h k)

    remaining :
        y.coordinator.registry l.session_id ≡ some l.flight
        → (s : Str) (f : ℕ) → (complete y.coordinator l.session_id l.flight o).1.registry s ≡ some f
        → HasLeader s f rest
    remaining r s f q =
        unfold complete is_current in
        elim (Bool-cases (str_eq l.session_id s)) [
          | inl t ↦ absurd (ground (arith, ==_refl l.flight))
          | inr t ↦
              let still : y.coordinator.registry s ≡ some f = ground (arith, ==_refl l.flight) in
              elim (take-HasLeader n y.leaders s f e (i.led s f still)) [
                | inl (own, _) ↦
                    let same = (str_eq_iff l.session_id s).1 own in absurd (ground arith)
                | inr h ↦ h
              ]
        ]

complete-Inv :
    (y : System) (n : ℕ) (o : FlightOutcome) → Inv y → Inv (complete_at y o (take_at n y.leaders))
unfolding complete_at complete_leader
complete-Inv y n o i = elim (Option-cases (take_at n y.leaders)) [
  | inl e ↦ rw e i
  | inr ((l, rest), e) ↦ rw e (finish-Inv y n o e i)
]

drop-Inv : (y : System) (n : ℕ) → Inv y → Inv (drop_at y (take_at n y.leaders))
unfolding drop_at drop_leader
drop-Inv y n i = elim (Option-cases (take_at n y.leaders)) [
  | inl e ↦ rw e i
  | inr ((l, rest), e) ↦
      let mine = (take-All (IsFlying y.coordinator) n y.leaders e i.flying).0 in
      rw e (rw mine.pending (finish-Inv y n (indeterminate leader_aborted) e i))
]

pub step-Inv : (y : System) (x : Event) → Inv y → Inv (step y x)
unfolding step
step-Inv y (acquires s v) i = acquire-Inv y s v i
step-Inv y (aliases n v) i = alias-Inv y v (take_at n y.leaders) i
step-Inv y (completes n o) i = complete-Inv y n o i
step-Inv y (drops n) i = drop-Inv y n i

run-Inv : (y : System) (xs : List Event) → Inv y → Inv (run y xs)
unfolding run
run-Inv y [] i = i
run-Inv y (x ∷ xs) i = run-Inv (step y x) xs (step-Inv y x i)

start-Inv : Inv start
unfolding new_coordinator
start-Inv = record { flying = tt; apart = tt; led = λ s f e. absurd (ground arith) }

-- After any interleaving of requests from the empty coordinator: a leader's flight is open and is the
-- one registered for its session, no two leaders have the same session or the same flight, and every
-- registered flight has a leader that is still to finish it.
pub single_flight : (xs : List Event) → Inv (run start xs)
single_flight xs = run-Inv start xs start-Inv
