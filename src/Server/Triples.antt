-- ===== src/Server/Triples.antt =====
-- Rules for the actions of the handlers: what holds of the tables stays true, and what their results
-- are.
use auth_mini_gateway.Prelude.{ℕ, ◌≡◌, refl, Bool, true, false, Option, none, some, if◌then◌else◌}
use auth_mini_gateway.Prelude.Result.{Result}
use auth_mini_gateway.Db.{Tables, DbError}
use auth_mini_gateway.Db.Monad.{Env, World, M}
use auth_mini_gateway.Db.Monad.Keeps.{Keeps}
use auth_mini_gateway.Flight.{FlightCoordinator}
use auth_mini_gateway.Server.{
  Gateway, G, give, bind_option, ◌>>=◌, catch_unwind, ask, call, on_flights, time,
}
use auth_mini_gateway.Server.Refresh.{exhausted}

abbrev pub Returns : {A : Type 0} → Option A → (A → Type 0) → Type 0
Returns none Q = Unit
Returns (some a) Q = Q a

-- From tables with `P`, the action leaves tables with `P`, and what it returns has `Q`.
pub record Triple {A : Type 0} (P : Tables → Type 0) (m : G A) (Q : A → Type 0) : Type 0 where
  pub at : (g : Gateway) → P g.world.db → P (m g).1.world.db × Returns (m g).0 Q

abbrev pub Any : {A : Type 0} → A → Type 0
Any a = Unit

Any-result : {A : Type 0} (o : Option A) → Returns o Any
Any-result none = tt
Any-result (some a) = tt

module _ {A : Type 0} {P : Tables → Type 0} {Q : A → Type 0} where
  pub Triple-give : (a : A) → Q a → Triple P (give a) Q
  unfolding give
  Triple-give a q = record { at = λ g h. (h, q) }

  pub Triple-exhausted : Triple P (exhausted {A = A}) Q
  Triple-exhausted = record { at = λ g h. (h, tt) }

  pub Triple-if :
      (b : Bool) (m n : G A)
      → (b ≡ true → Triple P m Q)
      → (b ≡ false → Triple P n Q)
      → Triple P (if b then m else n) Q
  Triple-if true m n km kn = km refl
  Triple-if false m n km kn = kn refl

module _ {A B : Type 0} {P : Tables → Type 0} {Q : A → Type 0} {R : B → Type 0} where
  bind_option-at :
      (o : Option A) (g : Gateway) (f : A → G B)
      → P g.world.db
      → Returns o Q
      → ((a : A) → Q a → Triple P (f a) R)
      → P (bind_option o g f).1.world.db × Returns (bind_option o g f).0 R
  bind_option-at none g f h q k = (h, tt)
  bind_option-at (some a) g f h q k = (k a q).at g h

  pub Triple-bind :
      (m : G A) (f : A → G B)
      → Triple P m Q
      → ((a : A) → Q a → Triple P (f a) R)
      → Triple P (m >>= f) R
  unfolding ◌>>=◌
  Triple-bind m f km kf = record {
    at = λ g h. let (p, q) = km.at g h in bind_option-at (m g).0 (m g).1 f p q kf;
  }

module _ {A : Type 0} {P : Tables → Type 0} where
  pub Triple-ask :
      (m : M A) (Q : Result DbError A → Type 0)
      → Keeps P m
      → ((w : World) → P w.db → Q (m w).0)
      → Triple P (ask m) Q
  unfolding ask
  Triple-ask m Q keep q = record { at = λ g h. (keep.at g.world h, q g.world h) }

  -- An answer is that of some call.
  pub Triple-call :
      (answer : ℕ → Option A) → Triple P (call answer) (λ a. (n : ℕ) × (answer n ≡ some a))
  unfolding call
  Triple-call answer = record { at = λ g h. (h, given (answer g.world.step) g.world.step refl) }
    where
      given : (o : Option A) (n : ℕ) → answer n ≡ o → Returns o (λ a. (m : ℕ) × (answer m ≡ some a))
      given none n e = tt
      given (some a) n e = (n, e)

  pub Triple-catch_unwind : (m : G A) → Triple P m Any → Triple P (catch_unwind m) Any
  unfolding catch_unwind
  Triple-catch_unwind m k = record { at = λ g h. ((k.at g h).0, tt) }

module _ {P : Tables → Type 0} where
  pub Triple-on_flights : (f : FlightCoordinator → FlightCoordinator) → Triple P (on_flights f) Any
  unfolding on_flights
  Triple-on_flights f = record { at = λ g h. (h, tt) }

  pub Triple-time : (e : Env) → Triple P (time e) Any
  unfolding time
  Triple-time e = record { at = λ g h. (h, tt) }
