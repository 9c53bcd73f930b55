-- ===== src/Proxy/Exchange/Ends.antt =====
-- src/proxy.rs: how an exchange ends, whatever the order of its two sides.
use auth_mini_gateway.Prelude.{
  ◌≡◌, refl, Bool, true, false, ◌&&◌, Option, none, some, List, [], ◌∷◌, arith,
}
use auth_mini_gateway.Proxy.Exchange.{
  RetirementReason, ResponseCompletion, ExchangeLatch, Finish, new_latch, finished, completed,
  complete, request_done, response_done,
}

pub data Completion : Type 0 where
  request_ends : Bool → Completion
  response_ends : Bool → RetirementReason → Completion

-- The first end of each side.
abbrev pub first_request : Option Bool → List Completion → Option Bool
first_request (some clean) events = some clean
first_request none [] = none
first_request none (request_ends clean ∷ events) = some clean
first_request none (response_ends reusable reason ∷ events) = first_request none events

abbrev pub first_response : Option ResponseCompletion → List Completion → Option ResponseCompletion
first_response (some response) events = some response
first_response none [] = none
first_response none (request_ends clean ∷ events) = first_response none events
first_response none (response_ends reusable reason ∷ events) =
    some (record { reusable = reusable; reason = reason })

abbrev both : Option Bool → Option ResponseCompletion → Bool
both (some q) (some p) = true
both _ _ = false

module _ {R : Type 0} where
  abbrev act : Completion → ExchangeLatch R → ExchangeLatch R × Option (Finish R)
  act (request_ends clean) l = request_done clean l
  act (response_ends reusable reason) l = response_done reusable reason l

  abbrev with_finish : Option (Finish R) → List (Finish R) → List (Finish R)
  with_finish none fs = fs
  with_finish (some f) fs = f ∷ fs

  -- The calls of finish_exchange_resource in a row of completions.
  abbrev pub finishes : List Completion → ExchangeLatch R → List (Finish R)
  finishes [] l = []
  finishes (e ∷ events) l = with_finish (act e l).1 (finishes events (act e l).0)

  -- One call where both sides have ended, and none else.
  abbrev pub end_of : R → Option Bool → Option ResponseCompletion → List (Finish R)
  end_of resource (some clean) (some response) =
      record {
        resource = resource;
        reusable = clean && response.reusable;
        reason = response.reason;
      }
      ∷ []
  end_of resource _ _ = []

  finishes-over :
      (events : List Completion) (q : Bool) (p : ResponseCompletion)
      → finishes events (record { request = some q; response = some p; resource = none }) ≡ []
  unfolding request_done response_done complete completed finished
  finishes-over [] q p = refl
  finishes-over (request_ends clean ∷ events) q p = finishes-over events q p
  finishes-over (response_ends reusable reason ∷ events) q p = finishes-over events q p

  finishes-open :
      (resource : R) (events : List Completion) (q : Option Bool) (p : Option ResponseCompletion)
      → both q p ≡ false
      → finishes events (record { request = q; response = p; resource = some resource })
        ≡ end_of resource (first_request q events) (first_response p events)
  unfolding request_done response_done complete completed finished
  finishes-open r events (some q) (some p) h = absurd (ground arith)
  finishes-open r [] none none h = refl
  finishes-open r [] (some q) none h = refl
  finishes-open r [] none (some p) h = refl
  finishes-open r (request_ends clean ∷ events) none none h =
      finishes-open r events (some clean) none refl
  finishes-open r (request_ends clean ∷ events) (some q) none h =
      finishes-open r events (some q) none refl
  finishes-open r (request_ends clean ∷ events) none (some p) h =
      rw (finishes-over events clean p) refl
  finishes-open r (response_ends reusable reason ∷ events) none none h =
      finishes-open r events none (some (record { reusable = reusable; reason = reason })) refl
  finishes-open r (response_ends reusable reason ∷ events) none (some p) h =
      finishes-open r events none (some p) refl
  finishes-open r (response_ends reusable reason ∷ events) (some q) none h =
      rw (finishes-over events q (record { reusable = reusable; reason = reason })) refl

  -- However the ends of the request's and of the response's side follow each other, also again and again,
  -- the resource of an exchange is given up at most once, exactly if both sides have ended, and it may be
  -- reused only if the first end of the request was clean and the first end of the response was reusable;
  -- the reason is the first response's.
  pub finishes-once :
      (resource : R) (events : List Completion)
      → finishes events (new_latch resource)
        ≡ end_of resource (first_request none events) (first_response none events)
  finishes-once resource events = finishes-open resource events none none refl
