-- ===== src/Proxy/Exchange.antt =====
-- src/proxy.rs: the latch that ends an exchange with an upstream. Each operation under its mutex is one
-- step, and `R` stands for the resource that the exchange holds.
pub mod Ends
use auth_mini_gateway.Prelude.{Bool, true, false, ◌&&◌, Option, none, some}

pub data RetirementReason : Type 0 where
  request_cancellation ready_failure send_failure invalid_upgrade : RetirementReason
  response_body_error response_body_drop non_reusable_response : RetirementReason
  pool_ready_timeout pool_ready_failure pool_full pool_poisoned : RetirementReason
  upgrade_failure web_socket_closed web_socket_error : RetirementReason
  web_socket_cancellation idle_owner_drop : RetirementReason

pub record ResponseCompletion : Type 0 where
  pub reusable : Bool
  pub reason : RetirementReason

pub record ExchangeLatch (R : Type 0) : Type 0 where
  pub request : Option Bool
  pub response : Option ResponseCompletion
  pub resource : Option R

-- The arguments of finish_exchange_resource.
pub record Finish (R : Type 0) : Type 0 where
  pub resource : R
  pub reusable : Bool
  pub reason : RetirementReason

-- Option::get_or_insert
abbrev pub get_or_insert : {A : Type 0} → Option A → A → Option A
get_or_insert none a = some a
get_or_insert (some b) a = some b

module _ {R : Type 0} where
  abbrev pub new_latch : R → ExchangeLatch R
  new_latch resource = record { request = none; response = none; resource = some resource }

  finished : Option R → Bool → ResponseCompletion → Option (Finish R)
  finished none clean response = none
  finished (some resource) clean response = some (record {
    resource = resource;
    reusable = clean && response.reusable;
    reason = response.reason;
  })

  completed :
      Option Bool
      → Option ResponseCompletion
      → ExchangeLatch R
      → ExchangeLatch R × Option (Finish R)
  unfolding finished
  completed (some clean) (some response) l =
      (record l { resource = none }, finished l.resource clean response)
  completed _ _ l = (l, none)

  -- `complete` behind an update, with what finish_exchange_resource is called with.
  unfoldable pub complete : ExchangeLatch R → ExchangeLatch R × Option (Finish R)
  unfolding completed
  complete l = completed l.request l.response l

  unfoldable pub request_done : Bool → ExchangeLatch R → ExchangeLatch R × Option (Finish R)
  unfolding complete
  request_done clean l = complete (record l { request = get_or_insert l.request clean })

  unfoldable pub response_done :
      Bool → RetirementReason → ExchangeLatch R → ExchangeLatch R × Option (Finish R)
  unfolding complete
  response_done reusable reason l = complete (record l {
    response = get_or_insert l.response (record { reusable = reusable; reason = reason });
  })
