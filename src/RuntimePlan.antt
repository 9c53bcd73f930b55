-- ===== src/RuntimePlan.antt =====
-- src/runtime_plan.rs, src/exit.rs and the start of src/main.rs: the threads and file descriptors that a
-- configuration needs, and how the process ends where it cannot have them.
pub mod Preflight
use auth_mini_gateway.Prelude.{
  ℕ, ◌+◌, ◌^◌, Bool, true, false, ◌&&◌, not, Option, none, some, ltb, leb, if◌then◌else◌, String,
}
use auth_mini_gateway.Prelude.Result.{Result, ok, err, refuse_if, ok_or, ◌>>=◌, ◌>>◌}
use auth_mini_gateway.Prelude.Text.{Str}
use auth_mini_gateway.Crates.{Crates}
use auth_mini_gateway.Config.{Config, ConfigError, UpstreamBase, max_blocking_resolvers}
use auth_mini_gateway.Config.FromEnv.{from_env}
use auth_mini_gateway.Server.Accept.{
  ListenerErrnoClass, bad_fd, fault, invalid, not_socket, unknown,
}

abbrev pub auth_blocking_workers : ℕ
auth_blocking_workers = 64

abbrev pub blocking_runtime_margin : ℕ
blocking_runtime_margin = 16

abbrev pub upstream_idle_pool_capacity : ℕ
upstream_idle_pool_capacity = 8

abbrev pub listener_fd_budget : ℕ
listener_fd_budget = 1

abbrev pub ancillary_fd_reserve : ℕ
ancillary_fd_reserve = 512

pub record RuntimePlan : Type 0 where
  pub auth_workers : ℕ
  pub resolver_limit : ℕ
  pub blocking_margin : ℕ
  pub max_blocking_threads : ℕ

pub data RuntimePlanError : Type 0 where
  runtime_plan_error : RuntimePlanError

pub data NofileLimit : Type 0 where
  infinite : NofileLimit
  finite : ℕ → NofileLimit

pub data NofileError : Type 0 where
  budget_overflow unavailable : NofileError
  too_low : ℕ → ℕ → NofileError

-- usize::checked_add
unfoldable pub checked_add : ℕ → Option ℕ → Option ℕ
checked_add b none = none
checked_add b (some a) = if ltb (a + b) (2 ^ 64) then some (a + b) else none

-- RuntimePlan::new
unfoldable pub new_plan : ℕ → Result RuntimePlanError RuntimePlan
unfolding checked_add
new_plan resolver_limit = do
  refuse_if (not (leb 1 resolver_limit && leb resolver_limit max_blocking_resolvers))
      runtime_plan_error
  max_blocking_threads ←
      ok_or
        (checked_add blocking_runtime_margin
          (checked_add resolver_limit (some auth_blocking_workers)))
        runtime_plan_error
  ok (record {
    auth_workers = auth_blocking_workers;
    resolver_limit = resolver_limit;
    blocking_margin = blocking_runtime_margin;
    max_blocking_threads = max_blocking_threads;
  })

unfoldable pub required_nofile_for : Bool → ℕ → ℕ → Result NofileError ℕ
unfolding checked_add
required_nofile_for true downstream upstreams =
    ok_or
      (checked_add ancillary_fd_reserve (
        checked_add listener_fd_budget
          (checked_add upstream_idle_pool_capacity (checked_add upstreams (some downstream)))))
      budget_overflow
required_nofile_for false downstream upstreams =
    ok_or (checked_add ancillary_fd_reserve (checked_add listener_fd_budget (some downstream)))
      budget_overflow

abbrev pub has_upstream : Option UpstreamBase → Bool
has_upstream none = false
has_upstream (some upstream) = true

unfoldable pub required_nofile : Config → Result NofileError ℕ
required_nofile config =
    required_nofile_for (has_upstream config.upstream) config.max_downstream_connections
      config.max_active_upstreams

unfoldable pub validate_nofile : ℕ → NofileLimit → Result NofileError (Unit {0})
validate_nofile required infinite = ok tt
validate_nofile required (finite value) =
    if leb required value then ok tt else err (too_low required value)

pub data SanitizedExit : Type 0 where
  configuration_invalid : String → SanitizedExit
  fd_budget_overflow nofile_unavailable : SanitizedExit
  nofile_too_low : ℕ → ℕ → SanitizedExit
  runtime_blocking_plan_invalid runtime_build_failed database_initialize_failed : SanitizedExit
  listener_bind_failed proxy_initialize_failed public_base_invalid : SanitizedExit
  runtime_invariant : String → SanitizedExit
  listener_fatal : ListenerErrnoClass → Option ℕ → ℕ → ℕ → SanitizedExit

abbrev pub as_str : ListenerErrnoClass → String
as_str bad_fd = "bad_fd"
as_str fault = "fault"
as_str invalid = "invalid"
as_str not_socket = "not_socket"
as_str unknown = "unknown"

-- The class in the event that the process emits as it ends.
abbrev pub exit_class : SanitizedExit → String
exit_class (configuration_invalid class) = class
exit_class fd_budget_overflow = "fd_budget_overflow"
exit_class nofile_unavailable = "nofile_unavailable"
exit_class (nofile_too_low required effective) = "nofile_too_low"
exit_class runtime_blocking_plan_invalid = "runtime_blocking_plan_invalid"
exit_class runtime_build_failed = "runtime_build_failed"
exit_class database_initialize_failed = "database_initialize_failed"
exit_class listener_bind_failed = "listener_bind_failed"
exit_class proxy_initialize_failed = "proxy_initialize_failed"
exit_class public_base_invalid = "public_base_invalid"
exit_class (runtime_invariant class) = class
exit_class (listener_fatal errno_class errno_code prior suppressed) = "listener_fatal"

abbrev pub map_nofile_error : NofileError → SanitizedExit
map_nofile_error budget_overflow = fd_budget_overflow
map_nofile_error unavailable = nofile_unavailable
map_nofile_error (too_low required effective) = nofile_too_low required effective

unfoldable pub map_err : {E F A : Type 0} → (E → F) → Result E A → Result F A
map_err f (ok a) = ok a
map_err f (err e) = err (f e)

module _ (c : Crates) where
  -- `run` up to the store, where `limit` is what effective_soft_nofile returns.
  unfoldable pub preflight :
      (Str → Option Str)
      → Result NofileError NofileLimit
      → Result SanitizedExit (Config × RuntimePlan × ℕ)
  unfolding map_err
  preflight env limit = do
    config ← map_err (λ (e : ConfigError). configuration_invalid e.class) (from_env c env)
    plan ← map_err (λ _. runtime_blocking_plan_invalid) (new_plan config.max_blocking_resolvers)
    required ← map_err map_nofile_error (required_nofile config)
    effective ← map_err map_nofile_error limit
    map_err map_nofile_error (validate_nofile required effective)
    ok (config, plan, required)
