-- ===== src/RuntimePlan/Preflight.antt =====
-- src/runtime_plan.rs, src/main.rs: the checks before the process starts.
use auth_mini_gateway.Prelude.{
  ℕ, ◌+◌, ◌^◌, ◌≤◌, ◌<◌, ◌≡◌, refl, Bool-cases, inl, inr, Option, none, some, leb, arith,
  if◌then◌else◌,
}
use auth_mini_gateway.Prelude.Result.{Result, ok, err, ◌>>=◌, ◌>>◌}
use auth_mini_gateway.Prelude.Text.{Str}
use auth_mini_gateway.Crates.{Crates}
use auth_mini_gateway.Config.{Config, UpstreamBase}
use auth_mini_gateway.Config.FromEnv.{from_env}
use auth_mini_gateway.Config.Validity.{from_env-IsValidConfig}
use auth_mini_gateway.RuntimePlan.{
  RuntimePlan, NofileLimit, infinite, finite, NofileError, SanitizedExit, nofile_too_low,
  map_nofile_error, map_err, checked_add, new_plan, has_upstream, required_nofile_for,
  required_nofile, validate_nofile, preflight,
}

-- The descriptors of a configuration, as a number without bounds: each connection, in proxy mode each
-- upstream and the idle pool, the listener, and a reserve.
abbrev pub descriptors : Option UpstreamBase → ℕ → ℕ → ℕ
descriptors none downstream upstreams = downstream + 513
descriptors (some upstream) downstream upstreams = downstream + upstreams + 521

abbrev pub plan_of : ℕ → RuntimePlan
plan_of resolvers = record {
  auth_workers = 64;
  resolver_limit = resolvers;
  blocking_margin = 16;
  max_blocking_threads = 80 + resolvers;
}

-- The process starts where the limit leaves room for them.
abbrev pub starts :
    Config → ℕ → Result NofileError NofileLimit → Result SanitizedExit (Config × RuntimePlan × ℕ)
starts config required (err e) = err (map_nofile_error e)
starts config required (ok infinite) = ok (config, plan_of config.max_blocking_resolvers, required)
starts config required (ok (finite n)) =
    if leb required n
    then ok (config, plan_of config.max_blocking_resolvers, required)
    else err (nofile_too_low required n)

new_plan-in_range : (n : ℕ) → 1 ≤ n → n ≤ 32 → new_plan n ≡ ok (plan_of n)
unfolding new_plan checked_add
new_plan-in_range n low high = ground arith

required_nofile_for-exact :
    (u : Option UpstreamBase) (downstream upstreams : ℕ)
    → downstream < 2 ^ 61
    → upstreams < 2 ^ 61
    → required_nofile_for (has_upstream u) downstream upstreams
      ≡ ok (descriptors u downstream upstreams)
unfolding required_nofile_for checked_add
required_nofile_for-exact none downstream upstreams h k = ground arith
required_nofile_for-exact (some u) downstream upstreams h k = ground arith

limits_start :
    (config : Config) (required : ℕ) (limit : Result NofileError NofileLimit)
    → (do
      effective ← map_err map_nofile_error limit
      map_err map_nofile_error (validate_nofile required effective)
      ok (config, plan_of config.max_blocking_resolvers, required))
      ≡ starts config required limit
unfolding map_err validate_nofile
limits_start config required (err e) = refl
limits_start config required (ok infinite) = refl
limits_start config required (ok (finite n)) = elim (Bool-cases (leb required n)) [
  | inl t ↦ rw t refl
  | inr f ↦ rw f refl
]

module _ (c : Crates) where
  -- tokio's limit of a semaphore is below 2 ^ 61 on the 64-bit targets. Then for every configuration that
  -- `from_env` returns, the plan has 64 threads for authentication, one for each resolver and 16
  -- more, which are at most 112, the sum of the descriptors never overflows, and the process goes on to
  -- the store exactly where the limit of descriptors is infinite or at least that sum: the connections,
  -- the listener and 512, and in proxy mode the upstreams and 8 idle ones; else it ends with the sum and
  -- the limit, or with the error of reading the limit.
  pub preflight-starts :
      (env : Str → Option Str) (config : Config) (limit : Result NofileError NofileLimit)
      → c.max_permits < 2 ^ 61
      → from_env c env ≡ ok config
      → (preflight c env limit
          ≡ starts config
              (descriptors config.upstream config.max_downstream_connections
                config.max_active_upstreams)
              limit)
        × ((plan_of config.max_blocking_resolvers).max_blocking_threads ≤ 112)
  unfolding preflight required_nofile map_err
  preflight-starts env config limit permits h =
      let valid = from_env-IsValidConfig c env config h in
      let plan =
        new_plan-in_range config.max_blocking_resolvers valid.resolvers.0 valid.resolvers.1 in
      let budget =
        required_nofile_for-exact config.upstream config.max_downstream_connections
          config.max_active_upstreams (omega arith) (omega arith) in
      (rw (h, plan, budget) (limits_start config _ limit), omega arith)
