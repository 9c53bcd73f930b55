-- ===== src/Server/Accept/Accounting.antt =====
-- src/server.rs: the account that the failure log keeps.
use auth_mini_gateway.Prelude.{
  ℕ, ◌+◌, ◌-◌, ◌^◌, ◌≤◌, ◌<◌, ◌≡◌, Option, none, some, List, [], ◌∷◌, length, arith, Bool-cases,
  inl, inr,
}
use auth_mini_gateway.Server.Accept.{
  AcceptFailureEvent, AcceptFailureLogState, quiet_log, emits, failure, saturating_next,
}

-- The failures that an emitted event stands for: itself, and those suppressed before it.
abbrev pub stands_for : Option AcceptFailureEvent → ℕ
stands_for none = 0
stands_for (some event) = event.suppressed + 1

-- Failures at the given times, behind a log, with the failures that the events stand for.
unfoldable pub failures_at : AcceptFailureLogState → List ℕ → ℕ × AcceptFailureLogState
failures_at log [] = (0, log)
failures_at log (at ∷ times) =
    let (event, next) = failure log at in
    let (rest, last) = failures_at next times in (stands_for event + rest, last)

failure-counts :
    (log : AcceptFailureLogState) (at : ℕ)
    → log.failures < 2 ^ 64 - 1
    → log.suppressed_since_last ≤ log.failures
    → ((failure log at).1.failures ≡ log.failures + 1)
      × (stands_for (failure log at).0 + (failure log at).1.suppressed_since_last
          ≡ log.suppressed_since_last + 1)
      × ((failure log at).1.suppressed_since_last ≤ log.failures + 1)
unfolding failure
failure-counts log at room le =
    elim (Bool-cases (emits (saturating_next log.failures) log.last_emission_at at)) [
      | inl t ↦ rw t (omega arith, omega arith, omega arith)
      | inr f ↦ rw f (omega arith, omega arith, omega arith)
    ]

counted :
    (log : AcceptFailureLogState) (times : List ℕ)
    → log.failures + length times < 2 ^ 64
    → log.suppressed_since_last ≤ log.failures
    → ((failures_at log times).1.failures ≡ log.failures + length times)
      × ((failures_at log times).0 + (failures_at log times).1.suppressed_since_last
          ≡ log.suppressed_since_last + length times)
unfolding failures_at
counted log [] room le = (omega arith, omega arith)
counted log (at ∷ times) room le =
    let (f, b, l) = failure-counts log at (omega arith) le in
    let (f', b') = counted (failure log at).1 times (omega arith) (omega arith) in
    (omega arith, omega arith)

-- Of any row of failures, at whatever times, each is either counted by an event that was emitted, as
-- itself or as suppressed before it, or still counted as suppressed; and the log knows their number. The
-- counters do not saturate.
pub failures_at-accounted :
    (times : List ℕ)
    → length times < 2 ^ 64
    → ((failures_at quiet_log times).1.failures ≡ length times)
      × ((failures_at quiet_log times).0 + (failures_at quiet_log times).1.suppressed_since_last
          ≡ length times)
failures_at-accounted times room =
    let (f, b) = counted quiet_log times (omega arith) (omega arith) in (omega arith, omega arith)
