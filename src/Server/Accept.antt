-- ===== src/Server/Accept.antt =====
-- src/server.rs: the classes of accept errors on Linux, the backoff after them, and the log of failures.
-- Durations are nanoseconds, and counters saturate at 64 bits.
pub mod Accounting
pub mod Delays
use auth_mini_gateway.Prelude.{
  ℕ, zero, suc, ◌+◌, ◌-◌, ◌*◌, ◌^◌, min, Bool, true, false, ◌&&◌, ◌||◌, Option, none, some, List,
  [], ◌∷◌, any, ltb, leb, ◌==◌, if◌then◌else◌,
}
use auth_mini_gateway.Util.{seconds}

pub data RecoverableAcceptClass : Type 0 where
  resource_fd resource_memory transient : RecoverableAcceptClass

pub data ListenerErrnoClass : Type 0 where
  bad_fd fault invalid not_socket unknown : ListenerErrnoClass

pub data AcceptErrorClass : Type 0 where
  recoverable : RecoverableAcceptClass → AcceptErrorClass
  fatal : ListenerErrnoClass → AcceptErrorClass

-- RecoverableAcceptClass::is_resource
abbrev pub is_resource : RecoverableAcceptClass → Bool
is_resource transient = false
is_resource _ = true

abbrev pub same_class : RecoverableAcceptClass → RecoverableAcceptClass → Bool
same_class resource_fd resource_fd = true
same_class resource_memory resource_memory = true
same_class transient transient = true
same_class _ _ = false

-- saturating_add(1)
abbrev pub saturating_next : ℕ → ℕ
saturating_next n = min (n + 1) (2 ^ 64 - 1)

pub record AcceptBackoff : Type 0 where
  pub class : Option RecoverableAcceptClass
  pub same_class_streak : ℕ

-- Default, and reset
abbrev pub reset : AcceptBackoff
reset = record { class = none; same_class_streak = 0 }

-- An index behind the end would panic; it does not occur.
abbrev pub at_index : ℕ → List ℕ → ℕ
at_index n [] = 0
at_index zero (m ∷ ms) = m
at_index (suc n) (m ∷ ms) = at_index n ms

streak : Option RecoverableAcceptClass → RecoverableAcceptClass → ℕ → ℕ
streak none class n = 1
streak (some last) class n = if same_class last class then saturating_next n else 1

unfoldable pub delay_of : RecoverableAcceptClass → ℕ → ℕ
delay_of class n =
    if is_resource class
    then at_index (min (n - 1) 6) (100 ∷ 200 ∷ 400 ∷ 800 ∷ 1600 ∷ 3200 ∷ 5000 ∷ [])
    else at_index (min (n - 1) 5) (10 ∷ 20 ∷ 40 ∷ 80 ∷ 160 ∷ 250 ∷ [])

-- The delay in milliseconds.
unfoldable pub next_delay : AcceptBackoff → RecoverableAcceptClass → ℕ × AcceptBackoff
unfolding streak
next_delay b class =
    let n = streak b.class class b.same_class_streak in
    (delay_of class n, record { class = some class; same_class_streak = n })

pub record AcceptFailureEvent : Type 0 where
  pub failures : ℕ
  pub suppressed : ℕ

pub record AcceptRecoveryEvent : Type 0 where
  pub failures : ℕ
  pub suppressed : ℕ
  pub duration : ℕ

pub record AcceptFailureLogState : Type 0 where
  pub failures : ℕ
  pub first_failure_at : Option ℕ
  pub last_emission_at : Option ℕ
  pub suppressed_since_last : ℕ

abbrev pub quiet_log : AcceptFailureLogState
quiet_log = record {
  failures = 0;
  first_failure_at = none;
  last_emission_at = none;
  suppressed_since_last = 0;
}

get_or_insert : Option ℕ → ℕ → ℕ
get_or_insert none at = at
get_or_insert (some t) at = t

-- is_none_or(|last| now.saturating_sub(last) >= 60 s)
is_due : Option ℕ → ℕ → Bool
is_due none at = true
is_due (some last) at = leb (seconds 60) (at - last)

unfoldable pub emits : ℕ → Option ℕ → ℕ → Bool
unfolding is_due
emits failures last at =
    any (λ n. failures == n) (1 ∷ 2 ∷ 4 ∷ 8 ∷ 16 ∷ 32 ∷ []) || (ltb 32 failures && is_due last at)

unfoldable pub failure :
    AcceptFailureLogState → ℕ → Option AcceptFailureEvent × AcceptFailureLogState
unfolding get_or_insert
failure log at =
    let failures = saturating_next log.failures in
    let first = some (get_or_insert log.first_failure_at at) in
    if emits failures log.last_emission_at at
    then (
      some (record { failures = failures; suppressed = log.suppressed_since_last }),
      record {
        failures = failures;
        first_failure_at = first;
        last_emission_at = some at;
        suppressed_since_last = 0;
      },
    )
    else (
      none,
      record {
        failures = failures;
        first_failure_at = first;
        last_emission_at = log.last_emission_at;
        suppressed_since_last = saturating_next log.suppressed_since_last;
      },
    )

unfoldable pub recovered :
    AcceptFailureLogState → ℕ → Option AcceptRecoveryEvent × AcceptFailureLogState
unfolding get_or_insert
recovered log at = if log.failures == 0 then (none, log) else (
  some (record {
    failures = log.failures;
    suppressed = log.suppressed_since_last;
    duration = at - get_or_insert log.first_failure_at at;
  }),
  quiet_log,
)

-- EMFILE, ENFILE; ENOBUFS, ENOMEM; the errors of a connection or of the network that pass; EBADF,
-- EFAULT, EINVAL, ENOTSOCK.
unfoldable pub classify_code : ℕ → AcceptErrorClass
classify_code code =
    if any (λ n. code == n) (24 ∷ 23 ∷ [])
    then recoverable resource_fd
    else if any (λ n. code == n) (105 ∷ 12 ∷ [])
    then recoverable resource_memory
    else if any (λ n. code == n)
        (4 ∷ 103 ∷ 11 ∷ 100 ∷ 71 ∷ 92 ∷ 112 ∷ 64 ∷ 113 ∷ 95 ∷ 101 ∷ 1 ∷ 63 ∷ 94 ∷ 93 ∷ 110 ∷ [])
    then recoverable transient
    else if code == 9
    then fatal bad_fd
    else if code == 14
    then fatal fault
    else if code == 22
    then fatal invalid
    else if code == 88
    then fatal not_socket
    else fatal unknown
