-- ===== src/Proxy/Generation.antt =====
-- src/proxy.rs: the control of an HTTP/2 generation. `state` and its poison flag are the mutex, each
-- operation under it is one step, and `retirement` is the value of the watch channel.
pub mod History
use auth_mini_gateway.Prelude.{
  ℕ, ◌≡◌, Bool, true, false, ◌&&◌, ◌||◌, not, Option, none, some, if◌then◌else◌,
}
use auth_mini_gateway.Prelude.Result.{Result, ok, err}

pub data GenerationState : Type 0 where
  proving live_disabled live_enabled revoked retiring closed : GenerationState

pub data H2DispatchKind : Type 0 where
  ordinary extended_connect : H2DispatchKind

pub data DispatchGateError : Type 0 where
  ineligible poisoned_gate : DispatchGateError

pub record GenerationControl : Type 0 where
  pub id : ℕ
  pub selectable : Bool
  pub state : GenerationState
  pub poisoned : Bool
  pub retirement : Bool

abbrev pub new_control : ℕ → GenerationControl
new_control id = record {
  id = id;
  selectable = false;
  state = proving;
  poisoned = false;
  retirement = false;
}

installed :
    GenerationState → Bool → GenerationControl → Result (Unit {0}) (Unit {0}) × GenerationControl
installed proving enabled c =
    (ok tt, record c { state = if enabled then live_enabled else live_disabled; selectable = true })
installed _ enabled c = (err tt, c)

unfoldable pub install_initial :
    Bool → GenerationControl → Result (Unit {0}) (Unit {0}) × GenerationControl
unfolding installed
install_initial enabled c = if c.poisoned then (err tt, c) else installed c.state enabled c

revoked_from : GenerationState → GenerationControl → GenerationControl
revoked_from live_enabled c = record c { state = revoked; selectable = false; retirement = true }
revoked_from _ c = c

unfoldable pub revoke_if_enabled : GenerationControl → GenerationControl
unfolding revoked_from
revoke_if_enabled c =
    if c.poisoned
    then record c { selectable = false; retirement = true }
    else revoked_from c.state c

is_live_enabled : GenerationState → Bool
is_live_enabled live_enabled = true
is_live_enabled _ = false

unfoldable pub permits_extended_connect : GenerationControl → Bool
unfolding is_live_enabled
permits_extended_connect c = not c.poisoned && is_live_enabled c.state

matches : GenerationState → Bool → Bool
matches live_enabled true = true
matches live_disabled false = true
matches _ _ = false

unfoldable pub initial_state_matches : Bool → GenerationControl → Bool
unfolding matches
initial_state_matches extended c = not c.poisoned && matches c.state extended

allows : GenerationState → H2DispatchKind → Bool
allows live_disabled ordinary = true
allows live_disabled extended_connect = false
allows live_enabled kind = true
allows proving kind = false
allows revoked kind = false
allows retiring kind = false
allows closed kind = false

-- `enqueue` runs under the lock: `none` is its panic, which poisons the mutex. The outer `none` is the
-- panic passed on.
enqueued :
    {R : Type 0}
    → Option R
    → GenerationControl
    → Option (Result DispatchGateError R) × GenerationControl
enqueued none c = (none, record c { poisoned = true })
enqueued (some r) c = (some (ok r), c)

unfoldable pub linearize_dispatch :
    {R : Type 0}
    → H2DispatchKind
    → Option R
    → GenerationControl
    → Option (Result DispatchGateError R) × GenerationControl
unfolding allows enqueued
linearize_dispatch kind enqueue c =
    if c.poisoned
    then (some (err poisoned_gate), c)
    else if not (allows c.state kind)
    then (some (err ineligible), c)
    else enqueued enqueue c

-- selectable.store(false, Ordering::Release), outside the lock
unfoldable pub deselect : GenerationControl → GenerationControl
deselect c = record c { selectable = false }

retired : GenerationState → GenerationState
retired closed = closed
retired _ = retiring

-- The locked part of `mark_retiring`.
unfoldable pub retire_locked : GenerationControl → GenerationControl
unfolding retired
retire_locked c = if c.poisoned then c else record c { state = retired c.state }

-- The locked part of `mark_closed`.
unfoldable pub close_locked : GenerationControl → GenerationControl
close_locked c = if c.poisoned then c else record c { state = closed }

unfoldable pub mark_retiring : GenerationControl → GenerationControl
unfolding deselect retire_locked
mark_retiring c = retire_locked (deselect c)

unfoldable pub mark_closed : GenerationControl → GenerationControl
unfolding deselect close_locked
mark_closed c = close_locked (deselect c)

is_over : GenerationState → Bool
is_over revoked = true
is_over retiring = true
is_over closed = true
is_over _ = false

unfoldable pub io_must_fail : GenerationControl → Bool
unfolding is_over
io_must_fail c = c.poisoned || is_over c.state
