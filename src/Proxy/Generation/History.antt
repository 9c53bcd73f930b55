-- ===== src/Proxy/Generation/History.antt =====
-- src/proxy.rs: what the gate of a generation allows, against the history of the generation.
use auth_mini_gateway.Prelude.{
  ℕ, ◌≡◌, ◌≢◌, ◌↔◌, ◌⊎◌, inl, inr, refl, Bool, true, false, none, some, List, [], ◌∷◌, arith,
}
use auth_mini_gateway.Prelude.Result.{ok}
use auth_mini_gateway.Proxy.Generation.{
  GenerationState, proving, live_disabled, live_enabled, revoked, retiring, closed, H2DispatchKind,
  ordinary, extended_connect, GenerationControl, new_control, install_initial, revoke_if_enabled,
  linearize_dispatch, deselect, retire_locked, close_locked, allows,
}

-- The steps of all threads on one control, in the order in which they happen.
pub data Event : Type 0 where
  install : Bool → Event
  revoke unselect retire close : Event
  -- a dispatch whose `enqueue` returns, or panics
  dispatch panic : H2DispatchKind → Event

unfoldable pub act : Event → GenerationControl → GenerationControl
act (install enabled) c = (install_initial enabled c).1
act revoke c = revoke_if_enabled c
act unselect c = deselect c
act retire c = retire_locked c
act close c = close_locked c
act (dispatch kind) c = (linearize_dispatch {R = Unit} kind (some tt) c).1
act (panic kind) c = (linearize_dispatch {R = Unit} kind none c).1

-- The control after a history, whose latest event stands first.
unfoldable pub control_after : ℕ → List Event → GenerationControl
control_after id [] = new_control id
control_after id (e ∷ history) = act e (control_after id history)

-- An extended CONNECT asks for a generation that enabled it.
abbrev pub Suits : H2DispatchKind → Bool → Type 0
Suits ordinary enabled = Unit
Suits extended_connect enabled = enabled ≡ true

-- What does not end a generation that was installed so.
abbrev pub Keeps : Bool → Event → Type 0
Keeps enabled revoke = enabled ≡ false
Keeps enabled retire = ⊥
Keeps enabled close = ⊥
Keeps enabled (panic kind) = Suits kind enabled → ⊥
Keeps enabled _ = Unit

-- Nothing has happened that decides about the generation.
abbrev pub Opens : Event → Type 0
Opens (install enabled) = ⊥
Opens retire = ⊥
Opens close = ⊥
Opens _ = Unit

abbrev pub Fresh : List Event → Type 0
Fresh [] = Unit
Fresh (e ∷ history) = Opens e × Fresh history

-- The first decision was the installation, and nothing has ended the generation since.
abbrev pub IsLiveAs : Bool → List Event → Type 0
IsLiveAs enabled [] = ⊥
IsLiveAs enabled (e ∷ history) =
    ((e ≡ install enabled) × Fresh history) ⊎ (Keeps enabled e × IsLiveAs enabled history)

live : Bool → GenerationState
live true = live_enabled
live false = live_disabled

abbrev Stands : GenerationState → GenerationControl → Type 0
Stands state c = (c.state ≡ state) × (c.poisoned ≡ false)

Opens-act :
    (e : Event) (c : GenerationControl) → Opens e → Stands proving c → Stands proving (act e c)
unfolding act revoke_if_enabled linearize_dispatch deselect
Opens-act (install enabled) c o h = absurd o
Opens-act revoke c o h = ground arith
Opens-act unselect c o h = ground arith
Opens-act retire c o h = absurd o
Opens-act close c o h = absurd o
Opens-act (dispatch kind) c o h = ground arith
Opens-act (panic kind) c o h = ground arith

Opens-back :
    (e : Event) (c : GenerationControl) → Stands proving (act e c) → Opens e × Stands proving c
unfolding act revoke_if_enabled linearize_dispatch deselect install_initial retire_locked
    close_locked
Opens-back (install true) c h = absurd (ground arith)
Opens-back (install false) c h = absurd (ground arith)
Opens-back revoke c h = ground arith
Opens-back unselect c h = ground arith
Opens-back retire c h = absurd (ground arith)
Opens-back close c h = absurd (ground arith)
Opens-back (dispatch kind) c h = ground arith
Opens-back (panic kind) c h = ground arith

Keeps-act :
    (b : Bool) (e : Event) (c : GenerationControl)
    → Keeps b e
    → Stands (live b) c
    → Stands (live b) (act e c)
unfolding act revoke_if_enabled linearize_dispatch deselect install_initial live
Keeps-act true (install enabled) c k h = ground arith
Keeps-act true revoke c k h = absurd (ground arith)
Keeps-act true unselect c k h = ground arith
Keeps-act true retire c k h = absurd k
Keeps-act true close c k h = absurd k
Keeps-act true (dispatch kind) c k h = ground arith
Keeps-act true (panic ordinary) c k h = absurd (k tt)
Keeps-act true (panic extended_connect) c k h = absurd (k refl)
Keeps-act false (install enabled) c k h = ground arith
Keeps-act false revoke c k h = ground arith
Keeps-act false unselect c k h = ground arith
Keeps-act false retire c k h = absurd k
Keeps-act false close c k h = absurd k
Keeps-act false (dispatch kind) c k h = ground arith
Keeps-act false (panic ordinary) c k h = absurd (k tt)
Keeps-act false (panic extended_connect) c k h = ground arith

proving_or : (c : GenerationControl) → (c.state ≡ proving) ⊎ (c.state ≢ proving)
proving_or c = go c.state
  where
    go : (state : GenerationState) → (state ≡ proving) ⊎ (state ≢ proving)
    go proving = inl refl
    go live_disabled = inr (λ e. cc)
    go live_enabled = inr (λ e. cc)
    go revoked = inr (λ e. cc)
    go retiring = inr (λ e. cc)
    go closed = inr (λ e. cc)

Keeps-back :
    (b : Bool) (e : Event) (c : GenerationControl)
    → Stands (live b) (act e c)
    → ((e ≡ install b) × Stands proving c) ⊎ (Keeps b e × Stands (live b) c)
unfolding act revoke_if_enabled linearize_dispatch deselect install_initial retire_locked
    close_locked live
Keeps-back true (install true) c h = elim (proving_or c) [
  | inl p ↦ inl (refl, ground arith)
  | inr q ↦ inr (tt, ground arith)
]
Keeps-back true (install false) c h = inr (tt, ground arith)
Keeps-back true revoke c h = absurd (ground arith)
Keeps-back true unselect c h = inr (tt, h)
Keeps-back true retire c h = absurd (ground arith)
Keeps-back true close c h = absurd (ground arith)
Keeps-back true (dispatch kind) c h = inr (tt, ground arith)
Keeps-back true (panic ordinary) c h = absurd (ground arith)
Keeps-back true (panic extended_connect) c h = absurd (ground arith)
Keeps-back false (install false) c h = elim (proving_or c) [
  | inl p ↦ inl (refl, ground arith)
  | inr q ↦ inr (tt, ground arith)
]
Keeps-back false (install true) c h = inr (tt, ground arith)
Keeps-back false revoke c h = inr (refl, ground arith)
Keeps-back false unselect c h = inr (tt, h)
Keeps-back false retire c h = absurd (ground arith)
Keeps-back false close c h = absurd (ground arith)
Keeps-back false (dispatch kind) c h = inr (tt, ground arith)
Keeps-back false (panic ordinary) c h = absurd (ground arith)
Keeps-back false (panic extended_connect) c h = inr (λ e. cc, ground arith)

installs :
    (b : Bool) (c : GenerationControl) → Stands proving c → Stands (live b) (act (install b) c)
unfolding act install_initial live
installs true c h = ground arith
installs false c h = ground arith

never_live : (b : Bool) → proving ≡ live b → ⊥
unfolding live
never_live true e = cc
never_live false e = cc

live_or :
    (state : GenerationState)
    → allows state ordinary ≡ true
    → (state ≡ live_enabled) ⊎ (state ≡ live_disabled)
unfolding allows
live_or proving h = absurd (ground arith)
live_or live_disabled h = inr refl
live_or live_enabled h = inl refl
live_or revoked h = absurd (ground arith)
live_or retiring h = absurd (ground arith)
live_or closed h = absurd (ground arith)

gate :
    (kind : H2DispatchKind) (c : GenerationControl)
    → (linearize_dispatch {R = Unit} kind (some tt) c).0 ≡ some (ok tt)
    → (b : Bool) × Stands (live b) c × Suits kind b
unfolding linearize_dispatch live
gate extended_connect c q = (true, ground arith, refl)
gate ordinary c q = elim (live_or c.state (ground arith)) [
  | inl t ↦ (true, ground arith, tt)
  | inr f ↦ (false, ground arith, tt)
]

gate_back :
    (kind : H2DispatchKind) (c : GenerationControl) (b : Bool)
    → Stands (live b) c
    → Suits kind b
    → (linearize_dispatch {R = Unit} kind (some tt) c).0 ≡ some (ok tt)
unfolding linearize_dispatch live
gate_back ordinary c true h s = ground arith
gate_back ordinary c false h s = ground arith
gate_back extended_connect c true h s = ground arith
gate_back extended_connect c false h s = absurd (ground arith)

module _ (id : ℕ) where
  Fresh-Stands : (history : List Event) → Fresh history → Stands proving (control_after id history)
  unfolding control_after
  Fresh-Stands [] h = (refl, refl)
  Fresh-Stands (e ∷ history) (o, h) =
      Opens-act e (control_after id history) o (Fresh-Stands history h)

  Stands-Fresh : (history : List Event) → Stands proving (control_after id history) → Fresh history
  unfolding control_after
  Stands-Fresh [] h = tt
  Stands-Fresh (e ∷ history) h =
      let (o, s) = Opens-back e (control_after id history) h in (o, Stands-Fresh history s)

  IsLiveAs-Stands :
      (b : Bool) (history : List Event)
      → IsLiveAs b history
      → Stands (live b) (control_after id history)
  unfolding control_after
  IsLiveAs-Stands b [] h = absurd h
  IsLiveAs-Stands b (e ∷ history) (inl (i, fresh)) =
      rw i (installs b (control_after id history) (Fresh-Stands history fresh))
  IsLiveAs-Stands b (e ∷ history) (inr (k, h)) =
      Keeps-act b e (control_after id history) k (IsLiveAs-Stands b history h)

  Stands-IsLiveAs :
      (b : Bool) (history : List Event)
      → Stands (live b) (control_after id history)
      → IsLiveAs b history
  unfolding control_after
  Stands-IsLiveAs b [] h = never_live b h.0
  Stands-IsLiveAs b (e ∷ history) h = elim (Keeps-back b e (control_after id history) h) [
    | inl (i, s) ↦ inl (i, Stands-Fresh history s)
    | inr (k, s) ↦ inr (k, Stands-IsLiveAs b history s)
  ]

-- The gate lets a request through exactly if the history makes the generation live, for an extended
-- CONNECT with its protocol enabled.
pub linearize_dispatch_iff :
    (id : ℕ) (history : List Event) (kind : H2DispatchKind)
    → ((linearize_dispatch {R = Unit} kind (some tt) (control_after id history)).0 ≡ some (ok tt))
      ↔ ((enabled : Bool) × IsLiveAs enabled history × Suits kind enabled)
linearize_dispatch_iff id history kind = (
  λ q.
      let (b, s, suits) = gate kind (control_after id history) q in
      (b, Stands-IsLiveAs id b history s, suits),
  λ (b, h, suits).
      gate_back kind (control_after id history) b (IsLiveAs-Stands id b history h) suits,
)
