-- ===== src/Proxy/Frames/Settings.antt =====
-- src/proxy.rs: the scanner of server frames keeps the first SETTINGS that it has read.
use auth_mini_gateway.Prelude.{
  ℕ, zero, suc, ◌≡◌, ◌∙◌, subst, refl, Bool, true, false, ◌&&◌, Option, none, some, [], ◌∷◌, length,
  take, drop, min, ◌-◌, ◌%◌, ◌^◌, suc, ◌++◌, ◌==◌, ltb, arith, Bool-cases, inl, inr,
}
use auth_mini_gateway.Prelude.Result.{ok, err, Result-cases}
use auth_mini_gateway.Prelude.Text.{Str}
use auth_mini_gateway.Proxy.Frames.{
  InitialH2Settings, ServerFrameScanner, InboundObservation, ScannedPayload, skip, initial_settings,
  later_settings, begin_frame, begin_payload, consume_pair, pair_of, initial_pair, finish_frame,
  settings_of, Fed, Turn, done, again, if_finished, after_pair, pair_turn, skip_turn, payload_turn,
  begun, header_turn, turn, be24, be32, byte_at, feed_loop, feed, no_observation, opened,
}
use auth_mini_gateway.Proxy.Frames.Ready.{consume_pair-err}

abbrev pub is_initial : ScannedPayload → Bool
is_initial initial_settings = true
is_initial _ = false

abbrev pub is_known : Option InitialH2Settings → Bool
is_known none = false
is_known (some settings) = true

-- An initial frame is read only while no SETTINGS are known.
abbrev pub Fits : ServerFrameScanner → Type 0
Fits s = is_initial s.payload && is_known s.settings ≡ false

abbrev pub Follows : ServerFrameScanner → ServerFrameScanner → Type 0
Follows s s' =
    Fits s
    → Fits s'
      × ((settings : InitialH2Settings) → s.settings ≡ some settings → s'.settings ≡ some settings)

abbrev pub FedFollows : ServerFrameScanner → Fed → Type 0
FedFollows s (ok (o, s')) = Follows s s'
FedFollows s (err s') = Follows s s'

abbrev pub TurnFollows : ServerFrameScanner → Turn → Type 0
TurnFollows s (done fed) = FedFollows s fed
TurnFollows s (again s' o rest) = Follows s s'

Follows-same :
    (s s' : ServerFrameScanner) → s'.payload ≡ s.payload → s'.settings ≡ s.settings → Follows s s'
Follows-same s s' p q fits = (rw (p, q) fits, λ settings known. q ∙ known)

Follows-trans : (s t u : ServerFrameScanner) → Follows s t → Follows t u → Follows s u
Follows-trans s t u f g fits =
    let (fits', keeps) = f fits in
    let (fits'', keeps') = g fits' in
    (fits'', λ settings known. keeps' settings (keeps settings known))

FedFollows-trans :
    (s t : ServerFrameScanner) (fed : Fed) → Follows s t → FedFollows t fed → FedFollows s fed
FedFollows-trans s t (ok (o, u)) f g = Follows-trans s t u f g
FedFollows-trans s t (err u) f g = Follows-trans s t u f g

TurnFollows-trans :
    (s t : ServerFrameScanner) (next : Turn) → Follows s t → TurnFollows t next → TurnFollows s next
TurnFollows-trans s t (done fed) f g = FedFollows-trans s t fed f g
TurnFollows-trans s t (again u o rest) f g = Follows-trans s t u f g

some_inj : {A : Type 0} {a b : A} → some a ≡ some b → a ≡ b
some_inj q = cc

initial_pair-same :
    (s : ServerFrameScanner) (id value : ℕ) {s' : ServerFrameScanner}
    → initial_pair s id value ≡ ok s'
    → (s'.payload ≡ s.payload) × (s'.settings ≡ s.settings)
unfolding initial_pair
initial_pair-same s id value q = ground arith

pair_of-same :
    (p : ScannedPayload) (s : ServerFrameScanner) (id value : ℕ) {s' : ServerFrameScanner}
    → pair_of p s id value ≡ ok s'
    → (s'.payload ≡ s.payload) × (s'.settings ≡ s.settings)
unfolding pair_of
pair_of-same skip s id value q = ground arith
pair_of-same initial_settings s id value q = initial_pair-same s id value q
pair_of-same later_settings s id value q = ground arith

consume_pair-same :
    (s : ServerFrameScanner) {s' : ServerFrameScanner}
    → consume_pair s ≡ ok s'
    → (s'.payload ≡ s.payload) × (s'.settings ≡ s.settings)
unfolding consume_pair
consume_pair-same s q = pair_of-same s.payload s _ _ q

begin_payload-Follows :
    (s : ServerFrameScanner) (n frame_type flags stream : ℕ) (settings : Option InitialH2Settings)
    {s' : ServerFrameScanner}
    → s.settings ≡ settings
    → begin_payload s n frame_type flags stream settings ≡ ok s'
    → (s'.settings ≡ s.settings) × (is_initial s'.payload && is_known settings ≡ false)
unfolding begin_payload
begin_payload-Follows s n frame_type flags stream none k q = ground arith
begin_payload-Follows s n frame_type flags stream (some settings) k q = ground arith

finish_frame-Follows :
    (p : ScannedPayload) (s : ServerFrameScanner) (o : InboundObservation)
    → s.payload ≡ p
    → Follows s (finish_frame s o).1
unfolding finish_frame settings_of
finish_frame-Follows skip s o e fits = rw e (refl, λ settings known. known)
finish_frame-Follows later_settings s o e fits = rw e (refl, λ settings known. known)
finish_frame-Follows initial_settings s o e fits = (
  refl,
  λ settings known.
      let other : is_initial initial_settings && is_known (some settings) ≡ false =
        subst (λ p. is_initial p && is_known (some settings) ≡ false) e
          (subst (λ k. is_initial s.payload && is_known k ≡ false) known fits) in
      absurd (ground arith),
)

begin_payload-err_same :
    (s : ServerFrameScanner) (n frame_type flags stream : ℕ) (settings : Option InitialH2Settings)
    {s' : ServerFrameScanner}
    → begin_payload s n frame_type flags stream settings ≡ err s'
    → (s'.payload ≡ s.payload) × (s'.settings ≡ s.settings)
unfolding begin_payload
begin_payload-err_same s n frame_type flags stream none q = ground arith
begin_payload-err_same s n frame_type flags stream (some settings) q = ground arith

begin_frame-ok-Follows :
    (s : ServerFrameScanner) {s' : ServerFrameScanner} → begin_frame s ≡ ok s' → Follows s s'
unfolding begin_frame
begin_frame-ok-Follows s q fits =
    let (same, first) =
      begin_payload-Follows (opened s) (be24 0 s.header) (byte_at 3 s.header) (byte_at 4 s.header)
        (be32 5 s.header % 2 ^ 31) s.settings refl q in
    (rw same first, λ settings known. same ∙ known)

begin_frame-err-Follows :
    (s : ServerFrameScanner) {s' : ServerFrameScanner} → begin_frame s ≡ err s' → Follows s s'
unfolding begin_frame
begin_frame-err-Follows s {s'} q =
    let (p, k) =
      begin_payload-err_same (opened s) (be24 0 s.header) (byte_at 3 s.header) (byte_at 4 s.header)
        (be32 5 s.header % 2 ^ 31) s.settings q in
    Follows-same s s' p k

module _ (o : InboundObservation) (rest : Str) where
  if_finished-Follows : (s : ServerFrameScanner) → TurnFollows s (if_finished s o rest)
  unfolding if_finished
  if_finished-Follows s = elim (Bool-cases (s.payload_remaining == 0)) [
    | inl t ↦ rw t (finish_frame-Follows s.payload s o refl)
    | inr f ↦ rw f (Follows-same s s refl refl)
  ]

  after_pair-Follows : (s : ServerFrameScanner) → TurnFollows s (after_pair o rest (consume_pair s))
  unfolding after_pair
  after_pair-Follows s = elim (Result-cases (consume_pair s)) [
    | inl (s', q) ↦ rw q (rw (consume_pair-err s q) (Follows-same s s refl refl))
    | inr (s', q) ↦ rw q (
        let (p, k) = consume_pair-same s q in
        TurnFollows-trans s (record s' { pair = [] }) (if_finished (record s' { pair = [] }) o rest)
          (Follows-same s (record s' { pair = [] }) p k)
          (if_finished-Follows (record s' { pair = [] })))
  ]

skip_turn-Follows :
    (s : ServerFrameScanner) (o : InboundObservation) (bytes : Str)
    → TurnFollows s (skip_turn s o bytes)
unfolding skip_turn
skip_turn-Follows s o bytes = if_finished-Follows o _ (record s { payload_remaining = _ })

pair_turn-Follows :
    (s : ServerFrameScanner) (o : InboundObservation) (bytes : Str)
    → TurnFollows s (pair_turn s o bytes)
unfolding pair_turn
pair_turn-Follows s o bytes =
    let copied = min (min (6 - length s.pair) s.payload_remaining) (length bytes) in
    let s' = record s {
      pair = s.pair ++ take copied bytes;
      payload_remaining = s.payload_remaining - copied;
    } in
    elim (Bool-cases (length s'.pair == 6)) [
      | inl t ↦ rw t (after_pair-Follows o (drop copied bytes) s')
      | inr f ↦ rw f (if_finished-Follows o (drop copied bytes) s')
    ]

payload_turn-Follows :
    (p : ScannedPayload) (s : ServerFrameScanner) (o : InboundObservation) (bytes : Str)
    → TurnFollows s (payload_turn p s o bytes)
unfolding payload_turn
payload_turn-Follows skip s o bytes = skip_turn-Follows s o bytes
payload_turn-Follows initial_settings s o bytes = pair_turn-Follows s o bytes
payload_turn-Follows later_settings s o bytes = pair_turn-Follows s o bytes

begun-Follows :
    (s : ServerFrameScanner) (o : InboundObservation) (rest : Str)
    → TurnFollows s (begun o rest (begin_frame s))
unfolding begun
begun-Follows s o rest = elim (Result-cases (begin_frame s)) [
  | inl (s', q) ↦ rw q (begin_frame-err-Follows s q)
  | inr (s', q) ↦ elim (Bool-cases (s'.payload_remaining == 0)) [
    | inl t ↦
        rw (q, t)
          (Follows-trans s s' (finish_frame s' o).1 (begin_frame-ok-Follows s q)
            (finish_frame-Follows s'.payload s' o refl))
    | inr f ↦
        rw (q, f)
          (TurnFollows-trans s s' (payload_turn s'.payload s' o rest) (begin_frame-ok-Follows s q)
            (payload_turn-Follows s'.payload s' o rest))
  ]
]

header_turn-Follows :
    (s : ServerFrameScanner) (o : InboundObservation) (bytes : Str)
    → TurnFollows s (header_turn s o bytes)
unfolding header_turn
header_turn-Follows s o bytes =
    let copied = min (9 - length s.header) (length bytes) in
    let s' = record s { header = s.header ++ take copied bytes } in
    elim (Bool-cases (ltb (length s'.header) 9)) [
      | inl t ↦ rw t (Follows-same s s' refl refl)
      | inr f ↦ rw f (begun-Follows s' o (drop copied bytes))
    ]

pub turn-Follows :
    (s : ServerFrameScanner) (o : InboundObservation) (bytes : Str) → TurnFollows s (turn s o bytes)
unfolding turn
turn-Follows s o bytes = elim (Bool-cases (s.payload_remaining == 0)) [
  | inl t ↦ rw t (header_turn-Follows s o bytes)
  | inr f ↦ rw f (payload_turn-Follows s.payload s o bytes)
]

feed_loop-Follows :
    (fuel : ℕ) (s : ServerFrameScanner) (o : InboundObservation) (bytes : Str) {fed : Fed}
    → feed_loop fuel s o bytes ≡ some fed
    → FedFollows s fed
unfolding feed_loop
feed_loop-Follows fuel s o [] q = subst (FedFollows s) (some_inj q) (Follows-same s s refl refl)
feed_loop-Follows zero s o (b ∷ bs) q = absurd (ground arith)
feed_loop-Follows (suc fuel) s o (b ∷ bs) {fed} q =
    go (turn s o (b ∷ bs)) (turn-Follows s o (b ∷ bs)) q
      (λ s' o' rest. feed_loop-Follows fuel s' o' rest)
  where
    go :
        (t : Turn)
        → TurnFollows s t
        → elim t [ done fed ↦ some fed | again s' o' rest ↦ feed_loop fuel s' o' rest ] ≡ some fed
        → ((s' : ServerFrameScanner) (o' : InboundObservation) (rest : Str)
            → feed_loop fuel s' o' rest ≡ some fed
            → FedFollows s' fed)
        → FedFollows s fed
    go (done f) h q ih = subst (FedFollows s) (some_inj q) h
    go (again s' o' rest) h q ih = FedFollows-trans s s' fed h (ih s' o' rest q)

-- A feed keeps the SETTINGS that are known, also where it fails.
pub feed-Follows :
    (s : ServerFrameScanner) (bytes : Str) {fed : Fed} → feed s bytes ≡ some fed → FedFollows s fed
unfolding feed
feed-Follows s bytes q = feed_loop-Follows (length bytes) s no_observation bytes q
