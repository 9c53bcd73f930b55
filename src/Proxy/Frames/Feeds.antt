-- ===== src/Proxy/Frames/Feeds.antt =====
-- src/proxy.rs: what the scanner reports behind an earlier observation.
use auth_mini_gateway.Prelude.{
  ℕ, ◌≡◌, refl, ap, sym, ◌∙◌, ◌||◌, Option, none, some, [], ◌∷◌, ◌++◌, length, ltb, ◌==◌, min, take,
  drop, ◌-◌, arith, Bool-cases, inl, inr,
}
use auth_mini_gateway.Prelude.Result.{Result, ok, err, ◌>>=◌}
use auth_mini_gateway.Prelude.Text.{Str}
use auth_mini_gateway.Proxy.Frames.{
  InitialH2Settings, ServerFrameScanner, InboundObservation, ScannedPayload, skip, initial_settings,
  later_settings, begin_frame, consume_pair, finish_frame, observed, is_disabled, Fed, Turn, done,
  again, if_finished, after_pair, pair_turn, skip_turn, payload_turn, begun, header_turn, turn,
  no_observation,
}
use auth_mini_gateway.Proxy.Frames.Bytes.{settled, byte, bytes}

or_else : Option InitialH2Settings → Option InitialH2Settings → Option InitialH2Settings
or_else none settings = settings
or_else (some settings) _ = some settings

-- An observation behind an earlier one.
unfoldable pub join : InboundObservation → InboundObservation → InboundObservation
unfolding or_else
join earlier later = record {
  initial = or_else later.initial earlier.initial;
  revoke = later.revoke || earlier.revoke;
}

unfoldable pub behind : InboundObservation → Fed → Fed
behind o (ok (o', s)) = ok (join o o', s)
behind o (err s) = err s

turn_behind : InboundObservation → Turn → Turn
turn_behind o (done fed) = done (behind o fed)
turn_behind o (again s o' rest) = again s (join o o') rest

join_assoc : (a b c : InboundObservation) → join a (join b c) ≡ join (join a b) c
unfolding join
join_assoc a b c = ground arith

module _ (o : InboundObservation) where
  observed-behind :
      (p : ScannedPayload) (s : ServerFrameScanner)
      → observed p s o ≡ join o (observed p s no_observation)
  unfolding observed join
  observed-behind skip s = refl
  observed-behind initial_settings s = refl
  observed-behind later_settings s = elim (Bool-cases (is_disabled s.frame_extended_connect)) [
    | inl t ↦ rw t refl
    | inr f ↦ rw f refl
  ]

  finish_frame-behind :
      (s : ServerFrameScanner)
      → finish_frame s o
        ≡ (join o (finish_frame s no_observation).0, (finish_frame s no_observation).1)
  unfolding finish_frame
  finish_frame-behind s =
      ap (λ x. (x, (finish_frame s no_observation).1)) (observed-behind s.payload s)

  if_finished-behind :
      (s : ServerFrameScanner) (rest : Str)
      → if_finished s o rest ≡ turn_behind o (if_finished s no_observation rest)
  unfolding if_finished turn_behind join
  if_finished-behind s rest = elim (Bool-cases (s.payload_remaining == 0)) [
    | inl z ↦ rw z (rw (finish_frame-behind s) refl)
    | inr nz ↦ rw nz refl
  ]

  after_pair-behind :
      (rest : Str) (x : Result ServerFrameScanner ServerFrameScanner)
      → after_pair o rest x ≡ turn_behind o (after_pair no_observation rest x)
  unfolding after_pair turn_behind behind
  after_pair-behind rest (err s) = refl
  after_pair-behind rest (ok s) = if_finished-behind (record s { pair = [] }) rest

  pair_turn-behind :
      (s : ServerFrameScanner) (xs : Str)
      → pair_turn s o xs ≡ turn_behind o (pair_turn s no_observation xs)
  unfolding pair_turn
  pair_turn-behind s xs =
      let copied = min (min (6 - length s.pair) s.payload_remaining) (length xs) in
      let s' = record s {
        pair = s.pair ++ take copied xs;
        payload_remaining = s.payload_remaining - copied;
      } in
      elim (Bool-cases (length s'.pair == 6)) [
        | inl t ↦ rw t (after_pair-behind (drop copied xs) (consume_pair s'))
        | inr f ↦ rw f (if_finished-behind s' (drop copied xs))
      ]

  payload_turn-behind :
      (p : ScannedPayload) (s : ServerFrameScanner) (xs : Str)
      → payload_turn p s o xs ≡ turn_behind o (payload_turn p s no_observation xs)
  unfolding payload_turn skip_turn
  payload_turn-behind skip s xs =
      let skipped = min s.payload_remaining (length xs) in
      if_finished-behind (record s { payload_remaining = s.payload_remaining - skipped })
        (drop skipped xs)
  payload_turn-behind initial_settings s xs = pair_turn-behind s xs
  payload_turn-behind later_settings s xs = pair_turn-behind s xs

  begun-behind :
      (rest : Str) (x : Result ServerFrameScanner ServerFrameScanner)
      → begun o rest x ≡ turn_behind o (begun no_observation rest x)
  unfolding begun turn_behind behind
  begun-behind rest (err s) = refl
  begun-behind rest (ok s) = elim (Bool-cases (s.payload_remaining == 0)) [
    | inl z ↦ rw z (rw (finish_frame-behind s) refl)
    | inr nz ↦ rw nz (payload_turn-behind s.payload s rest)
  ]

  header_turn-behind :
      (s : ServerFrameScanner) (xs : Str)
      → header_turn s o xs ≡ turn_behind o (header_turn s no_observation xs)
  unfolding header_turn turn_behind behind join
  header_turn-behind s xs =
      let copied = min (9 - length s.header) (length xs) in
      let s' = record s { header = s.header ++ take copied xs } in
      elim (Bool-cases (ltb (length s'.header) 9)) [
        | inl t ↦ rw t refl
        | inr f ↦ rw f (begun-behind (drop copied xs) (begin_frame s'))
      ]

  turn-behind :
      (s : ServerFrameScanner) (xs : Str) → turn s o xs ≡ turn_behind o (turn s no_observation xs)
  unfolding turn
  turn-behind s xs = elim (Bool-cases (s.payload_remaining == 0)) [
    | inl z ↦ rw z (header_turn-behind s xs)
    | inr nz ↦ rw nz (payload_turn-behind s.payload s xs)
  ]

  settled-behind : (t : Turn) → settled (turn_behind o t) ≡ behind o (settled t)
  unfolding settled turn_behind behind
  settled-behind (done fed) = refl
  settled-behind (again s o' rest) = refl

  byte-behind : (s : ServerFrameScanner) (b : ℕ) → byte s o b ≡ behind o (byte s no_observation b)
  unfolding byte
  byte-behind s b =
      ap settled (turn-behind s (b ∷ [])) ∙ settled-behind (turn s no_observation (b ∷ []))

pub behind-behind :
    (a b : InboundObservation) (f : Fed) → behind a (behind b f) ≡ behind (join a b) f
unfolding behind
behind-behind a b (ok (o, s)) = ap (λ x. ok (x, s)) (join_assoc a b o)
behind-behind a b (err s) = refl

pub bytes-behind :
    (s : ServerFrameScanner) (o : InboundObservation) (xs : Str)
    → bytes s o xs ≡ behind o (bytes s no_observation xs)
unfolding bytes behind join
bytes-behind s o [] = refl
bytes-behind s o (b ∷ bs) =
    rw (byte-behind o s b) (go (λ s' o'. bytes-behind s' o' bs) (byte s no_observation b))
  where
    go :
        ((s' : ServerFrameScanner) (o' : InboundObservation)
          → bytes s' o' bs ≡ behind o' (bytes s' no_observation bs))
        → (f : Fed)
        → (behind o f >>= λ fed. bytes fed.1 fed.0 bs)
          ≡ behind o (f >>= λ fed. bytes fed.1 fed.0 bs)
    go ih (ok (o', s')) =
        ih s' (join o o')
        ∙ sym (behind-behind o o' (bytes s' no_observation bs))
        ∙ ap (behind o) (sym (ih s' o'))
    go ih (err s') = refl
