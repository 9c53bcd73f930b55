-- ===== src/Proxy/Frames/Passes.antt =====
-- src/proxy.rs: every pass of the scanner's loop takes a byte, and leaves the scanner ready.
use auth_mini_gateway.Prelude.{
  ℕ, zero, suc, ◌+◌, ◌-◌, ◌≤◌, ◌<◌, ◌≡◌, ◌≢◌, refl, ap, ◌∙◌, min, true, false, [], ◌∷◌, ◌++◌,
  append-nil, length, length-append, take, drop, ltb, ◌==◌, arith, Bool-cases, inl, inr,
}
use auth_mini_gateway.Prelude.Result.{ok, err, Result-cases}
use auth_mini_gateway.Prelude.Text.{Str}
use auth_mini_gateway.Proxy.Frames.{
  ServerFrameScanner, InboundObservation, ScannedPayload, skip, initial_settings, later_settings,
  begin_frame, consume_pair, finish_frame, Turn, done, again, if_finished, after_pair, pair_turn,
  skip_turn, payload_turn, begun, header_turn, turn,
}
use auth_mini_gateway.Proxy.Frames.Ready.{
  IsReady, empty_pair-IsReady, consume_pair-err, consume_pair-ok, begin_frame-err, begin_frame-ok,
  moved-IsReady,
}

-- After a pass: the scanner is ready, and at most so many bytes are left.
abbrev pub Leaves : ℕ → Turn → Type 0
Leaves n (done (ok (o, s))) = IsReady s
Leaves n (done (err s)) = IsReady s
Leaves n (again s o rest) = IsReady s × (length rest ≤ n)

pub length-drop : (n : ℕ) (xs : Str) → length (drop n xs) ≡ length xs - n
unfolding drop
length-drop zero xs = omega arith
length-drop (suc n) [] = omega arith
length-drop (suc n) (x ∷ xs) = omega (arith, length-drop n xs)

module _ (o : InboundObservation) (n : ℕ) (rest : Str) (short : length rest ≤ n) where
  Leaves-finish :
      (s : ServerFrameScanner)
      → length s.header < 9
      → Leaves n (again (finish_frame s o).1 (finish_frame s o).0 rest)
  unfolding finish_frame
  Leaves-finish s h = (empty_pair-IsReady _ h refl, short)

  Leaves-if_finished : (s : ServerFrameScanner) → IsReady s → Leaves n (if_finished s o rest)
  unfolding if_finished
  Leaves-if_finished s ready = elim (Bool-cases (s.payload_remaining == 0)) [
    | inl t ↦ rw t (Leaves-finish s ready.header_room)
    | inr f ↦ rw f (ready, short)
  ]

  Leaves-after_pair :
      (s : ServerFrameScanner)
      → length s.header < 9
      → length s.pair ≡ 6
      → Leaves n (after_pair o rest (consume_pair s))
  unfolding after_pair
  Leaves-after_pair s h six = elim (Result-cases (consume_pair s)) [
    | inl (s', q) ↦
        let same = consume_pair-err s q in
        rw q (
          rw same
            (record { header_room = h; pair_room = omega arith; full = λ _. q ∙ ap err same }))
    | inr (s', q) ↦ rw q (
        Leaves-if_finished (record s' { pair = [] })
          (empty_pair-IsReady _ (rw (consume_pair-ok s q) h) refl))
  ]

length-take : (n : ℕ) (xs : Str) → n ≤ length xs → length (take n xs) ≡ n
unfolding take
length-take zero xs h = refl
length-take (suc n) [] h = absurd (omega arith)
length-take (suc n) (x ∷ xs) h = omega (arith, length-take n xs (omega arith))

module _ (o : InboundObservation) (b : ℕ) (r : Str) where
  -- A refused pair is refused again, and no byte is taken.
  pub pair_turn-full :
      (s : ServerFrameScanner)
      → IsReady s
      → length s.pair ≡ 6
      → pair_turn s o (b ∷ r) ≡ done (err s)
  unfolding pair_turn take drop after_pair
  pair_turn-full s ready six =
      let none_copied : min (min (6 - length s.pair) s.payload_remaining) (length (b ∷ r)) ≡ 0 =
        omega arith in
      let left : s.payload_remaining - 0 ≡ s.payload_remaining = omega arith in
      let test : (length s.pair == 6) ≡ true = ground arith in
      rw (none_copied, append-nil s.pair, left) (rw test (rw (ready.full six) refl))

  Leaves-pair_turn :
      (s : ServerFrameScanner)
      → IsReady s
      → s.payload_remaining ≢ 0
      → length s.pair < 6
      → Leaves (length r) (pair_turn s o (b ∷ r))
  unfolding pair_turn
  Leaves-pair_turn s ready open_frame room =
      let copied = min (min (6 - length s.pair) s.payload_remaining) (length (b ∷ r)) in
      let s' = record s {
        pair = s.pair ++ take copied (b ∷ r);
        payload_remaining = s.payload_remaining - copied;
      } in
      let rest = drop copied (b ∷ r) in
      let size : length s'.pair ≡ length s.pair + copied = omega (
        arith,
        length-append s.pair (take copied (b ∷ r)),
        length-take copied (b ∷ r) (omega arith),
      ) in
      let short : length rest ≤ length r = omega (arith, length-drop copied (b ∷ r)) in
      elim (Bool-cases (length s'.pair == 6)) [
        | inl t ↦
            rw t (Leaves-after_pair o (length r) rest short s' ready.header_room (ground arith))
        | inr f ↦ rw f (
            Leaves-if_finished o (length r) rest short s' (record {
              header_room = ready.header_room;
              pair_room = omega arith;
              full = λ six. absurd (ground arith);
            }))
      ]

  Leaves-any_pair :
      (s : ServerFrameScanner)
      → IsReady s
      → s.payload_remaining ≢ 0
      → Leaves (length r) (pair_turn s o (b ∷ r))
  Leaves-any_pair s ready open_frame = elim (Bool-cases (length s.pair == 6)) [
    | inl t ↦ rw (pair_turn-full s ready (ground arith)) ready
    | inr f ↦ Leaves-pair_turn s ready open_frame (ground (arith, ready.pair_room))
  ]

  Leaves-skip_turn :
      (s : ServerFrameScanner)
      → IsReady s
      → s.payload_remaining ≢ 0
      → Leaves (length r) (skip_turn s o (b ∷ r))
  unfolding skip_turn
  Leaves-skip_turn s ready open_frame =
      let skipped = min s.payload_remaining (length (b ∷ r)) in
      Leaves-if_finished o (length r) (drop skipped (b ∷ r))
        (omega (arith, length-drop skipped (b ∷ r)))
        (record s { payload_remaining = s.payload_remaining - skipped })
        (moved-IsReady s s.header (s.payload_remaining - skipped) ready ready.header_room)

  Leaves-payload_turn :
      (p : ScannedPayload) (s : ServerFrameScanner)
      → IsReady s
      → s.payload_remaining ≢ 0
      → Leaves (length r) (payload_turn p s o (b ∷ r))
  unfolding payload_turn
  Leaves-payload_turn skip s ready open_frame = Leaves-skip_turn s ready open_frame
  Leaves-payload_turn initial_settings s ready open_frame = Leaves-any_pair s ready open_frame
  Leaves-payload_turn later_settings s ready open_frame = Leaves-any_pair s ready open_frame

Leaves-more : (m n : ℕ) → m ≤ n → (t : Turn) → Leaves m t → Leaves n t
Leaves-more m n le (done (ok (o, s))) ready = ready
Leaves-more m n le (done (err s)) ready = ready
Leaves-more m n le (again s o rest) (ready, short) = (ready, omega arith)

skip_turn-nil :
    (s : ServerFrameScanner) (o : InboundObservation)
    → s.payload_remaining ≢ 0
    → skip_turn s o [] ≡ again s o []
unfolding skip_turn drop if_finished
skip_turn-nil s o open_frame =
    let nothing_skipped : min s.payload_remaining 0 ≡ 0 = omega arith in
    let left : s.payload_remaining - 0 ≡ s.payload_remaining = omega arith in
    let test : (s.payload_remaining == 0) ≡ false = ground arith in
    rw (nothing_skipped, left, test) refl

pair_turn-nil :
    (s : ServerFrameScanner) (o : InboundObservation)
    → s.payload_remaining ≢ 0
    → length s.pair ≡ 0
    → pair_turn s o [] ≡ again s o []
unfolding pair_turn take drop if_finished
pair_turn-nil s o open_frame nothing =
    let none_copied : min (min (6 - length s.pair) s.payload_remaining) 0 ≡ 0 = omega arith in
    let left : s.payload_remaining - 0 ≡ s.payload_remaining = omega arith in
    let test : (s.payload_remaining == 0) ≡ false = ground arith in
    let short : (length s.pair == 6) ≡ false = ground arith in
    rw (none_copied, append-nil s.pair, left) (rw (short, test) refl)

pub payload_turn-nil :
    (p : ScannedPayload) (s : ServerFrameScanner) (o : InboundObservation)
    → s.payload_remaining ≢ 0
    → length s.pair ≡ 0
    → payload_turn p s o [] ≡ again s o []
unfolding payload_turn
payload_turn-nil skip s o open_frame nothing = skip_turn-nil s o open_frame
payload_turn-nil initial_settings s o open_frame nothing = pair_turn-nil s o open_frame nothing
payload_turn-nil later_settings s o open_frame nothing = pair_turn-nil s o open_frame nothing

module _ (o : InboundObservation) (b : ℕ) (r : Str) where
  Leaves-begun :
      (rest : Str)
      → length rest ≤ length r
      → (s : ServerFrameScanner) → length s.header < 9
      → length s.pair ≡ 0
      → Leaves (length r) (begun o rest (ok s))
  unfolding begun
  Leaves-begun rest short s room nothing = elim (Bool-cases (s.payload_remaining == 0)) [
    | inl t ↦ rw t (Leaves-finish o (length r) rest short s room)
    | inr f ↦ rw f (go (ground arith) rest short)
  ]
    where
      go :
          s.payload_remaining ≢ 0
          → (rest : Str) → length rest ≤ length r
          → Leaves (length r) (payload_turn s.payload s o rest)
      go open_frame [] short =
          rw (payload_turn-nil s.payload s o open_frame nothing)
            (empty_pair-IsReady s room nothing, omega arith)
      go open_frame (b' ∷ r') short =
          Leaves-more (length r') (length r) (omega arith) (payload_turn s.payload s o (b' ∷ r'))
            (Leaves-payload_turn o b' r' s.payload s (empty_pair-IsReady s room nothing) open_frame)

  Leaves-header_turn :
      (s : ServerFrameScanner) → IsReady s → Leaves (length r) (header_turn s o (b ∷ r))
  unfolding header_turn begun
  Leaves-header_turn s ready =
      let copied = min (9 - length s.header) (length (b ∷ r)) in
      let s' = record s { header = s.header ++ take copied (b ∷ r) } in
      let rest = drop copied (b ∷ r) in
      let short : length rest ≤ length r =
        omega (arith, ready.header_room, length-drop copied (b ∷ r)) in
      elim (Bool-cases (ltb (length s'.header) 9)) [
        | inl t ↦ rw t (moved-IsReady s s'.header s.payload_remaining ready (ground arith))
        | inr f ↦ rw f (elim (Result-cases (begin_frame s')) [
          | inl (s2, q) ↦ rw q (
              empty_pair-IsReady s2 (rw (begin_frame-err s' q).0 (omega arith))
                (ap length (begin_frame-err s' q).1))
          | inr (s2, q) ↦ rw q (
              Leaves-begun rest short s2 (rw (begin_frame-ok s' q).0 (omega arith))
                (ap length (begin_frame-ok s' q).1))
        ])
      ]

pub Leaves-turn :
    (s : ServerFrameScanner) (o : InboundObservation) (b : ℕ) (r : Str)
    → IsReady s
    → Leaves (length r) (turn s o (b ∷ r))
unfolding turn
Leaves-turn s o b r ready = elim (Bool-cases (s.payload_remaining == 0)) [
  | inl t ↦ rw t (Leaves-header_turn o b r s ready)
  | inr f ↦ rw f (Leaves-payload_turn o b r s.payload s ready (ground arith))
]
