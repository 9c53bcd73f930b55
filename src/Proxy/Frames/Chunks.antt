-- ===== src/Proxy/Frames/Chunks.antt =====
-- src/proxy.rs: the scanner sees the same frames however the bytes are cut into reads.
use auth_mini_gateway.Prelude.{
  ℕ, zero, suc, ◌+◌, ◌-◌, ◌≤◌, ◌<◌, ◌≡◌, ◌≢◌, refl, ap, subst, sym, ◌∙◌, true, false, Option, some,
  [], ◌∷◌, length, ltb, ◌==◌, arith, Bool-cases, inl, inr,
}
use auth_mini_gateway.Prelude.Result.{ok, err, ◌>>=◌, Result-cases}
use auth_mini_gateway.Prelude.Text.{Str}
use auth_mini_gateway.Proxy.Frames.{
  ServerFrameScanner, InboundObservation, ScannedPayload, skip, initial_settings, later_settings,
  begin_frame, consume_pair, finish_frame, Fed, Turn, done, again, if_finished, after_pair,
  pair_turn, skip_turn, payload_turn, begun, header_turn, turn, feed_loop,
}
use auth_mini_gateway.Proxy.Frames.Bytes.{
  settled, byte, bytes, with_header, with_pair, without_one, header_turn-one, header_turn-more,
  skip_turn-one, skip_turn-more, paired, pair_turn-one, pair_turn-more,
}
use auth_mini_gateway.Proxy.Frames.Ready.{IsReady, begin_frame-ok}
use auth_mini_gateway.Proxy.Frames.Passes.{Leaves, Leaves-turn, payload_turn-nil, pair_turn-full}

-- What is left to do after a pass is what the bytes do one by one.
abbrev Serves : ServerFrameScanner → InboundObservation → Str → Turn → Type 0
Serves s o xs (done fed) = bytes s o xs ≡ fed
Serves s o xs (again s' o' rest) = bytes s o xs ≡ bytes s' o' rest

ok_id : (f : Fed) → (f >>= λ fed. bytes fed.1 fed.0 []) ≡ f
unfolding bytes
ok_id (ok (o, s)) = refl
ok_id (err s) = refl

Serves-one :
    (s : ServerFrameScanner) (o : InboundObservation) (b : ℕ)
    → IsReady s
    → Serves s o (b ∷ []) (turn s o (b ∷ []))
unfolding bytes byte
Serves-one s o b ready = go (turn s o (b ∷ [])) refl (Leaves-turn s o b [] ready)
  where
    go : (t : Turn) → turn s o (b ∷ []) ≡ t → Leaves 0 t → Serves s o (b ∷ []) t
    go (done fed) e h = rw e (ok_id fed)
    go (again s' o' []) e h = rw e refl
    go (again s' o' (x ∷ rest)) e h = absurd (omega (arith, h.1))

byte-IsReady :
    (s : ServerFrameScanner) (o : InboundObservation) (b : ℕ) {o' : InboundObservation}
    {s' : ServerFrameScanner}
    → IsReady s
    → byte s o b ≡ ok (o', s')
    → IsReady s'
unfolding byte
byte-IsReady s o b {o'} {s'} ready q = go (turn s o (b ∷ [])) (Leaves-turn s o b [] ready) q
  where
    go : (t : Turn) → Leaves 0 t → settled t ≡ ok (o', s') → IsReady s'
    go (done (ok (o2, s2))) h e = subst IsReady (ground arith) h
    go (done (err s2)) h e = absurd (ground arith)
    go (again s2 o2 rest) h e = subst IsReady (ground arith) h.0

turn-header :
    (s : ServerFrameScanner) (o : InboundObservation) (xs : Str)
    → s.payload_remaining ≡ 0
    → turn s o xs ≡ header_turn s o xs
unfolding turn
turn-header s o xs e = let t : (s.payload_remaining == 0) ≡ true = ground arith in rw t refl

turn-payload :
    (s : ServerFrameScanner) (o : InboundObservation) (xs : Str)
    → s.payload_remaining ≢ 0
    → turn s o xs ≡ payload_turn s.payload s o xs
unfolding turn
turn-payload s o xs e = let t : (s.payload_remaining == 0) ≡ false = ground arith in rw t refl

-- The first byte of at least two, with what holds of the others.
module _ (s : ServerFrameScanner) (o : InboundObservation) (b c : ℕ) (r : Str) (ready : IsReady s)
    (next : (s' : ServerFrameScanner) (o' : InboundObservation)
      → IsReady s'
      → Serves s' o' (c ∷ r) (turn s' o' (c ∷ r))) where
  Goal : Type 0
  Goal = Serves s o (b ∷ c ∷ r) (turn s o (b ∷ c ∷ r))

  continues :
      (s' : ServerFrameScanner) (o' : InboundObservation)
      → byte s o b ≡ ok (o', s')
      → turn s o (b ∷ c ∷ r) ≡ turn s' o' (c ∷ r)
      → Goal
  unfolding bytes Goal
  continues s' o' e t = rw t (go (turn s' o' (c ∷ r)) (next s' o' (byte-IsReady s o b ready e)))
    where
      go : (u : Turn) → Serves s' o' (c ∷ r) u → Serves s o (b ∷ c ∷ r) u
      go (done fed) h = rw e h
      go (again s2 o2 rest) h = rw e h

  completes :
      (s' : ServerFrameScanner) (o' : InboundObservation)
      → byte s o b ≡ ok (o', s')
      → turn s o (b ∷ c ∷ r) ≡ again s' o' (c ∷ r)
      → Goal
  unfolding bytes Goal
  completes s' o' e t = rw t (rw e refl)

  fails :
      (s' : ServerFrameScanner) → byte s o b ≡ err s' → turn s o (b ∷ c ∷ r) ≡ done (err s') → Goal
  unfolding bytes Goal
  fails s' e t = rw t (rw e refl)

  if_finished-Goal :
      (s' : ServerFrameScanner)
      → byte s o b ≡ settled (if_finished s' o [])
      → turn s o (b ∷ c ∷ r) ≡ if_finished s' o (c ∷ r)
      → Goal
  unfolding if_finished settled
  if_finished-Goal s' e t = elim (Bool-cases (s'.payload_remaining == 0)) [
    | inl z ↦ completes (finish_frame s' o).1 (finish_frame s' o).0 (e ∙ rw z refl) (t ∙ rw z refl)
    | inr nz ↦ completes s' o (e ∙ rw nz refl) (t ∙ rw nz refl)
  ]

  begun-Goal :
      (h : ServerFrameScanner)
      → byte s o b ≡ settled (begun o [] (begin_frame h))
      → turn s o (b ∷ c ∷ r) ≡ begun o (c ∷ r) (begin_frame h)
      → Goal
  unfolding begun settled
  begun-Goal h e t = elim (Result-cases (begin_frame h)) [
    | inl (s2, q) ↦ fails s2 (e ∙ rw q refl) (t ∙ rw q refl)
    | inr (s2, q) ↦ elim (Bool-cases (s2.payload_remaining == 0)) [
      | inl z ↦
          completes (finish_frame s2 o).1 (finish_frame s2 o).0 (e ∙ rw q (rw z refl))
            (t ∙ rw q (rw z refl))
      | inr nz ↦
          continues s2 o
            (e
              ∙ rw q (
                  rw nz (
                    ap settled (
                      payload_turn-nil s2.payload s2 o (ground arith)
                        (ap length (begin_frame-ok h q).1)))))
            (t ∙ rw q (rw nz (sym (turn-payload s2 o (c ∷ r) (ground arith)))))
    ]
  ]

  header-Goal : s.payload_remaining ≡ 0 → Goal
  unfolding byte settled
  header-Goal z =
      let on_byte = turn-header s o (b ∷ []) z in
      let on_all = turn-header s o (b ∷ c ∷ r) z in
      let one = header_turn-one s o b [] (omega (arith, ready.header_room)) in
      elim (Bool-cases (ltb (length s.header + 1) 9)) [
        | inl room ↦ continues (with_header s b) o (ap settled (on_byte ∙ one) ∙ rw room refl) (
            on_all
            ∙ header_turn-more s o b (c ∷ r) (ground arith)
            ∙ sym (turn-header (with_header s b) o (c ∷ r) z))
        | inr last ↦ begun-Goal (with_header s b) (ap settled (on_byte ∙ one) ∙ rw last refl) (
            on_all
            ∙ header_turn-one s o b (c ∷ r) (ground (arith, ready.header_room))
            ∙ rw last refl)
      ]

  skip-Goal :
      s.payload_remaining ≢ 0
      → ((s' : ServerFrameScanner) (xs : Str) → payload_turn s.payload s' o xs ≡ skip_turn s' o xs)
      → Goal
  unfolding byte if_finished
  skip-Goal open_frame p =
      let one =
        turn-payload s o (b ∷ []) open_frame
        ∙ p s (b ∷ [])
        ∙ skip_turn-one s o b [] (omega arith) in
      let all = turn-payload s o (b ∷ c ∷ r) open_frame ∙ p s (b ∷ c ∷ r) in
      elim (Bool-cases (s.payload_remaining - 1 == 0)) [
        | inl last ↦
            if_finished-Goal (without_one s) (ap settled one)
              (all ∙ skip_turn-one s o b (c ∷ r) (ground arith))
        | inr more ↦ continues (without_one s) o (ap settled one ∙ rw more refl) (
            all
            ∙ skip_turn-more s o b (c ∷ r) (ground arith)
            ∙ sym
                (turn-payload (without_one s) o (c ∷ r) (ground arith) ∙ p (without_one s) (c ∷ r)))
      ]

  after_pair-Goal :
      (h : ServerFrameScanner)
      → byte s o b ≡ settled (after_pair o [] (consume_pair h))
      → turn s o (b ∷ c ∷ r) ≡ after_pair o (c ∷ r) (consume_pair h)
      → Goal
  unfolding after_pair settled
  after_pair-Goal h e t = elim (Result-cases (consume_pair h)) [
    | inl (s2, q) ↦ fails s2 (e ∙ rw q refl) (t ∙ rw q refl)
    | inr (s2, q) ↦ if_finished-Goal (record s2 { pair = [] }) (e ∙ rw q refl) (t ∙ rw q refl)
  ]

  roomy_pair-Goal :
      s.payload_remaining ≢ 0
      → ((s' : ServerFrameScanner) (xs : Str) → payload_turn s.payload s' o xs ≡ pair_turn s' o xs)
      → length s.pair < 6
      → Goal
  unfolding byte paired if_finished
  roomy_pair-Goal open_frame p room =
      let one =
        turn-payload s o (b ∷ []) open_frame
        ∙ p s (b ∷ [])
        ∙ pair_turn-one s o b [] (omega arith) in
      let all = turn-payload s o (b ∷ c ∷ r) open_frame ∙ p s (b ∷ c ∷ r) in
      elim (Bool-cases (length s.pair + 1 == 6)) [
        | inl six ↦
            after_pair-Goal (with_pair s b) (ap settled one ∙ rw six refl)
              (all ∙ pair_turn-one s o b (c ∷ r) (ground arith) ∙ rw six refl)
        | inr five ↦ elim (Bool-cases (s.payload_remaining - 1 == 0)) [
          | inl last ↦
              if_finished-Goal (with_pair s b) (ap settled one ∙ rw five refl)
                (all ∙ pair_turn-one s o b (c ∷ r) (ground arith) ∙ rw five refl)
          | inr more ↦ continues (with_pair s b) o (ap settled one ∙ rw five (rw more refl)) (
              all
              ∙ pair_turn-more s o b (c ∷ r) (ground arith)
              ∙ sym (
                  turn-payload (with_pair s b) o (c ∷ r) (ground arith)
                  ∙ p (with_pair s b) (c ∷ r)))
        ]
      ]

  pair-Goal :
      s.payload_remaining ≢ 0
      → ((s' : ServerFrameScanner) (xs : Str) → payload_turn s.payload s' o xs ≡ pair_turn s' o xs)
      → Goal
  unfolding byte settled
  pair-Goal open_frame p = elim (Bool-cases (length s.pair == 6)) [
    | inl full ↦
        fails s (ap settled (on (b ∷ []) ∙ pair_turn-full o b [] s ready (ground arith)))
          (on (b ∷ c ∷ r) ∙ pair_turn-full o b (c ∷ r) s ready (ground arith))
    | inr room ↦ roomy_pair-Goal open_frame p (ground (arith, ready.pair_room))
  ]
    where
      on : (xs : Str) → turn s o xs ≡ pair_turn s o xs
      on xs = turn-payload s o xs open_frame ∙ p s xs

  any-Goal : Goal
  unfolding payload_turn
  any-Goal = elim (Bool-cases (s.payload_remaining == 0)) [
    | inl z ↦ header-Goal (ground arith)
    | inr nz ↦ go s.payload refl (ground arith)
  ]
    where
      go : (p : ScannedPayload) → s.payload ≡ p → s.payload_remaining ≢ 0 → Goal
      go skip e open_frame = skip-Goal open_frame (λ s' xs. rw e refl)
      go initial_settings e open_frame = pair-Goal open_frame (λ s' xs. rw e refl)
      go later_settings e open_frame = pair-Goal open_frame (λ s' xs. rw e refl)

turn-Serves :
    (r : Str) (s : ServerFrameScanner) (o : InboundObservation) (b : ℕ)
    → IsReady s
    → Serves s o (b ∷ r) (turn s o (b ∷ r))
unfolding Goal
turn-Serves [] s o b ready = Serves-one s o b ready
turn-Serves (c ∷ r) s o b ready =
    any-Goal s o b c r ready (λ s' o' ready'. turn-Serves r s' o' c ready')

-- With fuel for each byte the loop ends, and does what the bytes do one by one.
pub feed_loop-bytes :
    (fuel : ℕ) (s : ServerFrameScanner) (o : InboundObservation) (xs : Str)
    → IsReady s
    → length xs ≤ fuel
    → feed_loop fuel s o xs ≡ some (bytes s o xs)
unfolding feed_loop bytes
feed_loop-bytes fuel s o [] ready enough = refl
feed_loop-bytes zero s o (b ∷ bs) ready enough = absurd (omega arith)
feed_loop-bytes (suc fuel) s o (b ∷ bs) ready enough =
    go (turn s o (b ∷ bs)) (turn-Serves bs s o b ready) (Leaves-turn s o b bs ready)
      (λ s' o' rest. feed_loop-bytes fuel s' o' rest)
  where
    go :
        (t : Turn)
        → Serves s o (b ∷ bs) t
        → Leaves (length bs) t
        → ((s' : ServerFrameScanner) (o' : InboundObservation) (rest : Str)
            → IsReady s'
            → length rest ≤ fuel
            → feed_loop fuel s' o' rest ≡ some (bytes s' o' rest))
        → (elim t as (λ x. Option Fed) [
          | done fed ↦ some fed
          | again s' o' rest ↦ feed_loop fuel s' o' rest
        ])
          ≡ some (bytes s o (b ∷ bs))
    go (done fed) h l ih = ap some (sym h)
    go (again s' o' rest) h l ih = ih s' o' rest l.0 (omega (arith, l.1)) ∙ ap some (sym h)
