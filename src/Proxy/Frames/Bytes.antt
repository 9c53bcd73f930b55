-- ===== src/Proxy/Frames/Bytes.antt =====
-- src/proxy.rs: one pass of the scanner's loop, compared with the same pass on the first byte alone.
use auth_mini_gateway.Prelude.{
  ℕ, suc, ◌+◌, ◌-◌, ◌≤◌, ◌≡◌, refl, min, [], ◌∷◌, ◌++◌, append_assoc, length, length-append, take,
  drop, ltb, ◌==◌, if◌then◌else◌, arith,
}
use auth_mini_gateway.Prelude.Result.{ok, ◌>>=◌}
use auth_mini_gateway.Prelude.Text.{Str}
use auth_mini_gateway.Proxy.Frames.{
  ServerFrameScanner, InboundObservation, begin_frame, consume_pair, Fed, Turn, done, again,
  if_finished, after_pair, pair_turn, skip_turn, begun, header_turn, turn,
}

-- What a pass makes of one byte, and of a text taken byte by byte.
unfoldable pub settled : Turn → Fed
settled (done fed) = fed
settled (again s o rest) = ok (o, s)

unfoldable pub byte : ServerFrameScanner → InboundObservation → ℕ → Fed
unfolding settled
byte s o b = settled (turn s o (b ∷ []))

unfoldable pub bytes : ServerFrameScanner → InboundObservation → Str → Fed
bytes s o [] = ok (o, s)
bytes s o (b ∷ bs) = byte s o b >>= λ fed. bytes fed.1 fed.0 bs

abbrev pub with_header : ServerFrameScanner → ℕ → ServerFrameScanner
with_header s b = record s { header = s.header ++ b ∷ [] }

abbrev pub with_pair : ServerFrameScanner → ℕ → ServerFrameScanner
with_pair s b = record s { pair = s.pair ++ b ∷ []; payload_remaining = s.payload_remaining - 1 }

abbrev pub without_one : ServerFrameScanner → ServerFrameScanner
without_one s = record s { payload_remaining = s.payload_remaining - 1 }

take_more :
    (room : ℕ) (b : ℕ) (r : Str)
    → 2 ≤ room
    → take (min room (length (b ∷ r))) (b ∷ r) ≡ b ∷ take (min (room - 1) (length r)) r
take_more room b r h =
    let m : min room (length (b ∷ r)) ≡ suc (min (room - 1) (length r)) = omega arith in
    rw m (unfold take in refl)

drop_more :
    (room : ℕ) (b : ℕ) (r : Str)
    → 2 ≤ room
    → drop (min room (length (b ∷ r))) (b ∷ r) ≡ drop (min (room - 1) (length r)) r
drop_more room b r h =
    let m : min room (length (b ∷ r)) ≡ suc (min (room - 1) (length r)) = omega arith in
    rw m (unfold drop in refl)

module _ (s : ServerFrameScanner) (o : InboundObservation) (b : ℕ) (r : Str) where
  pub header_turn-one :
      min (9 - length s.header) (length (b ∷ r)) ≡ 1
      → header_turn s o (b ∷ r) ≡ (
          if ltb (length s.header + 1) 9
          then done (ok (o, with_header s b))
          else begun o r (begin_frame (with_header s b)))
  unfolding header_turn take drop
  header_turn-one e = rw (e, length-append s.header (b ∷ [])) refl

  pub header_turn-more :
      2 ≤ 9 - length s.header → header_turn s o (b ∷ r) ≡ header_turn (with_header s b) o r
  unfolding header_turn
  header_turn-more h =
      let room : 9 - length (s.header ++ b ∷ []) ≡ (9 - length s.header) - 1 =
        omega (arith, length-append s.header (b ∷ [])) in
      let m = min ((9 - length s.header) - 1) (length r) in
      rw
        (
          take_more (9 - length s.header) b r h,
          drop_more (9 - length s.header) b r h,
          room,
          append_assoc s.header (b ∷ []) (take m r),
        )
        refl

  pub skip_turn-one :
      min s.payload_remaining (length (b ∷ r)) ≡ 1
      → skip_turn s o (b ∷ r) ≡ if_finished (without_one s) o r
  unfolding skip_turn drop
  skip_turn-one e = rw e refl

  pub skip_turn-more :
      2 ≤ s.payload_remaining → skip_turn s o (b ∷ r) ≡ skip_turn (without_one s) o r
  unfolding skip_turn
  skip_turn-more h =
      let left : s.payload_remaining - min s.payload_remaining (length (b ∷ r))
          ≡ (s.payload_remaining - 1) - min (s.payload_remaining - 1) (length r) =
        omega arith in
      rw (left, drop_more s.payload_remaining b r h) refl

  unfoldable pub paired : Turn
  paired =
      if length s.pair + 1 == 6
      then after_pair o r (consume_pair (with_pair s b))
      else if_finished (with_pair s b) o r

  pub pair_turn-one :
      min (min (6 - length s.pair) s.payload_remaining) (length (b ∷ r)) ≡ 1
      → pair_turn s o (b ∷ r) ≡ paired
  unfolding pair_turn take drop paired
  pair_turn-one e = rw (e, length-append s.pair (b ∷ [])) refl

  pub pair_turn-more :
      2 ≤ min (6 - length s.pair) s.payload_remaining
      → pair_turn s o (b ∷ r) ≡ pair_turn (with_pair s b) o r
  unfolding pair_turn
  pair_turn-more h =
      let room = min (6 - length s.pair) s.payload_remaining in
      let next : min (6 - length (s.pair ++ b ∷ [])) (s.payload_remaining - 1) ≡ room - 1 =
        omega (arith, length-append s.pair (b ∷ [])) in
      let left : s.payload_remaining - min room (length (b ∷ r))
          ≡ (s.payload_remaining - 1) - min (room - 1) (length r) =
        omega arith in
      rw
        (
          take_more room b r h,
          drop_more room b r h,
          left,
          next,
          append_assoc s.pair (b ∷ []) (take (min (room - 1) (length r)) r),
        )
        refl
