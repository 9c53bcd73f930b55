-- ===== src/Proxy/Acks/Sent.antt =====
-- src/proxy.rs: what the acknowledgement parser has seen, as the frames that the gateway has sent.
use auth_mini_gateway.Prelude.{
  ℕ, zero, suc, ◌+◌, ◌-◌, ◌%◌, ◌^◌, ◌≤◌, ◌<◌, ◌≡◌, ◌⊎◌, inl, inr, refl, sym, ap, ◌∙◌, subst, min,
  Bool, true, false, ◌&&◌, ◌||◌, not, some, [], ◌∷◌, ◌++◌, append-nil, append_assoc, length,
  length-append, take-append_drop, take-add, length-take, take, drop, ltb, ◌==◌, arith, Bool-cases,
  if◌then◌else◌,
}
use auth_mini_gateway.Prelude.Result.{Result, ok, err}
use auth_mini_gateway.Prelude.Text.{Str, str_eq, eq_of_str_eq}
use auth_mini_gateway.Proxy.Frames.{byte_at, be24, be32, has_ack}
use auth_mini_gateway.Proxy.Acks.{
  ClientAckParser, Pass, returns, goes_on, h2_client_preface, preface_pass, skip_pass, frame_pass,
  header_pass, pass, passes, feed_acks, new_acks,
}

-- A client's preface and frames, where so many bytes of the last frame's payload are still to come.
pub data Sent : ℕ → Str → Type 0 where
  preface : Sent 0 h2_client_preface
  frame : (xs h : Str) → Sent 0 xs → length h ≡ 9 → Sent (be24 0 h) (xs ++ h)
  payload : (n : ℕ) (xs p : Str) → Sent (length p + n) xs → Sent n (xs ++ p)

-- The header of a SETTINGS frame with the flag ACK, without payload, on stream 0.
abbrev pub IsAck : Str → Type 0
IsAck h =
    (length h ≡ 9)
    × (be24 0 h ≡ 0)
    × (byte_at 3 h ≡ 4)
    × (byte_at 4 h % 2 ≡ 1)
    × (be32 5 h % 2 ^ 31 ≡ 0)

-- Behind a preface and whole frames stands an acknowledgement.
abbrev pub Acknowledges : Str → Type 0
Acknowledges sent =
    (xs : Str) × (h : Str) × (rest : Str) × Sent 0 xs × IsAck h × (sent ≡ xs ++ (h ++ rest))

pub data Parses : ClientAckParser → Str → Type 0 where
  in_preface :
      (n : ℕ)
      → n < 24
      → Parses
          (record { preface_len = n; header = []; payload_remaining = 0; ack_seen = false })
          (take n h2_client_preface)
  in_payload :
      (n : ℕ) (xs : Str)
      → Sent n xs
      → Parses
          (record { preface_len = 24; header = []; payload_remaining = n; ack_seen = false })
          xs
  in_header :
      (xs h : Str)
      → Sent 0 xs
      → length h < 9
      → Parses
          (record { preface_len = 24; header = h; payload_remaining = 0; ack_seen = false })
          (xs ++ h)

some_inj : {A : Type 0} {a b : A} → some a ≡ some b → a ≡ b
some_inj q = cc

if_true :
    {A : Type 0} (c : Bool) {x : A} (y : A) {z : A} → c ≡ true → (if c then x else y) ≡ z → x ≡ z
if_true true y e q = q
if_true false y e q = absurd (ground arith)

if_false : {A : Type 0} (c : Bool) (x : A) {y z : A} → c ≡ false → (if c then x else y) ≡ z → y ≡ z
if_false false x e q = q
if_false true x e q = absurd (ground arith)

abbrev PassesOn : Str → Pass → Type 0
PassesOn text (returns (ok p)) = (p.ack_seen ≡ true) × Acknowledges text
PassesOn text (returns (err p)) = Unit
PassesOn text (goes_on p rest) = (w : Str) × Parses p w × (w ++ rest ≡ text)

frame_pass-PassesOn :
    (xs h rest : Str)
    → Sent 0 xs
    → length h ≡ 9
    → PassesOn (xs ++ (h ++ rest)) (
        frame_pass
          (record { preface_len = 24; header = h; payload_remaining = 0; ack_seen = false })
          rest)
unfolding frame_pass
frame_pass-PassesOn xs h rest sent nine =
    elim (Bool-cases ((byte_at 3 h == 0x4) && has_ack (byte_at 4 h))) [
      | inr f ↦
          rw f (
            xs ++ h,
            in_payload (be24 0 h) (xs ++ h) (frame xs h sent nine),
            append_assoc xs h rest,
          )
      | inl t ↦ elim (Bool-cases (not (be24 0 h == 0) || not (be32 5 h % 2 ^ 31 == 0))) [
        | inl bad ↦ rw (t, bad) tt
        | inr good ↦
            rw (t, good)
              (
                refl,
                (
                  xs,
                  h,
                  rest,
                  sent,
                  (nine, ground arith, ground arith, ground arith, ground arith),
                  refl,
                ),
              )
      ]
    ]

regroup : (xs h t r bytes : Str) → t ++ r ≡ bytes → xs ++ ((h ++ t) ++ r) ≡ (xs ++ h) ++ bytes
regroup xs h t r bytes whole =
    ap (λ v. xs ++ v) (append_assoc h t r ∙ ap (λ v. h ++ v) whole) ∙ sym (append_assoc xs h bytes)

header_pass-PassesOn :
    (xs h bytes : Str)
    → Sent 0 xs
    → length h < 9
    → PassesOn ((xs ++ h) ++ bytes) (
        header_pass
          (record { preface_len = 24; header = h; payload_remaining = 0; ack_seen = false })
          bytes)
unfolding header_pass
header_pass-PassesOn xs h bytes sent room =
    let copied = min (9 - length h) (length bytes) in
    let whole = take-append_drop copied bytes in
    let header = h ++ take copied bytes in
    elim (Bool-cases (ltb (length header) 9)) [
      | inl t ↦ rw t (
        xs ++ header,
        in_header xs header sent (ground arith),
        append_assoc xs header (drop copied bytes)
            ∙ regroup xs h (take copied bytes) (drop copied bytes) bytes whole,
      )
      | inr f ↦ rw f (
          subst
            (λ text. PassesOn text (
              frame_pass
                (record {
                  preface_len = 24;
                  header = header;
                  payload_remaining = 0;
                  ack_seen = false;
                })
                (drop copied bytes)))
            (regroup xs h (take copied bytes) (drop copied bytes) bytes whole)
            (frame_pass-PassesOn xs header (drop copied bytes) sent
              (ground (arith, length-append h (take copied bytes), length-take copied bytes))))
    ]

skip_pass-PassesOn :
    (n : ℕ) (xs bytes : Str)
    → Sent n xs
    → PassesOn (xs ++ bytes) (
        skip_pass
          (record { preface_len = 24; header = []; payload_remaining = n; ack_seen = false })
          bytes)
unfolding skip_pass
skip_pass-PassesOn n xs bytes sent =
    let skipped = min n (length bytes) in
    (
      xs ++ take skipped bytes,
      in_payload (n - skipped) (xs ++ take skipped bytes) (
          payload (n - skipped) xs (take skipped bytes)
            (subst (λ m. Sent m xs) (omega (arith, length-take skipped bytes)) sent)),
      append_assoc xs (take skipped bytes) (drop skipped bytes)
          ∙ ap (λ t. xs ++ t) (take-append_drop skipped bytes),
    )

in_or_past_preface :
    (n : ℕ)
    → n ≤ 24
    → Parses
        (record { preface_len = n; header = []; payload_remaining = 0; ack_seen = false })
        (take n h2_client_preface)
in_or_past_preface n h = elim (Bool-cases (ltb n 24)) [
  | inl t ↦ in_preface n (ground arith)
  | inr f ↦
      let full : 24 ≡ n = ground arith in
      subst
        (λ m.
          Parses (record { preface_len = m; header = []; payload_remaining = 0; ack_seen = false })
            (take m h2_client_preface))
        full (unfold take in in_payload 0 h2_client_preface preface)
]

preface_pass-PassesOn :
    (n : ℕ) (bytes : Str)
    → n < 24
    → PassesOn (take n h2_client_preface ++ bytes) (
        preface_pass
          (record { preface_len = n; header = []; payload_remaining = 0; ack_seen = false })
          bytes)
unfolding preface_pass
preface_pass-PassesOn n bytes h =
    let copied = min (24 - n) (length bytes) in
    let expected = take copied (drop n h2_client_preface) in
    elim (Bool-cases (not (str_eq (take copied bytes) expected))) [
      | inl bad ↦ rw bad tt
      | inr good ↦
          let same = eq_of_str_eq (take copied bytes) expected (ground arith) in
          let read : take n h2_client_preface ++ take copied bytes
              ≡ take (n + copied) h2_client_preface =
            ap (λ t. take n h2_client_preface ++ t) same ∙ take-add n copied h2_client_preface in
          let whole : take (n + copied) h2_client_preface ++ drop copied bytes
              ≡ take n h2_client_preface ++ bytes =
            ap (λ t. t ++ drop copied bytes) (sym read)
            ∙ append_assoc (take n h2_client_preface) (take copied bytes) (drop copied bytes)
            ∙ ap (λ t. take n h2_client_preface ++ t) (take-append_drop copied bytes) in
          rw good (
            take (n + copied) h2_client_preface,
            in_or_past_preface (n + copied) (omega arith),
            whole,
          )
    ]

pass-PassesOn :
    (p : ClientAckParser) (w bytes : Str) → Parses p w → PassesOn (w ++ bytes) (pass p bytes)
unfolding pass
pass-PassesOn _ _ bytes (in_preface n h) =
    let t : ltb n 24 ≡ true = ground arith in rw t (preface_pass-PassesOn n bytes h)
pass-PassesOn _ _ bytes (in_header xs h sent room) = header_pass-PassesOn xs h bytes sent room
pass-PassesOn _ _ bytes (in_payload zero xs sent) =
    subst
      (λ text. PassesOn (text ++ bytes) (
        header_pass
          (record { preface_len = 24; header = []; payload_remaining = 0; ack_seen = false })
          bytes))
      (append-nil xs) (header_pass-PassesOn xs [] bytes sent (omega arith))
pass-PassesOn _ _ bytes (in_payload (suc n) xs sent) =
    let more : (suc n == 0) ≡ false = ground arith in
    rw more (skip_pass-PassesOn (suc n) xs bytes sent)

-- After a feed that does not fail: an acknowledgement was sent, or the parser stands where the bytes end.
abbrev pub Tracks : ClientAckParser → Str → Type 0
Tracks p w = ((p.ack_seen ≡ true) × Acknowledges w) ⊎ ((p.ack_seen ≡ false) × Parses p w)

abbrev pub FedTracks : Str → Result ClientAckParser ClientAckParser → Type 0
FedTracks w (ok p) = Tracks p w
FedTracks w (err p) = Unit

Parses-unseen : (p : ClientAckParser) (w : Str) → Parses p w → p.ack_seen ≡ false
Parses-unseen _ _ (in_preface n h) = refl
Parses-unseen _ _ (in_payload n xs sent) = refl
Parses-unseen _ _ (in_header xs h sent room) = refl

pub Acknowledges-append : (w more : Str) → Acknowledges w → Acknowledges (w ++ more)
Acknowledges-append w more (xs, h, rest, sent, ack, e) = (
  xs,
  h,
  rest ++ more,
  sent,
  ack,
  ap (λ t. t ++ more) e
      ∙ append_assoc xs (h ++ rest) more
      ∙ ap (λ t. xs ++ t) (append_assoc h rest more),
)

passes-FedTracks :
    (fuel : ℕ) (p : ClientAckParser) (w bytes : Str) {fed : Result ClientAckParser ClientAckParser}
    → Parses p w
    → passes fuel p bytes ≡ some fed
    → FedTracks (w ++ bytes) fed
unfolding passes
passes-FedTracks fuel p w [] parses q =
    subst (FedTracks (w ++ [])) (some_inj q)
      (inr (Parses-unseen p w parses, subst (Parses p) (sym (append-nil w)) parses))
passes-FedTracks zero p w (b ∷ bs) parses q = absurd (ground arith)
passes-FedTracks (suc fuel) p w (b ∷ bs) {fed} parses q =
    go (pass p (b ∷ bs)) (pass-PassesOn p w (b ∷ bs) parses) q
      (λ p' w' rest. passes-FedTracks fuel p' w' rest)
  where
    go :
        (t : Pass)
        → PassesOn (w ++ b ∷ bs) t
        → elim t [ returns f ↦ some f | goes_on p' rest ↦ passes fuel p' rest ] ≡ some fed
        → ((p' : ClientAckParser) (w' rest : Str)
            → Parses p' w'
            → passes fuel p' rest ≡ some fed
            → FedTracks (w' ++ rest) fed)
        → FedTracks (w ++ b ∷ bs) fed
    go (returns (ok f)) h q ih = subst (FedTracks (w ++ b ∷ bs)) (some_inj q) (inl h)
    go (returns (err f)) h q ih = subst (FedTracks (w ++ b ∷ bs)) (some_inj q) tt
    go (goes_on p' rest) (w', parses', e) q ih =
        subst (λ text. FedTracks text fed) e (ih p' w' rest parses' q)

pub new_acks-Tracks : Tracks new_acks []
new_acks-Tracks = unfold take in inr (refl, in_preface 0 (omega arith))

pub feed_acks-Tracks :
    (p : ClientAckParser) (w bytes : Str) {fed : Result ClientAckParser ClientAckParser}
    → Tracks p w
    → feed_acks p bytes ≡ some fed
    → FedTracks (w ++ bytes) fed
unfolding feed_acks
feed_acks-Tracks p w bytes (inl (seen, ack)) q =
    subst (FedTracks (w ++ bytes))
      (some_inj (if_true p.ack_seen (passes (suc (length bytes)) p bytes) seen q))
      (inl (seen, Acknowledges-append w bytes ack))
feed_acks-Tracks p w bytes (inr (unseen, parses)) q =
    passes-FedTracks (suc (length bytes)) p w bytes parses
      (if_false p.ack_seen (some (ok p)) unseen q)

pub Tracks-seen : (p : ClientAckParser) (w : Str) → p.ack_seen ≡ true → Tracks p w → Acknowledges w
Tracks-seen p w seen (inl (s, ack)) = ack
Tracks-seen p w seen (inr (unseen, parses)) = absurd (ground arith)
