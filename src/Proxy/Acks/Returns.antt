-- ===== src/Proxy/Acks/Returns.antt =====
-- src/proxy.rs: the loop of the acknowledgement parser returns.
use auth_mini_gateway.Prelude.{
  ℕ, zero, suc, ◌+◌, ◌≤◌, ◌≡◌, refl, Bool, true, false, Option, some, [], ◌∷◌, length, ◌++◌, take,
  drop, arith, ltb, ◌<◌, min, ◌-◌, ◌==◌, inl, inr, Bool-cases, if◌then◌else◌,
}
use auth_mini_gateway.Prelude.Result.{Result, ok, err}
use auth_mini_gateway.Prelude.Text.{Str}
use auth_mini_gateway.Proxy.Frames.Passes.{length-drop}
use auth_mini_gateway.Proxy.Acks.{
  ClientAckParser, Pass, returns, goes_on, preface_pass, skip_pass, frame_pass, header_pass, pass,
  passes, feed_acks,
}

-- The passes that are left: a full header takes one more.
abbrev cost : ClientAckParser → Str → ℕ
cost p bytes = length bytes + (if ltb (length p.header) 9 then 0 else 1)

abbrev Falls : ℕ → Pass → Type 0
Falls n (returns fed) = Unit
Falls n (goes_on p rest) = cost p rest < n

Falls-if :
    (b : Bool) (n : ℕ) (fed : Result ClientAckParser ClientAckParser) (next : Pass)
    → Falls n next
    → Falls n (if b then returns fed else next)
Falls-if true n fed next h = tt
Falls-if false n fed next h = h

-- Taking at least one byte, and keeping the header.
taken-Falls :
    (header : Str) (k b : ℕ) (bs : Str)
    → 0 < k
    → length (drop k (b ∷ bs)) + (if ltb (length header) 9 then 0 else 1)
      < suc (length bs) + (if ltb (length header) 9 then 0 else 1)
taken-Falls header k b bs h = rw (length-drop k (b ∷ bs)) (omega arith)

preface_pass-Falls :
    (p : ClientAckParser) (b : ℕ) (bs : Str)
    → p.preface_len < 24
    → Falls (cost p (b ∷ bs)) (preface_pass p (b ∷ bs))
unfolding preface_pass
preface_pass-Falls p b bs h =
    Falls-if _ (cost p (b ∷ bs)) (err p) (goes_on _ _)
      (taken-Falls p.header (min (24 - p.preface_len) (suc (length bs))) b bs (omega arith))

skip_pass-Falls :
    (p : ClientAckParser) (b : ℕ) (bs : Str)
    → 0 < p.payload_remaining
    → Falls (cost p (b ∷ bs)) (skip_pass p (b ∷ bs))
unfolding skip_pass
skip_pass-Falls p b bs h =
    taken-Falls p.header (min p.payload_remaining (suc (length bs))) b bs (omega arith)

Falls-frame :
    (seen bad : Bool) (n : ℕ) (refused taken : Result ClientAckParser ClientAckParser) (next : Pass)
    → Falls n next
    → Falls n (if seen then (if bad then returns refused else returns taken) else next)
Falls-frame true true n refused taken next h = tt
Falls-frame true false n refused taken next h = tt
Falls-frame false bad n refused taken next h = h

frame_pass-Falls :
    (p : ClientAckParser) (rest : Str) (n : ℕ) → length rest < n → Falls n (frame_pass p rest)
unfolding frame_pass
frame_pass-Falls p rest n h =
    Falls-frame _ _ n _ _ (goes_on (record p { payload_remaining = _; header = [] }) rest)
      (omega arith)

read-Falls :
    (p : ClientAckParser) (rest : Str) (n : ℕ)
    → length rest < n
    → Falls n (if ltb (length p.header) 9 then goes_on p rest else frame_pass p rest)
read-Falls p rest n h = elim (Bool-cases (ltb (length p.header) 9)) [
  | inl t ↦ rw t (rw t (omega arith))
  | inr f ↦ rw f (frame_pass-Falls p rest n h)
]

header_pass-Falls :
    (p : ClientAckParser) (b : ℕ) (bs : Str) → Falls (cost p (b ∷ bs)) (header_pass p (b ∷ bs))
unfolding header_pass
header_pass-Falls p b bs =
    let copied = min (9 - length p.header) (suc (length bs)) in
    let left : length (drop copied (b ∷ bs)) ≡ suc (length bs) - copied =
      length-drop copied (b ∷ bs) in
    read-Falls (record p { header = p.header ++ take copied (b ∷ bs) }) (drop copied (b ∷ bs))
      (cost p (b ∷ bs))
      (elim (Bool-cases (ltb (length p.header) 9)) [
        | inl t ↦ rw (left, t) (ground arith)
        | inr f ↦ rw (left, f) (ground arith)
      ])

pass-Falls : (p : ClientAckParser) (b : ℕ) (bs : Str) → Falls (cost p (b ∷ bs)) (pass p (b ∷ bs))
unfolding pass
pass-Falls p b bs = elim (Bool-cases (ltb p.preface_len 24)) [
  | inl t ↦ rw t (preface_pass-Falls p b bs (ground arith))
  | inr f ↦ elim (Bool-cases (p.payload_remaining == 0)) [
    | inl t ↦ rw (f, t) (header_pass-Falls p b bs)
    | inr more ↦ rw (f, more) (skip_pass-Falls p b bs (ground arith))
  ]
]

passes-return :
    (fuel : ℕ) (p : ClientAckParser) (bytes : Str)
    → cost p bytes ≤ fuel
    → (fed : Result ClientAckParser ClientAckParser) × (passes fuel p bytes ≡ some fed)
unfolding passes
passes-return fuel p [] h = (ok p, refl)
passes-return zero p (b ∷ bs) h = absurd (omega arith)
passes-return (suc fuel) p (b ∷ bs) h =
    go (pass p (b ∷ bs)) (pass-Falls p b bs) (λ p' rest. passes-return fuel p' rest)
  where
    go :
        (t : Pass)
        → Falls (cost p (b ∷ bs)) t
        → ((p' : ClientAckParser) (rest : Str)
            → cost p' rest ≤ fuel
            → (fed : Result ClientAckParser ClientAckParser) × (passes fuel p' rest ≡ some fed))
        → (fed : Result ClientAckParser ClientAckParser) × (elim t [
          | returns fed ↦ some fed
          | goes_on p' rest ↦ passes fuel p' rest
        ]
            ≡ some fed)
    go (returns fed) f ih = (fed, refl)
    go (goes_on p' rest) f ih = ih p' rest (omega arith)

if-returns :
    (c : Bool) (p : ClientAckParser) (r : Option (Result ClientAckParser ClientAckParser))
    → (fed : Result ClientAckParser ClientAckParser) × (r ≡ some fed)
    → (fed : Result ClientAckParser ClientAckParser) × ((if c then some (ok p) else r) ≡ some fed)
if-returns true p r h = (ok p, refl)
if-returns false p r h = h

pub feed_acks-returns :
    (p : ClientAckParser) (bytes : Str)
    → (fed : Result ClientAckParser ClientAckParser) × (feed_acks p bytes ≡ some fed)
unfolding feed_acks
feed_acks-returns p bytes =
    if-returns p.ack_seen p (passes (suc (length bytes)) p bytes)
      (passes-return (suc (length bytes)) p bytes (ground arith))
