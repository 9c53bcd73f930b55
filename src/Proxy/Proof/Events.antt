-- ===== src/Proxy/Proof/Events.antt =====
-- src/proxy.rs: what happens to a connection while it is proved, and the bytes of both sides.
use auth_mini_gateway.Prelude.{
  true, ℕ, ◌-◌, min, ◌≡◌, refl, ap, zero, suc, Option, some, List, [], ◌∷◌, ◌++◌, length, take,
  arith,
}
use auth_mini_gateway.Prelude.Text.{Str}
use auth_mini_gateway.Proxy.Frames.Reads.{concat}
use auth_mini_gateway.Proxy.Generation.{GenerationControl}
use auth_mini_gateway.Proxy.Proof.{
  H2ProofState, observe_inbound, observe_outbound_vectored, io_failed, mark_transport_dropped,
  and_then,
}

-- What happens to a connection: a read, a write of some of the buffers' bytes, an error of its socket,
-- its end, a panic under the parser's lock, and a change of the control by another task.
pub data ProofEvent : Type 0 where
  reads : Str → ProofEvent
  writes : List Str → ℕ → ProofEvent
  fails drops poisons : ProofEvent
  controls : GenerationControl → ProofEvent

abbrev pub step : ProofEvent → H2ProofState → Option H2ProofState
step (reads bytes) s = observe_inbound bytes s
step (writes bufs accepted) s = observe_outbound_vectored bufs accepted s
step fails s = some (io_failed s)
step drops s = some (mark_transport_dropped s)
step poisons s = some (record s { parser_poisoned = true })
step (controls control) s = some (record s { control = control })

abbrev pub run : List ProofEvent → H2ProofState → Option H2ProofState
run [] s = some s
run (e ∷ events) s = and_then (step e s) (run events)

-- The bytes that were read from the server, and those that the socket accepted from the gateway.
abbrev pub received : List ProofEvent → Str
received [] = []
received (reads bytes ∷ events) = bytes ++ received events
received (_ ∷ events) = received events

abbrev pub sent : List ProofEvent → Str
sent [] = []
sent (writes bufs accepted ∷ events) = take accepted (concat bufs) ++ sent events
sent (_ ∷ events) = sent events

pub take-append :
    (n k : ℕ) (xs ys : Str)
    → k ≡ min n (length xs)
    → take k xs ++ take (n - k) ys ≡ take n (xs ++ ys)
unfolding take
take-append n zero [] ys e = let l : n - 0 ≡ n = omega arith in rw l refl
take-append n (suc k) [] ys e = absurd (omega arith)
take-append zero zero (x ∷ xs) ys e =
    let l : 0 - 0 ≡ 0 = omega arith in ap {B = Str} (λ m. take m ys) l
take-append zero (suc k) (x ∷ xs) ys e = absurd (omega arith)
take-append (suc n) zero (x ∷ xs) ys e = absurd (omega arith)
take-append (suc n) (suc k) (x ∷ xs) ys e =
    let l : suc n - suc k ≡ n - k = omega arith in
    rw l (ap (λ t. x ∷ t) (take-append n k xs ys (omega arith)))
