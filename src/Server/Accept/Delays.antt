-- ===== src/Server/Accept/Delays.antt =====
-- src/server.rs: the waits of the accept loop after failures.
use auth_mini_gateway.Prelude.{
  ℕ, zero, suc, ◌+◌, ◌-◌, ◌^◌, ◌≤◌, ◌≡◌, refl, min, arith, Option, none, some, Bool-cases, inl, inr,
  true, ltb,
}
use auth_mini_gateway.Server.Accept.{
  RecoverableAcceptClass, resource_fd, resource_memory, transient, AcceptBackoff, streak, delay_of,
  next_delay, same_class, saturating_next,
}

-- The shortest and the longest wait for a class, in milliseconds.
unfoldable pub shortest : RecoverableAcceptClass → ℕ
shortest transient = 10
shortest _ = 100

unfoldable pub longest : RecoverableAcceptClass → ℕ
longest transient = 250
longest _ = 5000

delay_of-far : (class : RecoverableAcceptClass) (n : ℕ) → 7 ≤ n → delay_of class n ≡ longest class
unfolding delay_of longest
delay_of-far transient n le = let m : min (n - 1) 5 ≡ 5 = omega arith in rw m refl
delay_of-far resource_fd n le = let m : min (n - 1) 6 ≡ 6 = omega arith in rw m refl
delay_of-far resource_memory n le = let m : min (n - 1) 6 ≡ 6 = omega arith in rw m refl

abbrev Rises : RecoverableAcceptClass → ℕ → Type 0
Rises class n =
    (delay_of class n ≤ delay_of class (n + 1))
    × (shortest class ≤ delay_of class n)
    × (delay_of class n ≤ longest class)

shortest-longest : (class : RecoverableAcceptClass) → shortest class ≤ longest class
unfolding shortest longest
shortest-longest resource_fd = omega arith
shortest-longest resource_memory = omega arith
shortest-longest transient = omega arith

far-Rises : (class : RecoverableAcceptClass) (n : ℕ) → 7 ≤ n → Rises class n
far-Rises class n le =
    let here = delay_of-far class n le in
    let next = delay_of-far class (n + 1) (omega arith) in
    let le = shortest-longest class in (omega arith, omega arith, omega arith)

delay_of-Rises : (class : RecoverableAcceptClass) (n : ℕ) → Rises class n
unfolding delay_of shortest longest
delay_of-Rises resource_fd zero = (omega arith, omega arith, omega arith)
delay_of-Rises resource_memory zero = (omega arith, omega arith, omega arith)
delay_of-Rises transient zero = (omega arith, omega arith, omega arith)
delay_of-Rises resource_fd (suc zero) = (omega arith, omega arith, omega arith)
delay_of-Rises resource_memory (suc zero) = (omega arith, omega arith, omega arith)
delay_of-Rises transient (suc zero) = (omega arith, omega arith, omega arith)
delay_of-Rises resource_fd (suc (suc zero)) = (omega arith, omega arith, omega arith)
delay_of-Rises resource_memory (suc (suc zero)) = (omega arith, omega arith, omega arith)
delay_of-Rises transient (suc (suc zero)) = (omega arith, omega arith, omega arith)
delay_of-Rises resource_fd (suc (suc (suc zero))) = (omega arith, omega arith, omega arith)
delay_of-Rises resource_memory (suc (suc (suc zero))) = (omega arith, omega arith, omega arith)
delay_of-Rises transient (suc (suc (suc zero))) = (omega arith, omega arith, omega arith)
delay_of-Rises resource_fd (suc (suc (suc (suc zero)))) = (omega arith, omega arith, omega arith)
delay_of-Rises resource_memory (suc (suc (suc (suc zero)))) =
    (omega arith, omega arith, omega arith)
delay_of-Rises transient (suc (suc (suc (suc zero)))) = (omega arith, omega arith, omega arith)
delay_of-Rises resource_fd (suc (suc (suc (suc (suc zero))))) =
    (omega arith, omega arith, omega arith)
delay_of-Rises resource_memory (suc (suc (suc (suc (suc zero))))) =
    (omega arith, omega arith, omega arith)
delay_of-Rises transient (suc (suc (suc (suc (suc zero))))) =
    (omega arith, omega arith, omega arith)
delay_of-Rises resource_fd (suc (suc (suc (suc (suc (suc zero)))))) =
    (omega arith, omega arith, omega arith)
delay_of-Rises resource_memory (suc (suc (suc (suc (suc (suc zero)))))) =
    (omega arith, omega arith, omega arith)
delay_of-Rises transient (suc (suc (suc (suc (suc (suc zero)))))) =
    (omega arith, omega arith, omega arith)
delay_of-Rises class (suc (suc (suc (suc (suc (suc (suc n))))))) = far-Rises class _ (omega arith)

same_class_refl : (class : RecoverableAcceptClass) → same_class class class ≡ true
same_class_refl resource_fd = refl
same_class_refl resource_memory = refl
same_class_refl transient = refl

delay_of-le : (class : RecoverableAcceptClass) (n : ℕ) → delay_of class n ≤ longest class
delay_of-le class n = (delay_of-Rises class n).2

saturating-rises :
    (class : RecoverableAcceptClass) (n : ℕ)
    → n ≤ 2 ^ 64 - 1
    → delay_of class n ≤ delay_of class (saturating_next n)
saturating-rises class n le = elim (Bool-cases (ltb n (2 ^ 64 - 1))) [
  | inl t ↦ let next : saturating_next n ≡ n + 1 = grind arith in rw next (delay_of-Rises class n).0
  | inr f ↦ let last : saturating_next n ≡ n = grind arith in rw last (omega arith)
]

streak-le :
    (last : Option RecoverableAcceptClass) (class : RecoverableAcceptClass) (n : ℕ)
    → streak last class n ≤ 2 ^ 64 - 1
unfolding streak
streak-le none class n = omega arith
streak-le (some last) class n = elim (Bool-cases (same_class last class)) [
  | inl t ↦ rw t (omega arith)
  | inr f ↦ rw f (omega arith)
]

-- While failures of one class follow each other, the wait never gets shorter, and it stays between the
-- class's shortest and its longest one: 100 and 5000 ms for a lack of resources, 10 and 250 ms for a
-- transient error. This holds from every state of the backoff, also when the counter is saturated.
pub next_delay-rises :
    (b : AcceptBackoff) (class : RecoverableAcceptClass)
    → ((next_delay b class).0 ≤ (next_delay (next_delay b class).1 class).0)
      × (shortest class ≤ (next_delay b class).0)
      × ((next_delay (next_delay b class).1 class).0 ≤ longest class)
unfolding next_delay
next_delay-rises b class =
    let n = streak b.class class b.same_class_streak in
    rw (same_class_refl class) (
      saturating-rises class n (streak-le b.class class b.same_class_streak),
      (delay_of-Rises class n).1,
      delay_of-le class (saturating_next n),
    )
