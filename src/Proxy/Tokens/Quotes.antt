-- ===== src/Proxy/Tokens/Quotes.antt =====
-- src/proxy.rs: the pieces of a WebSocket header by the grammar of RFC 9110: bytes and quoted strings.
use auth_mini_gateway.Prelude.{
  ℕ, ◌≤◌, ◌≡◌, ◌≢◌, ◌⊎◌, inl, inr, refl, sym, ap, ◌∙◌, subst, append_assoc, Bool, true, false, ◌||◌,
  List, [], ◌∷◌, ◌++◌, ◌==◌, if◌then◌else◌, All, Bool-cases, arith,
}
use auth_mini_gateway.Prelude.Result.{ok, ok_inj, >>=-eq-ok, refuse_if-then}
use auth_mini_gateway.Prelude.Text.{Str}
use auth_mini_gateway.Proxy.{bad_request}
use auth_mini_gateway.Proxy.Tokens.{is_escapable, is_quotable, is_cut, scan_byte, split_from}

-- A tab or a printable byte, and such a byte that is neither a quote nor a backslash.
abbrev pub Printable : ℕ → Type 0
Printable b = (b ≡ 9) ⊎ ((32 ≤ b) × (b ≤ 126))

abbrev pub Plain : ℕ → Type 0
Plain b = Printable b × (b ≢ b'"') × (b ≢ b'\\')

-- A quoted string without its closing quote.
pub data OpenQuote : Str → Type 0 where
  opens : OpenQuote (b'"' ∷ [])
  one : (q : Str) (b : ℕ) → OpenQuote q → Plain b → OpenQuote (q ++ b ∷ [])
  escape : (q : Str) (b : ℕ) → OpenQuote q → Printable b → OpenQuote (q ++ b'\\' ∷ b ∷ [])

-- A text in which the delimiter stands in quoted strings only.
pub data IsPiece (d : ℕ) : Str → Type 0 where
  nothing : IsPiece d []
  byte : (p : Str) (b : ℕ) → IsPiece d p → b ≢ b'"' → b ≢ d → IsPiece d (p ++ b ∷ [])
  string : (p q : Str) → IsPiece d p → OpenQuote q → IsPiece d (p ++ (q ++ b'"' ∷ []))

-- What the scanner has read of a piece, in each of its states.
abbrev Read : ℕ → Bool → Bool → Str → Type 0
Read d false false piece = IsPiece d piece
Read d false true piece = ⊥
Read d true false piece = (p : Str) × (q : Str) × IsPiece d p × OpenQuote q × (piece ≡ p ++ q)
Read d true true piece =
    (p : Str) × (q : Str) × IsPiece d p × OpenQuote q × (piece ≡ p ++ (q ++ b'\\' ∷ []))

escapable-Printable : (b : ℕ) → is_escapable b ≡ true → Printable b
escapable-Printable b h = ground arith

quotable-Plain : (b : ℕ) → is_quotable b ≡ true → Plain b
quotable-Plain b h = (ground arith, (λ e. ground arith), (λ e. ground arith))

to_state :
    (d : ℕ) (quoted escaped : Bool) (b : ℕ) (text : Str) (q e : Bool) {st : Bool × Bool}
    → scan_byte quoted escaped b ≡ ok (q, e)
    → scan_byte quoted escaped b ≡ ok st
    → Read d q e text
    → Read d st.0 st.1 text
to_state d quoted escaped b text q e r s = subst (λ v. Read d v.0 v.1 text) (ok_inj (sym r ∙ s))

grow : (p q more : Str) {piece : Str} → piece ≡ p ++ q → piece ++ more ≡ p ++ (q ++ more)
grow p q more e = ap (λ t. t ++ more) e ∙ append_assoc p q more

outside-Read :
    (d : ℕ) (piece : Str) (b : ℕ) {st : Bool × Bool}
    → IsPiece d piece
    → is_cut d false b ≡ false
    → scan_byte false false b ≡ ok st
    → Read d st.0 st.1 (piece ++ b ∷ [])
unfolding scan_byte
outside-Read d piece b r c s = elim (Bool-cases (b == b'"')) [
  | inl t ↦
      let same : b ≡ b'"' = ground arith in
      to_state d false false b (piece ++ b ∷ []) true false (rw t refl) s
        (piece, b'"' ∷ [], r, opens, ap (λ v. piece ++ v ∷ []) same)
  | inr f ↦
      to_state d false false b (piece ++ b ∷ []) false false (rw f refl) s
        (byte piece b r (λ e. ground arith) (λ e. ground arith))
]

inside-Read :
    (d : ℕ) (p q piece : Str) (b : ℕ) {st : Bool × Bool}
    → IsPiece d p
    → OpenQuote q
    → piece ≡ p ++ q
    → scan_byte true false b ≡ ok st
    → Read d st.0 st.1 (piece ++ b ∷ [])
unfolding scan_byte
inside-Read d p q piece b is open_quote e s = elim (Bool-cases (b == b'\\')) [
  | inl t ↦
      let same : b ≡ b'\\' = ground arith in
      to_state d true false b (piece ++ b ∷ []) true true (rw t refl) s
        (p, q, is, open_quote, rw same (grow p q (b'\\' ∷ []) e))
  | inr f ↦ elim (Bool-cases (b == b'"')) [
    | inl t ↦
        let same : b ≡ b'"' = ground arith in
        to_state d true false b (piece ++ b ∷ []) false false (rw (f, t) refl) s
          (subst (IsPiece d) (sym (rw same (grow p q (b'"' ∷ []) e))) (string p q is open_quote))
    | inr g ↦ elim (Bool-cases (is_quotable b)) [
      | inl t ↦
          to_state d true false b (piece ++ b ∷ []) true false (rw (f, g, t) refl) s
            (p, q ++ b ∷ [], is, one q b open_quote (quotable-Plain b t), grow p q (b ∷ []) e)
      | inr h ↦ absurd (ground (arith, rw (f, g, h) at s))
    ]
  ]
]

escaped-Read :
    (d : ℕ) (p q piece : Str) (b : ℕ) {st : Bool × Bool}
    → IsPiece d p
    → OpenQuote q
    → piece ≡ p ++ (q ++ b'\\' ∷ [])
    → scan_byte true true b ≡ ok st
    → Read d st.0 st.1 (piece ++ b ∷ [])
unfolding scan_byte
escaped-Read d p q piece b is open_quote e s = elim (Bool-cases (is_escapable b)) [
  | inl t ↦ to_state d true true b (piece ++ b ∷ []) true false (rw t refl) s (
    p,
    q ++ b'\\' ∷ b ∷ [],
    is,
    escape q b open_quote (escapable-Printable b t),
    grow p (q ++ b'\\' ∷ []) (b ∷ []) e ∙ ap (λ t. p ++ t) (append_assoc q (b'\\' ∷ []) (b ∷ [])),
  )
  | inr f ↦ absurd (ground (arith, rw f at s))
]

scan_byte-Read :
    (d : ℕ) (quoted escaped : Bool) (piece : Str) (b : ℕ) {st : Bool × Bool}
    → Read d quoted escaped piece
    → is_cut d quoted b ≡ false
    → scan_byte quoted escaped b ≡ ok st
    → Read d st.0 st.1 (piece ++ b ∷ [])
scan_byte-Read d false true piece b r c s = absurd r
scan_byte-Read d false false piece b r c s = outside-Read d piece b r c s
scan_byte-Read d true false piece b (p, q, is, open_quote, e) c s =
    inside-Read d p q piece b is open_quote e s
scan_byte-Read d true true piece b (p, q, is, open_quote, e) c s =
    escaped-Read d p q piece b is open_quote e s

cut-IsPiece :
    (d : ℕ) (within : Bool) (e : Bool) (piece : Str) (b : ℕ)
    → is_cut d within b ≡ true
    → Read d within e piece
    → IsPiece d piece
cut-IsPiece d false false piece b c r = r
cut-IsPiece d false true piece b c r = absurd r
cut-IsPiece d true e piece b c r = absurd (ground arith)

closed-IsPiece :
    (d : ℕ) (within escaped : Bool) (piece : Str)
    → within || escaped ≡ false
    → Read d within escaped piece
    → IsPiece d piece
closed-IsPiece d false false piece c r = r
closed-IsPiece d false true piece c r = absurd r
closed-IsPiece d true escaped piece c r = absurd (ground arith)

-- A cut closes a piece and opens the next outside of quotes, and another byte makes the piece longer.
cut_or_grow :
    (d : ℕ) (within escaped : Bool) (piece : Str) (b : ℕ) {st : Bool × Bool}
    → Read d within escaped piece
    → scan_byte within escaped b ≡ ok st
    → (cut : Bool) → is_cut d within b ≡ cut
    → Read d st.0 st.1 (if cut then [] else piece ++ b ∷ [])
cut_or_grow d within escaped piece b r s false c = scan_byte-Read d within escaped piece b r c s
cut_or_grow d true escaped piece b r s true c = absurd (ground arith)
cut_or_grow d false true piece b r s true c = absurd r
cut_or_grow d false false piece b r s true c =
    to_state d false false b [] false false (unfold scan_byte in ground arith) s nothing

pub split_from-IsPiece :
    (d : ℕ) (within escaped : Bool) (piece s : Str) {pieces : List Str}
    → Read d within escaped piece
    → split_from d within escaped piece s ≡ ok pieces
    → All (IsPiece d) pieces
unfolding split_from
split_from-IsPiece d within escaped piece [] r q =
    let (closed, q1) = refuse_if-then (within || escaped) bad_request (ok (piece ∷ [])) q in
    subst (All (IsPiece d)) (ok_inj q1) (closed-IsPiece d within escaped piece closed r, tt)
split_from-IsPiece d within escaped piece (b ∷ s) r q =
    let (st, scanned, q1) = >>=-eq-ok (scan_byte within escaped b) _ q in
    let cut = is_cut d within b in
    let (rest, found, q2) =
      >>=-eq-ok (split_from d st.0 st.1 (if cut then [] else piece ++ b ∷ []) s) _ q1 in
    let others =
      split_from-IsPiece d st.0 st.1 (if cut then [] else piece ++ b ∷ []) s
        (cut_or_grow d within escaped piece b r scanned cut refl) found in
    subst (All (IsPiece d)) (ok_inj q2) (joined cut rest refl others)
  where
    joined :
        (cut : Bool) (rest : List Str)
        → is_cut d within b ≡ cut
        → All (IsPiece d) rest
        → All (IsPiece d) (if cut then piece ∷ rest else rest)
    joined true rest c others = (cut-IsPiece d within escaped piece b c r, others)
    joined false rest c others = others
