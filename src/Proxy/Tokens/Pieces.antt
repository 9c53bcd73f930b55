-- ===== src/Proxy/Tokens/Pieces.antt =====
-- src/proxy.rs: the pieces of a WebSocket header, put together and split again.
use auth_mini_gateway.Prelude.{
  ℕ, ◌≡◌, ◌≢◌, inl, inr, Bool-cases, subst, refl, sym, ap, ◌∙◌, Bool, true, false, ◌||◌, not, List,
  [], ◌∷◌, ◌++◌, append-nil, append_assoc, ◌==◌, All, arith,
}
use auth_mini_gateway.Prelude.Result.{Result, ok, err, ◌>>=◌, ok_inj, >>=-eq-ok}
use auth_mini_gateway.Prelude.Text.{Str}
use auth_mini_gateway.Proxy.{ProxyError}
use auth_mini_gateway.Proxy.Tokens.Quotes.{IsPiece, nothing, split_from-IsPiece}
use auth_mini_gateway.Proxy.Tokens.{is_cut, scan_byte, split_from, split_websocket_header}

-- The pieces with the delimiter between them.
pub join : ℕ → List Str → Str
join d [] = []
join d (p ∷ []) = p
join d (p ∷ q ∷ ps) = p ++ d ∷ join d (q ∷ ps)

-- Behind `piece`, which has no cut, the scanner is in the state that it reaches from the start.
abbrev Open : ℕ → Bool → Bool → Str → Type 0
Open d quoted escaped piece =
    (s : Str) → split_from d false false [] (piece ++ s) ≡ split_from d quoted escaped piece s

-- Only inside quotes is a byte escaped.
abbrev Sound : Bool → Bool → Type 0
Sound quoted escaped = quoted || not escaped ≡ true

scan_byte-Sound :
    (quoted escaped : Bool) (b : ℕ) {st : Bool × Bool}
    → Sound quoted escaped
    → scan_byte quoted escaped b ≡ ok st
    → Sound st.0 st.1
unfolding scan_byte
scan_byte-Sound true true b {st} h r = ground arith
scan_byte-Sound true false b {st} h r = ground arith
scan_byte-Sound false false b {st} h r = ground arith
scan_byte-Sound false true b {st} h r = absurd (ground arith)

>>=-ok : {A : Type 0} (r : Result ProxyError A) → (r >>= ok) ≡ r
>>=-ok (ok a) = refl
>>=-ok (err e) = refl

join-cons : (d : ℕ) (p : Str) (ps : List Str) → ps ≢ [] → join d (p ∷ ps) ≡ p ++ d ∷ join d ps
unfolding join
join-cons d p [] h = absurd (h refl)
join-cons d p (q ∷ ps) h = refl

-- A byte of the scan: where it is no cut, the piece goes on, else the piece is closed outside quotes.
split_from-step :
    (d : ℕ) (quoted escaped : Bool) (piece : Str) (b : ℕ) (s : Str) (st : Bool × Bool)
    → scan_byte quoted escaped b ≡ ok st
    → is_cut d quoted b ≡ false
    → split_from d quoted escaped piece (b ∷ s) ≡ split_from d st.0 st.1 (piece ++ b ∷ []) s
unfolding split_from
split_from-step d quoted escaped piece b s st r c =
    rw (r, c) (>>=-ok (split_from d st.0 st.1 (piece ++ b ∷ []) s))

-- A byte that cuts stands outside quotes, and the scan goes on there.
scan_byte-cut :
    (d : ℕ) (quoted escaped : Bool) (b : ℕ) {st : Bool × Bool}
    → Sound quoted escaped
    → is_cut d quoted b ≡ true
    → scan_byte quoted escaped b ≡ ok st
    → (quoted ≡ false) × (escaped ≡ false) × (b ≡ d) × (st ≡ (false, false))
unfolding scan_byte
scan_byte-cut d true escaped b h c r = absurd (ground arith)
scan_byte-cut d false true b h c r = absurd (ground arith)
scan_byte-cut d false false b h c r =
    let plain : (b == b'"') ≡ false = ground arith in
    (refl, refl, ground arith, sym (ok_inj r) ∙ ap (λ v. (v, false)) plain)

abbrev Pieces : ℕ → Str → List Str → Type 0
Pieces d text pieces =
    (pieces ≢ [])
    × (join d pieces ≡ text)
    × All (λ p. split_from d false false [] p ≡ ok (p ∷ [])) pieces

-- A piece that ends outside quotes is a text of one piece.
piece_alone :
    (d : ℕ) (piece : Str)
    → Open d false false piece
    → split_from d false false [] piece ≡ ok (piece ∷ [])
unfolding split_from
piece_alone d piece o =
    subst (λ text. split_from d false false [] text ≡ ok (piece ∷ [])) (append-nil piece) (o [])

split_from-cut :
    (d : ℕ) (quoted escaped : Bool) (piece : Str) (b : ℕ) (s : Str) {pieces : List Str}
    → scan_byte quoted escaped b ≡ ok (false, false)
    → is_cut d quoted b ≡ true
    → split_from d quoted escaped piece (b ∷ s) ≡ ok pieces
    → (rest : List Str) × (split_from d false false [] s ≡ ok rest) × (piece ∷ rest ≡ pieces)
unfolding split_from
split_from-cut d quoted escaped piece b s {pieces} scanned cut r =
    let cut_off : (split_from d false false [] s >>= λ rest. ok (piece ∷ rest)) ≡ ok pieces =
      sym (rw (scanned, cut) refl) ∙ r in
    let (rest, found, q) = >>=-eq-ok (split_from d false false [] s) _ cut_off in
    (rest, found, ok_inj q)

Open-step :
    (d : ℕ) (quoted escaped : Bool) (piece : Str) (b : ℕ) (st : Bool × Bool)
    → Open d quoted escaped piece
    → scan_byte quoted escaped b ≡ ok st
    → is_cut d quoted b ≡ false
    → Open d st.0 st.1 (piece ++ b ∷ [])
Open-step d quoted escaped piece b st o scanned goes_on s =
    ap (split_from d false false []) (append_assoc piece (b ∷ []) s)
    ∙ o (b ∷ s)
    ∙ split_from-step d quoted escaped piece b s st scanned goes_on

Pieces-cons :
    (d : ℕ) (piece s : Str) {rest : List Str}
    → Open d false false piece
    → Pieces d s rest
    → Pieces d (piece ++ d ∷ s) (piece ∷ rest)
Pieces-cons d piece s {rest} o (filled, joined, alone) = (
  λ e. ground arith,
  join-cons d piece rest filled ∙ ap (λ t. piece ++ d ∷ t) joined,
  (piece_alone d piece o, alone),
)

Pieces-cut :
    (d : ℕ) (quoted escaped : Bool) (piece : Str) (b : ℕ) (s : Str) {rest pieces : List Str}
    → Open d quoted escaped piece
    → (quoted ≡ false) × (escaped ≡ false) × (b ≡ d)
    → piece ∷ rest ≡ pieces
    → Pieces d s rest
    → Pieces d (piece ++ b ∷ s) pieces
Pieces-cut d quoted escaped piece b s {rest} {pieces} o (outside, plain, same) q found =
    let closed : Open d false false piece =
      subst (λ v. Open d false v piece) plain (subst (λ v. Open d v escaped piece) outside o) in
    subst (λ v. Pieces d (piece ++ v ∷ s) pieces) (sym same)
      (subst (Pieces d (piece ++ d ∷ s)) q (Pieces-cons d piece s closed found))

split_from-Pieces :
    (d : ℕ) (quoted escaped : Bool) (piece s : Str) {pieces : List Str}
    → Sound quoted escaped
    → Open d quoted escaped piece
    → split_from d quoted escaped piece s ≡ ok pieces
    → Pieces d (piece ++ s) pieces
unfolding split_from join
split_from-Pieces d true escaped piece [] {pieces} h o r = absurd (ground arith)
split_from-Pieces d false true piece [] {pieces} h o r = absurd (ground arith)
split_from-Pieces d false false piece [] {pieces} h o r =
    subst (Pieces d (piece ++ [])) (ok_inj r)
      (λ e. ground arith, sym (append-nil piece), (piece_alone d piece o, tt))
split_from-Pieces d quoted escaped piece (b ∷ s) {pieces} h o r =
    let (st, scanned, r1) = >>=-eq-ok (scan_byte quoted escaped b) _ r in
    elim (Bool-cases (is_cut d quoted b)) [
      | inl cut ↦
          (let (outside, plain, same, at) = scan_byte-cut d quoted escaped b h cut scanned in
            let (rest, found, q) =
              split_from-cut d quoted escaped piece b s
                (subst (λ v. scan_byte quoted escaped b ≡ ok v) at scanned) cut r in
            Pieces-cut d quoted escaped piece b s o (outside, plain, same) q
              (split_from-Pieces d false false [] s refl (λ t. refl) found))
      | inr goes_on ↦
          subst (λ text. Pieces d text pieces) (append_assoc piece (b ∷ []) s)
            (split_from-Pieces d st.0 st.1 (piece ++ b ∷ []) s
              (scan_byte-Sound quoted escaped b h scanned)
              (Open-step d quoted escaped piece b st o scanned goes_on)
              (sym (split_from-step d quoted escaped piece b s st scanned goes_on) ∙ r))
    ]

-- A WebSocket header that splits at a delimiter is its pieces with the delimiter between them, each piece
-- is by the grammar a row of quoted strings and of bytes that are neither a quote nor the delimiter, so
-- that a delimiter in a quoted string never separates two pieces, and no piece splits further.
pub split_websocket_header-join :
    (value : Str) (d : ℕ) {pieces : List Str}
    → split_websocket_header value d ≡ ok pieces
    → (join d pieces ≡ value)
      × All (IsPiece d) pieces
      × All (λ p. split_websocket_header p d ≡ ok (p ∷ [])) pieces
unfolding split_websocket_header
split_websocket_header-join value d r =
    let (filled, joined, alone) = split_from-Pieces d false false [] value refl (λ t. refl) r in
    (joined, split_from-IsPiece d false false [] value nothing r, alone)
