-- ===== src/Proxy/Frames/Known.antt =====
-- src/proxy.rs: after any bytes of a server the scanner knows what the server has announced.
use auth_mini_gateway.Prelude.{
  ℕ, ◌+◌, ◌-◌, ◌%◌, ◌<◌, ◌≡◌, inl, inr, refl, sym, ap, ◌∙◌, subst, true, false, none, some, [], ◌∷◌,
  ◌++◌, append-nil, append_assoc, length, length-append, ltb, ◌==◌, arith, Bool-cases,
}
use auth_mini_gateway.Prelude.Result.{ok, err, Result-cases, ◌>>=◌}
use auth_mini_gateway.Prelude.Text.{Str}
use auth_mini_gateway.Proxy.Frames.{
  InitialH2Settings, ServerFrameScanner, InboundObservation, ScannedPayload, initial_settings,
  new_scanner, begin_frame, consume_pair, pair_of, initial_pair, finish_frame, settings_of, Fed,
  Turn, done, again, if_finished, after_pair, pair_turn, payload_turn, begun, turn, feed,
  no_observation, be16, be24, be32,
}
use auth_mini_gateway.Proxy.Frames.Bytes.{
  settled, byte, bytes, with_header, with_pair, paired, header_turn-one, pair_turn-one,
}
use auth_mini_gateway.Proxy.Frames.Passes.{payload_turn-nil}
use auth_mini_gateway.Proxy.Frames.Ready.{IsReady}
use auth_mini_gateway.Proxy.Frames.Settings.{Fits, FedFollows, TurnFollows, turn-Follows}
use auth_mini_gateway.Proxy.Frames.Reads.{feed-bytes}
use auth_mini_gateway.Proxy.Frames.Announced.{
  Announces, nothing, IsSettings, Begins, Reads, in_header, in_pair, Knows, FedKnows,
  initial_pair-Announces, initial_pair-kept, begin_frame-IsSettings,
}

some_inj : {A : Type 0} {a b : A} → some a ≡ some b → a ≡ b
some_inj q = cc

-- The first payload between two pairs, or at its end.
record Between (s : ServerFrameScanner) (h p : Str) : Type 0 where
  is_settings : IsSettings h
  announces : Announces p s.building_initial
  left : length p + s.payload_remaining ≡ be24 0 h
  pairs : length p % 6 ≡ 0
  initial : s.payload ≡ initial_settings
  empty_pair : s.pair ≡ []
  unknown : s.settings ≡ none
  empty_header : s.header ≡ []

finish_frame-known :
    (s : ServerFrameScanner) (o : InboundObservation)
    → s.payload ≡ initial_settings
    → (finish_frame s o).1.settings ≡ some s.building_initial
unfolding finish_frame settings_of
finish_frame-known s o e = rw e refl

if_finished-Knows :
    (s : ServerFrameScanner) (o : InboundObservation) (h p : Str)
    → Between s h p
    → FedKnows (h ++ (p ++ [])) (settled (if_finished s o []))
unfolding if_finished settled
if_finished-Knows s o h p b = elim (Bool-cases (s.payload_remaining == 0)) [
  | inl t ↦
      let over : length p ≡ be24 0 h = ground (arith, b.left) in
      rw t (
        inr (
          s.building_initial,
          finish_frame-known s o b.initial,
          (h, p, [], b.is_settings, over, b.announces, refl),
        ))
  | inr f ↦
      let left : (length p + length s.pair) + s.payload_remaining ≡ be24 0 h =
        rw b.empty_pair (omega (arith, b.left)) in
      let room : length s.pair < 6 = rw b.empty_pair (omega arith) in
      rw f (
        inl (
          subst (λ v. Reads s (h ++ (p ++ v))) b.empty_pair
            (in_pair s h p b.is_settings b.announces left b.pairs
              (b.initial, ground arith, room, b.unknown, b.empty_header))))
]

begun-if_finished :
    (s : ServerFrameScanner) (o : InboundObservation)
    → s.pair ≡ []
    → begun o [] (ok s) ≡ if_finished s o []
unfolding begun if_finished
begun-if_finished s o e = elim (Bool-cases (s.payload_remaining == 0)) [
  | inl t ↦ rw t refl
  | inr f ↦ rw f (
      payload_turn-nil s.payload s o (λ z. ground arith)
        (let l : length s.pair ≡ 0 = rw e refl in l))
]

begun-Knows :
    (s : ServerFrameScanner) (o : InboundObservation)
    → length s.header ≡ 9
    → s.settings ≡ none
    → FedKnows s.header (settled (begun o [] (begin_frame s)))
begun-Knows s o nine unknown = elim (Result-cases (begin_frame s)) [
  | inl (s', q) ↦ rw q (unfold begun settled in tt)
  | inr (s', q) ↦
      let (is, made) = begin_frame-IsSettings s nine unknown q in
      let start : Between s' s.header [] =
        subst (λ v. Between v s.header []) made
          (record {
            is_settings = is;
            announces = nothing;
            left = omega arith;
            pairs = omega arith;
            initial = refl;
            empty_pair = refl;
            unknown = unknown;
            empty_header = refl;
          }) in
      rw (q, begun-if_finished s' o start.empty_pair)
        (subst (λ v. FedKnows v (settled (if_finished s' o []))) (append-nil s.header)
          (if_finished-Knows s' o s.header [] start))
]

consume_pair-initial :
    (s : ServerFrameScanner) {s' : ServerFrameScanner}
    → s.payload ≡ initial_settings
    → consume_pair s ≡ ok s'
    → initial_pair s (be16 0 s.pair) (be32 2 s.pair) ≡ ok s'
unfolding consume_pair pair_of
consume_pair-initial s {s'} e q =
    subst (λ k. pair_of k s (be16 0 s.pair) (be32 2 s.pair) ≡ ok s') e q

multiple-add : (n : ℕ) → n % 6 ≡ 0 → (n + 6) % 6 ≡ 0
multiple-add n h = omega arith

within_pair : (n k total : ℕ) → n % 6 ≡ 0 → total % 6 ≡ 0 → k < 5 → (n + k) + 1 ≡ total → ⊥
within_pair n k total a b h e = omega arith

regroup : (h p x y : Str) → h ++ (p ++ (x ++ y)) ≡ (h ++ (p ++ x)) ++ y
regroup h p x y = ap (λ v. h ++ v) (sym (append_assoc p x y)) ∙ sym (append_assoc h (p ++ x) y)

paired-Knows :
    (s : ServerFrameScanner) (o : InboundObservation) (c : ℕ) (h p : Str)
    → IsSettings h
    → Announces p s.building_initial
    → (length p + length s.pair) + s.payload_remaining ≡ be24 0 h
    → length p % 6 ≡ 0
    → (s.payload ≡ initial_settings)
      × (0 < s.payload_remaining)
      × (length s.pair < 6)
      × (s.settings ≡ none)
      × (s.header ≡ [])
    → FedKnows ((h ++ (p ++ s.pair)) ++ c ∷ []) (settled (paired s o c []))
unfolding paired settled
paired-Knows s o c h p is a left pairs (initial, more, room, unknown, no_header) =
    elim (Bool-cases (length s.pair + 1 == 6)) [
      | inl t ↦ elim (Result-cases (consume_pair (with_pair s c))) [
        | inl (s', q) ↦ rw (t, q) (unfold after_pair in tt)
        | inr (s', q) ↦
            let taken = consume_pair-initial (with_pair s c) initial q in
            let (payload, settings, header, remaining) =
              initial_pair-kept (with_pair s c) _ _ taken in
            let six : length (s.pair ++ c ∷ []) ≡ 6 =
              ground (arith, length-append s.pair (c ∷ [])) in
            let whole : length (p ++ (s.pair ++ c ∷ [])) ≡ length p + 6 =
              omega (arith, length-append p (s.pair ++ c ∷ [])) in
            let five : length s.pair ≡ 5 = ground arith in
            let next : Between (record s' { pair = [] }) h (p ++ (s.pair ++ c ∷ [])) = record {
              is_settings = is;
              announces = initial_pair-Announces (with_pair s c) p a six taken;
              left = omega arith;
              pairs = rw whole (multiple-add (length p) pairs);
              initial = payload ∙ initial;
              empty_pair = refl;
              unknown = settings ∙ unknown;
              empty_header = header ∙ no_header;
            } in
            rw (t, q)
              (unfold after_pair in
                subst (λ v. FedKnows v (settled (if_finished (record s' { pair = [] }) o [])))
                  (ap (λ v. h ++ v) (append-nil (p ++ (s.pair ++ c ∷ [])))
                    ∙ regroup h p s.pair (c ∷ []))
                  (if_finished-Knows (record s' { pair = [] }) o h (p ++ (s.pair ++ c ∷ [])) next))
      ]
      | inr f ↦ elim (Bool-cases (s.payload_remaining - 1 == 0)) [
        | inl over ↦ absurd (
            within_pair (length p) (length s.pair) (be24 0 h) pairs is.4 (ground arith)
              (ground (arith, left)))
        | inr g ↦
            let longer : length (s.pair ++ c ∷ []) ≡ length s.pair + 1 =
              omega (arith, length-append s.pair (c ∷ [])) in
            rw f (
              unfold if_finished in
              rw g (
                inl (
                  subst (Reads (with_pair s c)) (regroup h p s.pair (c ∷ [])) (
                    in_pair (with_pair s c) h p is a (omega arith) pairs
                      (initial, ground arith, ground arith, unknown, no_header)))))
      ]
    ]

pub Begins-append :
    (r more : Str) (settings : InitialH2Settings) → Begins r settings → Begins (r ++ more) settings
Begins-append r more settings (h, p, rest, is, whole, a, e) =
    (h, p, rest ++ more, is, whole, a, ap (λ v. v ++ more) e ∙ sym (regroup h p rest more))

byte-Follows : (s : ServerFrameScanner) (o : InboundObservation) (b : ℕ) → FedFollows s (byte s o b)
unfolding byte settled
byte-Follows s o b = go (turn s o (b ∷ [])) (turn-Follows s o (b ∷ []))
  where
    go : (t : Turn) → TurnFollows s t → FedFollows s (settled t)
    go (done (ok (o', s'))) h = h
    go (done (err s')) h = h
    go (again s' o' rest) h = h

payload_turn-initial :
    (k : ScannedPayload) (s : ServerFrameScanner) (o : InboundObservation) (xs : Str)
    → k ≡ initial_settings
    → payload_turn k s o xs ≡ pair_turn s o xs
unfolding payload_turn
payload_turn-initial k s o xs e = subst (λ v. payload_turn v s o xs ≡ pair_turn s o xs) (sym e) refl

byte-Reads :
    (s : ServerFrameScanner) (r : Str) (o : InboundObservation) (b : ℕ)
    → Reads s r
    → FedKnows (r ++ b ∷ []) (byte s o b)
unfolding byte turn
byte-Reads s _ o b (in_header _ over room unknown) =
    let zero_left : (s.payload_remaining == 0) ≡ true = ground arith in
    rw (zero_left, header_turn-one s o b [] (omega arith))
      (elim (Bool-cases (ltb (length s.header + 1) 9)) [
        | inl t ↦ rw t (
            unfold settled in
            inl (
              in_header (with_header s b) over (ground (arith, length-append s.header (b ∷ [])))
                unknown))
        | inr f ↦ rw f (
            begun-Knows (with_header s b) o (ground (arith, length-append s.header (b ∷ [])))
              unknown)
      ])
byte-Reads s _ o b (in_pair _ h p is a left pairs (initial, more, room, unknown, no_header)) =
    let some_left : (s.payload_remaining == 0) ≡ false = ground arith in
    rw some_left (
      subst (λ t. FedKnows ((h ++ (p ++ s.pair)) ++ b ∷ []) (settled t))
        (sym (
          payload_turn-initial s.payload s o (b ∷ []) initial
          ∙ pair_turn-one s o b [] (omega arith)))
        (paired-Knows s o b h p is a left pairs (initial, more, room, unknown, no_header)))

known-FedKnows :
    (s : ServerFrameScanner) (r : Str) (settings : InitialH2Settings) (fed : Fed)
    → Fits s
    → s.settings ≡ some settings
    → Begins r settings
    → FedFollows s fed
    → FedKnows r fed
known-FedKnows s r settings (ok (o, s')) fits known begins follows =
    inr (settings, (follows fits).1 settings known, begins)
known-FedKnows s r settings (err s') fits known begins follows = tt

byte-Knows :
    (s : ServerFrameScanner) (r : Str) (o : InboundObservation) (b : ℕ)
    → Fits s
    → Knows s r
    → FedKnows (r ++ b ∷ []) (byte s o b)
byte-Knows s r o b fits (inl reads) = byte-Reads s r o b reads
byte-Knows s r o b fits (inr (settings, known, begins)) =
    known-FedKnows s (r ++ b ∷ []) settings (byte s o b) fits known
      (Begins-append r (b ∷ []) settings begins) (byte-Follows s o b)

bytes-Knows :
    (s : ServerFrameScanner) (r : Str) (o : InboundObservation) (xs : Str)
    → Fits s
    → Knows s r
    → FedKnows (r ++ xs) (bytes s o xs)
unfolding bytes
bytes-Knows s r o [] fits k = subst (Knows s) (sym (append-nil r)) k
bytes-Knows s r o (b ∷ bs) fits k =
    go (byte s o b) (byte-Knows s r o b fits k) (byte-Follows s o b)
      (λ s' o'. bytes-Knows s' (r ++ b ∷ []) o' bs)
  where
    go :
        (fed : Fed)
        → FedKnows (r ++ b ∷ []) fed
        → FedFollows s fed
        → ((s' : ServerFrameScanner) (o' : InboundObservation)
            → Fits s'
            → Knows s' (r ++ b ∷ [])
            → FedKnows ((r ++ b ∷ []) ++ bs) (bytes s' o' bs))
        → FedKnows (r ++ b ∷ bs) (fed >>= λ f. bytes f.1 f.0 bs)
    go (ok (o', s')) h follows ih =
        subst (λ text. FedKnows text (bytes s' o' bs)) (append_assoc r (b ∷ []) bs)
          (ih s' o' (follows fits).0 h)
    go (err s') h follows ih = tt

pub new_scanner-Knows : Knows new_scanner []
new_scanner-Knows = inl (in_header new_scanner refl (omega arith) refl)

pub feed-Knows :
    (s : ServerFrameScanner) (r xs : Str) {fed : Fed}
    → IsReady s
    → Fits s
    → Knows s r
    → feed s xs ≡ some fed
    → FedKnows (r ++ xs) fed
feed-Knows s r xs {fed} ready fits k q =
    let same : bytes s no_observation xs ≡ fed = some_inj (sym (feed-bytes s xs ready) ∙ q) in
    subst (FedKnows (r ++ xs)) same (bytes-Knows s r no_observation xs fits k)

pub Knows-settings :
    (s : ServerFrameScanner) (r : Str) (settings : InitialH2Settings)
    → s.settings ≡ some settings
    → Knows s r
    → Begins r settings
Knows-settings s _ settings e (inl (in_header _ over room unknown)) = absurd (ground arith)
Knows-settings s _ settings e (inl (in_pair _ h p is a left pairs (x, more, room, unknown, y))) =
    absurd (ground arith)
Knows-settings s r settings e (inr (known, f, begins)) =
    subst (Begins r) (some_inj (sym f ∙ e)) begins
