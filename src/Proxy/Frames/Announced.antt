-- ===== src/Proxy/Frames/Announced.antt =====
-- src/proxy.rs: what the scanner knows of a server, as the bytes that the server has sent.
use auth_mini_gateway.Prelude.{
  ℕ, ◌+◌, ◌%◌, ◌^◌, ◌≤◌, ◌<◌, ◌≡◌, ◌≢◌, ◌⊎◌, inl, inr, subst, none, some, [], ◌++◌, length, ◌==◌,
  arith, Bool-cases,
}
use auth_mini_gateway.Prelude.Result.{ok, err}
use auth_mini_gateway.Prelude.Text.{Str}
use auth_mini_gateway.Proxy.Frames.{
  InitialH2Settings, no_settings, ServerFrameScanner, initial_settings, begin_frame, begin_payload,
  opened, initial_pair, Fed, be16, be24, be32, byte_at,
}

-- The payload of a SETTINGS frame and what it announces: the last value of each parameter counts.
pub data Announces : Str → InitialH2Settings → Type 0 where
  nothing : Announces [] no_settings
  streams :
      (p pair : Str) (s : InitialH2Settings)
      → Announces p s
      → length pair ≡ 6
      → be16 0 pair ≡ 3
      → Announces (p ++ pair) (record s { max_concurrent_streams = some (be32 2 pair) })
  connect :
      (p pair : Str) (s : InitialH2Settings)
      → Announces p s
      → length pair ≡ 6
      → be16 0 pair ≡ 8
      → be32 2 pair ≤ 1
      → Announces (p ++ pair) (record s { extended_connect = be32 2 pair == 1 })
  other :
      (p pair : Str) (s : InitialH2Settings)
      → Announces p s
      → length pair ≡ 6
      → be16 0 pair ≢ 3
      → be16 0 pair ≢ 8
      → Announces (p ++ pair) s

-- The header of a SETTINGS frame without the flag ACK, on stream 0.
abbrev pub IsSettings : Str → Type 0
IsSettings h =
    (length h ≡ 9)
    × (byte_at 3 h ≡ 4)
    × (byte_at 4 h % 2 ≡ 0)
    × (be32 5 h % 2 ^ 31 ≡ 0)
    × (be24 0 h % 6 ≡ 0)

-- The first frame is a whole SETTINGS frame that announces them.
abbrev pub Begins : Str → InitialH2Settings → Type 0
Begins received settings =
    (h : Str) × (p : Str) × (rest : Str) × IsSettings h
    × (length p ≡ be24 0 h)
    × Announces p settings
    × (received ≡ h ++ (p ++ rest))

-- While no SETTINGS are known: within the first header, or within its payload.
pub data Reads : ServerFrameScanner → Str → Type 0 where
  in_header :
      (s : ServerFrameScanner)
      → s.payload_remaining ≡ 0
      → length s.header < 9
      → s.settings ≡ none
      → Reads s s.header
  in_pair :
      (s : ServerFrameScanner) (h p : Str)
      → IsSettings h
      → Announces p s.building_initial
      → (length p + length s.pair) + s.payload_remaining ≡ be24 0 h
      → length p % 6 ≡ 0
      → (s.payload ≡ initial_settings)
        × (0 < s.payload_remaining)
        × (length s.pair < 6)
        × (s.settings ≡ none)
        × (s.header ≡ [])
      → Reads s (h ++ (p ++ s.pair))

abbrev pub Knows : ServerFrameScanner → Str → Type 0
Knows s r =
    Reads s r ⊎ ((settings : InitialH2Settings) × (s.settings ≡ some settings) × Begins r settings)

abbrev pub FedKnows : Str → Fed → Type 0
FedKnows r (ok (o, s)) = Knows s r
FedKnows r (err s) = Unit

module _ (s : ServerFrameScanner) (id value : ℕ) {s' : ServerFrameScanner} where
  streams_built :
      initial_pair s id value ≡ ok s'
      → id ≡ 3
      → record s.building_initial { max_concurrent_streams = some value } ≡ s'.building_initial
  unfolding initial_pair
  streams_built q e = ground arith

  connect_built :
      initial_pair s id value ≡ ok s'
      → id ≡ 8
      → (value ≤ 1)
        × (record s.building_initial { extended_connect = value == 1 } ≡ s'.building_initial)
  unfolding initial_pair
  connect_built q e = (ground arith, ground arith)

  other_built :
      initial_pair s id value ≡ ok s' → id ≢ 3 → id ≢ 8 → s.building_initial ≡ s'.building_initial
  unfolding initial_pair
  other_built q e f = ground arith

  pub initial_pair-kept :
      initial_pair s id value ≡ ok s'
      → (s'.payload ≡ s.payload)
        × (s'.settings ≡ s.settings)
        × (s'.header ≡ s.header)
        × (s'.payload_remaining ≡ s.payload_remaining)
  unfolding initial_pair
  initial_pair-kept q = ground arith

-- A pair of the first SETTINGS.
pub initial_pair-Announces :
    (s : ServerFrameScanner) (p : Str) {s' : ServerFrameScanner}
    → Announces p s.building_initial
    → length s.pair ≡ 6
    → initial_pair s (be16 0 s.pair) (be32 2 s.pair) ≡ ok s'
    → Announces (p ++ s.pair) s'.building_initial
initial_pair-Announces s p {s'} a six q = elim (Bool-cases (be16 0 s.pair == 0x3)) [
  | inl three ↦
      let id : be16 0 s.pair ≡ 3 = ground arith in
      subst (Announces (p ++ s.pair)) (streams_built s _ (be32 2 s.pair) q id)
        (streams p s.pair s.building_initial a six id)
  | inr f ↦ elim (Bool-cases (be16 0 s.pair == 0x8)) [
    | inl eight ↦
        let id : be16 0 s.pair ≡ 8 = ground arith in
        let (bit, built) = connect_built s _ (be32 2 s.pair) q id in
        subst (Announces (p ++ s.pair)) built (connect p s.pair s.building_initial a six id bit)
    | inr g ↦
        let not_three : be16 0 s.pair ≢ 3 = λ e. ground arith in
        let not_eight : be16 0 s.pair ≢ 8 = λ e. ground arith in
        subst (Announces (p ++ s.pair)) (other_built s _ (be32 2 s.pair) q not_three not_eight)
          (other p s.pair s.building_initial a six not_three not_eight)
  ]
]

begin_payload-IsSettings :
    (s : ServerFrameScanner) (n frame_type flags stream : ℕ) {s' : ServerFrameScanner}
    → begin_payload s n frame_type flags stream none ≡ ok s'
    → (frame_type ≡ 4)
      × (flags % 2 ≡ 0)
      × (stream ≡ 0)
      × (n % 6 ≡ 0)
      × (record s { building_initial = no_settings; payload = initial_settings } ≡ s')
unfolding begin_payload
begin_payload-IsSettings s n frame_type flags stream q = ground arith

pub begin_frame-IsSettings :
    (s : ServerFrameScanner) {s' : ServerFrameScanner}
    → length s.header ≡ 9
    → s.settings ≡ none
    → begin_frame s ≡ ok s'
    → IsSettings s.header
      × (record (opened s) { building_initial = no_settings; payload = initial_settings } ≡ s')
unfolding begin_frame
begin_frame-IsSettings s {s'} nine unknown q =
    let (kind, flags, stream, six, made) =
      begin_payload-IsSettings (opened s) (be24 0 s.header) (byte_at 3 s.header)
        (byte_at 4 s.header) (be32 5 s.header % 2 ^ 31)
        (subst
          (λ k.
            begin_payload (opened s) (be24 0 s.header) (byte_at 3 s.header) (byte_at 4 s.header)
              (be32 5 s.header % 2 ^ 31) k
            ≡ ok s')
          unknown q) in
    ((nine, kind, flags, stream, six), made)
