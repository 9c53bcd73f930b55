-- ===== src/Proxy/Frames/Ready.antt =====
-- src/proxy.rs: what every pass of the scanner's loop leaves behind, errors included.
use auth_mini_gateway.Prelude.{
  ℕ, ◌%◌, ◌^◌, ◌≤◌, ◌<◌, ◌≡◌, refl, [], length, arith, Option, none, some,
}
use auth_mini_gateway.Prelude.Result.{ok, err}
use auth_mini_gateway.Prelude.Text.{Str}
use auth_mini_gateway.Proxy.Frames.{
  ServerFrameScanner, ScannedPayload, skip, initial_settings, later_settings, begin_frame,
  begin_payload, consume_pair, pair_of, initial_pair, opened, be16, be24, be32, byte_at,
  InitialH2Settings, new_scanner,
}

-- The buffers are not full, except that a pair which was refused stays, and is refused again.
pub record IsReady (s : ServerFrameScanner) : Type 0 where
  pub header_room : length s.header < 9
  pub pair_room : length s.pair ≤ 6
  pub full : length s.pair ≡ 6 → consume_pair s ≡ err s

pub empty_pair-IsReady :
    (s : ServerFrameScanner) → length s.header < 9 → length s.pair ≡ 0 → IsReady s
empty_pair-IsReady s h p = record {
  header_room = h;
  pair_room = omega arith;
  full = λ f. absurd (omega arith);
}

pub new_scanner-IsReady : IsReady new_scanner
new_scanner-IsReady = empty_pair-IsReady new_scanner (omega arith) refl

initial_pair-err :
    (s : ServerFrameScanner) (id value : ℕ) {s' : ServerFrameScanner}
    → initial_pair s id value ≡ err s'
    → s' ≡ s
unfolding initial_pair
initial_pair-err s id value q = ground arith

initial_pair-ok :
    (s : ServerFrameScanner) (id value : ℕ) {s' : ServerFrameScanner}
    → initial_pair s id value ≡ ok s'
    → s'.header ≡ s.header
unfolding initial_pair
initial_pair-ok s id value q = ground arith

pair_of-err :
    (p : ScannedPayload) (s : ServerFrameScanner) (id value : ℕ) {s' : ServerFrameScanner}
    → pair_of p s id value ≡ err s'
    → s' ≡ s
unfolding pair_of
pair_of-err skip s id value q = ground arith
pair_of-err initial_settings s id value q = initial_pair-err s id value q
pair_of-err later_settings s id value q = ground arith

pair_of-ok :
    (p : ScannedPayload) (s : ServerFrameScanner) (id value : ℕ) {s' : ServerFrameScanner}
    → pair_of p s id value ≡ ok s'
    → s'.header ≡ s.header
unfolding pair_of
pair_of-ok skip s id value q = ground arith
pair_of-ok initial_settings s id value q = initial_pair-ok s id value q
pair_of-ok later_settings s id value q = ground arith

pub consume_pair-err :
    (s : ServerFrameScanner) {s' : ServerFrameScanner} → consume_pair s ≡ err s' → s' ≡ s
unfolding consume_pair
consume_pair-err s q = pair_of-err s.payload s _ _ q

initial_pair-moved :
    (s : ServerFrameScanner) (id value : ℕ) (h : Str) (n : ℕ)
    → initial_pair s id value ≡ err s
    → initial_pair (record s { header = h; payload_remaining = n }) id value
      ≡ err (record s { header = h; payload_remaining = n })
unfolding initial_pair
initial_pair-moved s id value h n q = ground arith

pair_of-moved :
    (p : ScannedPayload) (s : ServerFrameScanner) (id value : ℕ) (h : Str) (n : ℕ)
    → pair_of p s id value ≡ err s
    → pair_of p (record s { header = h; payload_remaining = n }) id value
      ≡ err (record s { header = h; payload_remaining = n })
unfolding pair_of
pair_of-moved skip s id value h n q = absurd (ground arith)
pair_of-moved initial_settings s id value h n q = initial_pair-moved s id value h n q
pair_of-moved later_settings s id value h n q = absurd (ground arith)

pub moved-IsReady :
    (s : ServerFrameScanner) (h : Str) (n : ℕ)
    → IsReady s
    → length h < 9
    → IsReady (record s { header = h; payload_remaining = n })
unfolding consume_pair
moved-IsReady s h n ready room = record {
  header_room = room;
  pair_room = ready.pair_room;
  full = λ six. pair_of-moved s.payload s (be16 0 s.pair) (be32 2 s.pair) h n (ready.full six);
}

pub consume_pair-ok :
    (s : ServerFrameScanner) {s' : ServerFrameScanner}
    → consume_pair s ≡ ok s'
    → s'.header ≡ s.header
unfolding consume_pair
consume_pair-ok s q = pair_of-ok s.payload s _ _ q

begin_payload-err :
    (s : ServerFrameScanner) (n frame_type flags stream : ℕ) (settings : Option InitialH2Settings)
    {s' : ServerFrameScanner}
    → begin_payload s n frame_type flags stream settings ≡ err s'
    → (s'.header ≡ s.header) × (s'.pair ≡ s.pair)
unfolding begin_payload
begin_payload-err s n frame_type flags stream none q = ground arith
begin_payload-err s n frame_type flags stream (some settings) q = ground arith

begin_payload-ok :
    (s : ServerFrameScanner) (n frame_type flags stream : ℕ) (settings : Option InitialH2Settings)
    {s' : ServerFrameScanner}
    → begin_payload s n frame_type flags stream settings ≡ ok s'
    → (s'.header ≡ s.header) × (s'.pair ≡ s.pair)
unfolding begin_payload
begin_payload-ok s n frame_type flags stream none q = ground arith
begin_payload-ok s n frame_type flags stream (some settings) q = ground arith

pub begin_frame-err :
    (s : ServerFrameScanner) {s' : ServerFrameScanner}
    → begin_frame s ≡ err s'
    → (s'.header ≡ []) × (s'.pair ≡ [])
unfolding begin_frame
begin_frame-err s q =
    begin_payload-err (opened s) (be24 0 s.header) (byte_at 3 s.header) (byte_at 4 s.header)
      (be32 5 s.header % 2 ^ 31) s.settings q

pub begin_frame-ok :
    (s : ServerFrameScanner) {s' : ServerFrameScanner}
    → begin_frame s ≡ ok s'
    → (s'.header ≡ []) × (s'.pair ≡ [])
unfolding begin_frame
begin_frame-ok s q =
    begin_payload-ok (opened s) (be24 0 s.header) (byte_at 3 s.header) (byte_at 4 s.header)
      (be32 5 s.header % 2 ^ 31) s.settings q
