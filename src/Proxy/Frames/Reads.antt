-- ===== src/Proxy/Frames/Reads.antt =====
-- src/proxy.rs: a row of reads, and what the scanner reports of all of them.
use auth_mini_gateway.Prelude.{
  ℕ, ◌≡◌, refl, ap, sym, ◌∙◌, Option, none, some, List, [], ◌∷◌, ◌++◌, length, arith,
}
use auth_mini_gateway.Prelude.Result.{ok, err, ◌>>=◌}
use auth_mini_gateway.Prelude.Text.{Str}
use auth_mini_gateway.Proxy.Frames.{
  ServerFrameScanner, InboundObservation, Fed, Turn, done, again, turn, feed, no_observation,
}
use auth_mini_gateway.Proxy.Frames.Bytes.{settled, byte, bytes}
use auth_mini_gateway.Proxy.Frames.Ready.{IsReady}
use auth_mini_gateway.Proxy.Frames.Passes.{Leaves, Leaves-turn}
use auth_mini_gateway.Proxy.Frames.Chunks.{feed_loop-bytes}
use auth_mini_gateway.Proxy.Frames.Feeds.{behind, bytes-behind}

-- The scanner is ready, also where a feed failed.
abbrev pub LeavesReady : Fed → Type 0
LeavesReady (ok (o, s)) = IsReady s
LeavesReady (err s) = IsReady s

byte-LeavesReady :
    (s : ServerFrameScanner) (o : InboundObservation) (b : ℕ) → IsReady s → LeavesReady (byte s o b)
unfolding byte settled
byte-LeavesReady s o b ready = go (turn s o (b ∷ [])) (Leaves-turn s o b [] ready)
  where
    go : (t : Turn) → Leaves 0 t → LeavesReady (settled t)
    go (done (ok (o', s'))) h = h
    go (done (err s')) h = h
    go (again s' o' rest) h = h.0

bytes-LeavesReady :
    (s : ServerFrameScanner) (o : InboundObservation) (xs : Str)
    → IsReady s
    → LeavesReady (bytes s o xs)
unfolding bytes
bytes-LeavesReady s o [] ready = ready
bytes-LeavesReady s o (b ∷ bs) ready =
    go (byte s o b) (byte-LeavesReady s o b ready) (λ s' o'. bytes-LeavesReady s' o' bs)
  where
    go :
        (f : Fed)
        → LeavesReady f
        → ((s' : ServerFrameScanner) (o' : InboundObservation)
            → IsReady s'
            → LeavesReady (bytes s' o' bs))
        → LeavesReady (f >>= λ fed. bytes fed.1 fed.0 bs)
    go (ok (o', s')) h ih = ih s' o' h
    go (err s') h ih = h

bytes-append :
    (s : ServerFrameScanner) (o : InboundObservation) (xs ys : Str)
    → bytes s o (xs ++ ys) ≡ (bytes s o xs >>= λ fed. bytes fed.1 fed.0 ys)
unfolding bytes
bytes-append s o [] ys = refl
bytes-append s o (x ∷ xs) ys = go (byte s o x) (λ s' o'. bytes-append s' o' xs ys)
  where
    go :
        (f : Fed)
        → ((s' : ServerFrameScanner) (o' : InboundObservation)
            → bytes s' o' (xs ++ ys) ≡ (bytes s' o' xs >>= λ fed. bytes fed.1 fed.0 ys))
        → (f >>= λ fed. bytes fed.1 fed.0 (xs ++ ys))
          ≡ ((f >>= λ fed. bytes fed.1 fed.0 xs) >>= λ fed. bytes fed.1 fed.0 ys)
    go (ok (o', s')) ih = ih s' o'
    go (err s') ih = refl

any_behind : InboundObservation → Option Fed → Option Fed
any_behind o none = none
any_behind o (some fed) = some (behind o fed)

-- The reads one after the other, up to the first that fails, with what they observe together.
unfoldable pub fed_then : Option Fed → (ServerFrameScanner → Option Fed) → Option Fed
unfolding any_behind
fed_then none next = none
fed_then (some (err s)) next = some (err s)
fed_then (some (ok (o, s))) next = any_behind o (next s)

unfoldable pub feed_all : ServerFrameScanner → List Str → Option Fed
unfolding fed_then
feed_all s [] = some (ok (no_observation, s))
feed_all s (read ∷ reads) = fed_then (feed s read) (λ s'. feed_all s' reads)

abbrev pub concat : List Str → Str
concat [] = []
concat (read ∷ reads) = read ++ concat reads

pub feed-bytes :
    (s : ServerFrameScanner) (xs : Str) → IsReady s → feed s xs ≡ some (bytes s no_observation xs)
unfolding feed
feed-bytes s xs ready = feed_loop-bytes (length xs) s no_observation xs ready (omega arith)

-- The loop of a read returns, and leaves the scanner ready, also when it fails.
pub feed-returns :
    (s : ServerFrameScanner) (xs : Str)
    → IsReady s
    → (fed : Fed) × (feed s xs ≡ some fed) × LeavesReady fed
feed-returns s xs ready =
    (bytes s no_observation xs, feed-bytes s xs ready, bytes-LeavesReady s no_observation xs ready)

feed_all-bytes :
    (s : ServerFrameScanner) (reads : List Str)
    → IsReady s
    → feed_all s reads ≡ some (bytes s no_observation (concat reads))
unfolding feed_all fed_then any_behind
feed_all-bytes s [] ready = unfold bytes in refl
feed_all-bytes s (read ∷ reads) ready =
    rw (feed-bytes s read ready, bytes-append s no_observation read (concat reads))
      (go (bytes s no_observation read) (bytes-LeavesReady s no_observation read ready)
        (λ s'. feed_all-bytes s' reads))
  where
    go :
        (f : Fed)
        → LeavesReady f
        → ((s' : ServerFrameScanner)
            → IsReady s'
            → feed_all s' reads ≡ some (bytes s' no_observation (concat reads)))
        → fed_then (some f) (λ s'. feed_all s' reads)
          ≡ some (f >>= λ fed. bytes fed.1 fed.0 (concat reads))
    go (ok (o, s')) h ih =
        ap (any_behind o) (ih s' h) ∙ ap some (sym (bytes-behind s' o (concat reads)))
    go (err s') h ih = refl

-- However the bytes of a server are cut into reads, the scanner comes to the same end: it fails at the
-- same byte, or it holds the same state and has observed the same settings and the same revocation as
-- if it had read them at once. The loop of each read ends within one pass for each byte, whatever the
-- bytes are, and leaves the scanner ready for the next read, also when it fails.
pub feed_all-concat :
    (s : ServerFrameScanner) (reads : List Str)
    → IsReady s
    → (feed_all s reads ≡ feed s (concat reads))
      × ((fed : Fed) × (feed s (concat reads) ≡ some fed) × LeavesReady fed)
feed_all-concat s reads ready = (
  feed_all-bytes s reads ready ∙ sym (feed-bytes s (concat reads) ready),
  (
    bytes s no_observation (concat reads),
    feed-bytes s (concat reads) ready,
    bytes-LeavesReady s no_observation (concat reads) ready,
  ),
)
