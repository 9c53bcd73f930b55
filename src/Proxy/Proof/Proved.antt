-- ===== src/Proxy/Proof/Proved.antt =====
-- src/proxy.rs: when a connection counts as proved.
use auth_mini_gateway.Prelude.{
  ℕ, zero, suc, ◌-◌, min, ◌≡◌, refl, sym, ap, ◌∙◌, subst, Bool, true, false, not, Option, none,
  some, List, [], ◌∷◌, ◌++◌, append-nil, append_assoc, length, take, ◌==◌, arith, Bool-cases, inl,
  ◌⊎◌, inr, if◌then◌else◌,
}
use auth_mini_gateway.Prelude.Result.{Result, ok, err}
use auth_mini_gateway.Prelude.Text.{Str}
use auth_mini_gateway.Proxy.Frames.{InitialH2Settings, ServerFrameScanner, Fed, feed}
use auth_mini_gateway.Proxy.Frames.Ready.{IsReady, new_scanner-IsReady}
use auth_mini_gateway.Proxy.Frames.Reads.{LeavesReady, feed-returns, concat}
use auth_mini_gateway.Proxy.Frames.Settings.{Fits, FedFollows, feed-Follows}
use auth_mini_gateway.Proxy.Frames.Announced.{Begins, Knows, FedKnows}
use auth_mini_gateway.Proxy.Frames.Known.{
  Knows-settings, Begins-append, new_scanner-Knows, feed-Knows,
}
use auth_mini_gateway.Proxy.Acks.{ClientAckParser}
use auth_mini_gateway.Proxy.Acks.Returns.{feed_acks-returns}
use auth_mini_gateway.Proxy.Acks.Sent.{
  Acknowledges, Acknowledges-append, Tracks, FedTracks, Tracks-seen, new_acks-Tracks,
  feed_acks-Tracks,
}
use auth_mini_gateway.Proxy.Generation.{GenerationControl}
use auth_mini_gateway.Proxy.Proof.{
  H2ProofStatus, pending, proved, failed, H2ProofState, new_proof, is_pending, ready_with,
  proof_status, publish_status, install_observed, revoke_observed, apply_installed,
  apply_observation, after_inbound, fed_inbound, observe_inbound, after_outbound, fed_outbound,
  observe_outbound, and_then, observe_outbound_vectored, io_failed, mark_transport_dropped,
}
use auth_mini_gateway.Proxy.Proof.Events.{
  ProofEvent, reads, writes, fails, drops, poisons, controls, run, received, sent, take-append,
}

-- What a status says of the bytes of both sides.
abbrev pub Stands : H2ProofStatus → ClientAckParser → ServerFrameScanner → Str → Str → Type 0
Stands pending out in_ w r =
    Tracks out w × Knows in_ r × ((out.ack_seen ≡ false) ⊎ (in_.settings ≡ none))
Stands (proved settings) out in_ w r = Acknowledges w × Begins r settings
Stands failed out in_ w r = Unit

abbrev Holds : H2ProofState → Str → Str → Type 0
Holds s w r = IsReady s.inbound × Fits s.inbound × Stands s.status s.outbound s.inbound w r

abbrev Comes : Option H2ProofState → Str → Str → Type 0
Comes o w r = (s : H2ProofState) × (o ≡ some s) × Holds s w r

pending_status : (st : H2ProofStatus) → is_pending st ≡ true → st ≡ pending
pending_status pending h = refl
pending_status (proved x) h = absurd (ground arith)
pending_status failed h = absurd (ground arith)

-- More bytes change nothing of a status that is no longer pending.
Stands-more :
    (st : H2ProofStatus) (out out' : ClientAckParser) (in_ in' : ServerFrameScanner) (w v r q : Str)
    → is_pending st ≡ false
    → Stands st out in_ w r
    → Stands st out' in' (w ++ v) (r ++ q)
Stands-more pending out out' in_ in' w v r q f h = absurd (ground arith)
Stands-more (proved x) out out' in_ in' w v r q f (ack, begins) =
    (Acknowledges-append w v ack, Begins-append r q x begins)
Stands-more failed out out' in_ in' w v r q f h = tt

Stands-pending :
    (st : H2ProofStatus) (out : ClientAckParser) (in_ : ServerFrameScanner) (w r : Str)
    → is_pending st ≡ true
    → Stands st out in_ w r
    → Tracks out w × Knows in_ r
Stands-pending st out in_ w r p h =
    let (tracks, knows, missing) = subst (λ v. Stands v out in_ w r) (pending_status st p) h in
    (tracks, knows)

ready_with-Stands :
    (ack : Bool) (known : Option InitialH2Settings) (out : ClientAckParser)
    (in_ : ServerFrameScanner) (w r : Str)
    → out.ack_seen ≡ ack
    → in_.settings ≡ known
    → Tracks out w
    → Knows in_ r
    → Stands (if ack then ready_with known else pending) out in_ w r
ready_with-Stands false known out in_ w r a k tracks knows = (tracks, knows, inl a)
ready_with-Stands true none out in_ w r a k tracks knows = (tracks, knows, inr k)
ready_with-Stands true (some settings) out in_ w r a k tracks knows =
    (Tracks-seen out w a tracks, Knows-settings in_ r settings k knows)

publish_status-Holds :
    (status : H2ProofStatus) (s : H2ProofState) (w r : Str)
    → IsReady s.inbound
    → Fits s.inbound
    → (is_pending s.status ≡ false → Stands s.status s.outbound s.inbound w r)
    → (is_pending s.status ≡ true → Stands status s.outbound s.inbound w r)
    → Holds (publish_status status s) w r
unfolding publish_status
publish_status-Holds status s w r ready fits over now = elim (Bool-cases (is_pending s.status)) [
  | inl t ↦ elim (Bool-cases (is_pending status)) [
    | inl u ↦ rw u (
      ready,
      fits,
      subst (λ v. Stands v s.outbound s.inbound w r)
          (pending_status status u ∙ sym (pending_status s.status t)) (now t),
    )
    | inr f ↦ rw (f, t) (ready, fits, now t)
  ]
  | inr g ↦ elim (Bool-cases (is_pending status)) [
    | inl u ↦ rw u (ready, fits, over g)
    | inr f ↦ rw (f, g) (ready, fits, over g)
  ]
]

apply_installed-Holds :
    (result : Result (Unit {0}) (Unit {0})) (status : H2ProofStatus) (revoke : Bool)
    (s : H2ProofState) (w r : Str)
    → IsReady s.inbound
    → Fits s.inbound
    → (is_pending s.status ≡ false → Stands s.status s.outbound s.inbound w r)
    → (is_pending s.status ≡ true → Stands status s.outbound s.inbound w r)
    → Holds (apply_installed result status revoke s) w r
unfolding apply_installed revoke_observed
apply_installed-Holds (err tt) status revoke s w r ready fits over now = (ready, fits, tt)
apply_installed-Holds (ok tt) status true s w r ready fits over now =
    publish_status-Holds status _ w r ready fits over now
apply_installed-Holds (ok tt) status false s w r ready fits over now =
    publish_status-Holds status s w r ready fits over now

apply_observation-Holds :
    (status : H2ProofStatus) (initial : Option InitialH2Settings) (revoke : Bool) (s : H2ProofState)
    (w r : Str)
    → IsReady s.inbound
    → Fits s.inbound
    → (is_pending s.status ≡ false → Stands s.status s.outbound s.inbound w r)
    → (is_pending s.status ≡ true → Stands status s.outbound s.inbound w r)
    → Holds (apply_observation status initial revoke s) w r
unfolding apply_observation
apply_observation-Holds status initial revoke s w r ready fits over now =
    apply_installed-Holds (install_observed initial s.control).0 status revoke
      (record s { control = (install_observed initial s.control).1 }) w r ready fits over now

more_received :
    (s : H2ProofState) (in' : ServerFrameScanner) (w r q : Str)
    → Holds s w r
    → is_pending s.status ≡ false
    → Stands s.status s.outbound in' w (r ++ q)
more_received s in' w r q (ready, fits, h) f =
    subst (λ v. Stands s.status s.outbound in' v (r ++ q)) (append-nil w)
      (Stands-more s.status s.outbound s.outbound s.inbound in' w [] r q f h)

more_sent :
    (s : H2ProofState) (w v r : Str)
    → Holds s w r
    → is_pending s.status ≡ false
    → Stands s.status s.outbound s.inbound (w ++ v) r
more_sent s w v r (ready, fits, h) f =
    subst (λ q. Stands s.status s.outbound s.inbound (w ++ v) q) (append-nil r)
      (Stands-more s.status s.outbound s.outbound s.inbound s.inbound w v r [] f h)

after_inbound-Holds :
    (fed : Fed) (s : H2ProofState) (w r q : Str)
    → Holds s w r
    → LeavesReady fed
    → FedFollows s.inbound fed
    → (Knows s.inbound r → FedKnows (r ++ q) fed)
    → Holds (after_inbound fed s) w (r ++ q)
unfolding after_inbound proof_status
after_inbound-Holds (ok (o, in')) s w r q h left follows knows =
    apply_observation-Holds _ o.initial o.revoke (record s { inbound = in' }) w (r ++ q) left
      (follows h.1).0 (more_received s in' w r q h)
      (λ p.
        let (tracks, k) = Stands-pending s.status s.outbound s.inbound w r p h.2 in
        ready_with-Stands s.outbound.ack_seen in'.settings s.outbound in' w (r ++ q) refl refl
          tracks (knows k))
after_inbound-Holds (err in') s w r q h left follows knows =
    apply_observation-Holds failed none false (record s { inbound = in' }) w (r ++ q) left
      (follows h.1).0 (more_received s in' w r q h) (λ p. tt)

take-nil : (n : ℕ) → ◌≡◌ {A = Str} (take n []) []
unfolding take
take-nil zero = refl
take-nil (suc n) = refl

Comes-some : (s : H2ProofState) (w r : Str) → Holds s w r → Comes (some s) w r
Comes-some s w r h = (s, refl, h)

Comes-if :
    (c : Bool) (x y : Option H2ProofState) (w r : Str)
    → (c ≡ true → Comes x w r)
    → (c ≡ false → Comes y w r)
    → Comes (if c then x else y) w r
Comes-if true x y w r f g = f refl
Comes-if false x y w r f g = g refl

observe_inbound-Comes :
    (bytes : Str) (s : H2ProofState) (w r : Str)
    → Holds s w r
    → Comes (observe_inbound bytes s) w (r ++ bytes)
unfolding observe_inbound fed_inbound
observe_inbound-Comes bytes s w r h =
    let (fed, returned, left) = feed-returns s.inbound bytes h.0 in
    Comes-if s.parser_poisoned (some (apply_observation failed none true s))
      (fed_inbound (feed s.inbound bytes) s) w (r ++ bytes)
      (λ _. Comes-some _ w (r ++ bytes) (
        apply_observation-Holds failed none true s w (r ++ bytes) h.0 h.1
          (more_received s s.inbound w r bytes h) (λ p. tt)))
      (λ _.
        subst (λ o. Comes (fed_inbound o s) w (r ++ bytes)) (sym returned)
          (Comes-some _ w (r ++ bytes) (
            after_inbound-Holds fed s w r bytes h left (feed-Follows s.inbound bytes returned)
              (λ k. feed-Knows s.inbound r bytes h.0 h.1 k returned))))

after_outbound-Holds :
    (fed : Result ClientAckParser ClientAckParser) (s : H2ProofState) (w v r : Str)
    → Holds s w r
    → is_pending s.status ≡ true
    → (Tracks s.outbound w → FedTracks (w ++ v) fed)
    → Holds (after_outbound fed s) (w ++ v) r
unfolding after_outbound proof_status
after_outbound-Holds (ok out) s w v r h p tracks =
    let (t, k) = Stands-pending s.status s.outbound s.inbound w r p h.2 in
    publish_status-Holds _ (record s { outbound = out }) (w ++ v) r h.0 h.1
      (λ f. absurd (ground arith))
      (λ _.
        ready_with-Stands out.ack_seen s.inbound.settings out s.inbound (w ++ v) r refl refl
          (tracks t) k)
after_outbound-Holds (err out) s w v r h p tracks =
    publish_status-Holds failed (record s { outbound = out }) (w ++ v) r h.0 h.1
      (λ f. absurd (ground arith)) (λ _. tt)

observe_outbound-Comes :
    (bytes : Str) (s : H2ProofState) (w r : Str)
    → Holds s w r
    → Comes (observe_outbound bytes s) (w ++ bytes) r
unfolding observe_outbound fed_outbound
observe_outbound-Comes bytes s w r h =
    let (fed, returned) = feed_acks-returns s.outbound bytes in
    Comes-if (not (is_pending s.status)) (some s) _ (w ++ bytes) r
      (λ over. Comes-some s (w ++ bytes) r (h.0, h.1, more_sent s w bytes r h (ground arith)))
      (λ p.
        Comes-if s.parser_poisoned (some (publish_status failed s)) _ (w ++ bytes) r
          (λ _. Comes-some _ (w ++ bytes) r (
            publish_status-Holds failed s (w ++ bytes) r h.0 h.1 (more_sent s w bytes r h)
              (λ _. tt)))
          (λ _.
            subst (λ o. Comes (fed_outbound o s) (w ++ bytes) r) (sym returned)
              (Comes-some _ (w ++ bytes) r (
                after_outbound-Holds fed s w bytes r h (ground arith)
                  (λ t. feed_acks-Tracks s.outbound w bytes t returned)))))

and_then-Comes :
    (o : Option H2ProofState) (next : H2ProofState → Option H2ProofState) (w r w' r' : Str)
    → Comes o w r
    → ((s : H2ProofState) → Holds s w r → Comes (next s) w' r')
    → Comes (and_then o next) w' r'
unfolding and_then
and_then-Comes o next w r w' r' (s, e, h) f = rw e (f s h)

Comes-sent : (o : Option H2ProofState) (r : Str) {w w' : Str} → w ≡ w' → Comes o w r → Comes o w' r
Comes-sent o r e c = subst (λ v. Comes o v r) e c

observe_outbound_vectored-Comes :
    (bufs : List Str) (accepted : ℕ) (s : H2ProofState) (w r : Str)
    → Holds s w r
    → Comes (observe_outbound_vectored bufs accepted s) (w ++ take accepted (concat bufs)) r
unfolding observe_outbound_vectored take
observe_outbound_vectored-Comes [] accepted s w r h =
    Comes-sent (some s) r (sym (ap (λ t. w ++ t) (take-nil accepted) ∙ append-nil w))
      (Comes-some s w r h)
observe_outbound_vectored-Comes (buf ∷ bufs) accepted s w r h =
    let consumed = min accepted (length buf) in
    Comes-if (accepted == 0) (some s) _ (w ++ take accepted (concat (buf ∷ bufs))) r
      (λ none_left.
        let z : 0 ≡ accepted = ground arith in
        Comes-sent (some s) r (sym (append-nil w) ∙ ap (λ n. w ++ take n (concat (buf ∷ bufs))) z)
          (Comes-some s w r h))
      (λ _.
        Comes-sent _ r
          (append_assoc w (take consumed buf) (take (accepted - consumed) (concat bufs))
            ∙ ap (λ t. w ++ t) (take-append accepted consumed buf (concat bufs) refl))
          (and_then-Comes (observe_outbound (take consumed buf) s)
            (λ s'. observe_outbound_vectored bufs (accepted - consumed) s') (w ++ take consumed buf)
            r _ r (observe_outbound-Comes (take consumed buf) s w r h)
            (λ s' h'.
              observe_outbound_vectored-Comes bufs (accepted - consumed) s' (w ++ take consumed buf)
                r h')))

mark_transport_dropped-Holds :
    (s : H2ProofState) (w r : Str) → Holds s w r → Holds (mark_transport_dropped s) w r
unfolding mark_transport_dropped
mark_transport_dropped-Holds s w r h = elim (Bool-cases (is_pending s.status)) [
  | inl t ↦ rw t (h.0, h.1, tt)
  | inr f ↦ rw f h
]

run-Comes :
    (events : List ProofEvent) (s : H2ProofState) (w r : Str)
    → Holds s w r
    → Comes (run events s) (w ++ sent events) (r ++ received events)
unfolding io_failed and_then
run-Comes [] s w r h =
    subst (λ v. Comes (some s) v (r ++ [])) (sym (append-nil w))
      (subst (Comes (some s) w) (sym (append-nil r)) (Comes-some s w r h))
run-Comes (reads bytes ∷ events) s w r h =
    subst (Comes (run (reads bytes ∷ events) s) (w ++ sent events))
      (append_assoc r bytes (received events))
      (and_then-Comes (observe_inbound bytes s) (run events) w (r ++ bytes) _ _
        (observe_inbound-Comes bytes s w r h) (λ s' h'. run-Comes events s' w (r ++ bytes) h'))
run-Comes (writes bufs accepted ∷ events) s w r h =
    let put = take accepted (concat bufs) in
    Comes-sent (run (writes bufs accepted ∷ events) s) (r ++ received events)
      (append_assoc w put (sent events))
      (and_then-Comes (observe_outbound_vectored bufs accepted s) (run events) (w ++ put) r _ _
        (observe_outbound_vectored-Comes bufs accepted s w r h)
        (λ s' h'. run-Comes events s' (w ++ put) r h'))
run-Comes (fails ∷ events) s w r h =
    run-Comes events (record s { status = failed }) w r (h.0, h.1, tt)
run-Comes (drops ∷ events) s w r h =
    run-Comes events (mark_transport_dropped s) w r (mark_transport_dropped-Holds s w r h)
run-Comes (poisons ∷ events) s w r h = run-Comes events (record s { parser_poisoned = true }) w r h
run-Comes (controls control ∷ events) s w r h =
    run-Comes events (record s { control = control }) w r h

-- Whatever a server sends, however it is cut into reads, and whatever the socket accepts, however it
-- is cut into writes, with errors, a dropped socket, a panic under the parser's lock and changes of the
-- generation's control at any place: the observations of a new connection all return. Where they leave
-- it proved with some settings, the bytes that the socket accepted begin with the client's preface and
-- whole frames behind which stands an empty SETTINGS frame with the flag ACK on stream 0, and the bytes
-- that were read begin with a whole SETTINGS frame without that flag, on stream 0, that announces just
-- these settings. Where they leave it pending, one of the two frames was not seen yet, and the parser
-- of its side stands where the bytes of that side end: in the preface, in a header or in a payload.
pub run-Proved :
    (control : GenerationControl) (events : List ProofEvent)
    → (s : H2ProofState) × (run events (new_proof control) ≡ some s)
      × Stands s.status s.outbound s.inbound (sent events) (received events)
run-Proved control events =
    let (s, returned, holds) =
      run-Comes events (new_proof control) [] []
        (new_scanner-IsReady, refl, (new_acks-Tracks, new_scanner-Knows, inl refl)) in
    (s, returned, holds.2)
