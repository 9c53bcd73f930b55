-- ===== src/Client/Answers.antt =====
-- src/auth_mini.rs: which answers of auth-mini count as a rejection or as new tokens.
use auth_mini_gateway.Prelude.{
  ◌≤◌, ◌≡◌, ◌≢◌, refl, true, false, ◌||◌, Option, none, some, ltb, is_empty, length, arith,
  Bool-cases, inl, inr, take, suc,
}
use auth_mini_gateway.Prelude.Result.{ok, err}
use auth_mini_gateway.Prelude.Text.{Str, codes, str_eq, eq_of_str_eq}
use auth_mini_gateway.AuthTypes.{
  TokenResponse, RefreshRejected, invalidated, superseded, RefreshError,
}
use auth_mini_gateway.Client.{
  Answer, Sent, answered, failed, TokenWire, Wires, bounded_body, taken, refresh, refresh_answer,
  unauthorized_error, tokens_of, parsed, rejection, try_from, classify_transport,
  max_auth_mini_body,
}

-- The text that auth-mini sends for a rejection.
abbrev pub rejection_text : RefreshRejected → Str
rejection_text invalidated = codes "session_invalidated"
rejection_text superseded = codes "session_superseded"

bounded_body-le :
    (a : Answer) {body : Str} → bounded_body a ≡ some body → length body ≤ max_auth_mini_body
unfolding bounded_body
bounded_body-le a h = within a.body (ground arith)
  where
    within : (o : Option Str) {body : Str} → taken o ≡ some body → length body ≤ max_auth_mini_body
    within none q = unfold taken in absurd (ground arith)
    within (some b) q =
        unfold taken in
        elim (Bool-cases (ltb max_auth_mini_body (length (take (suc max_auth_mini_body) b)))) [
          | inl t ↦ absurd (ground arith)
          | inr f ↦ ground arith
        ]

module _ (w : Wires) where
  error_text :
      (o : Option Str) (reason : RefreshRejected)
      → unauthorized_error w o ≡ RefreshError.rejected reason
      → o ≡ some (rejection_text reason)
  unfolding unauthorized_error rejection
  error_text none reason h = absurd (ground arith)
  error_text (some e) invalidated h =
      let q : str_eq e (codes "session_invalidated") ≡ true = ground arith in
      rw (eq_of_str_eq e _ q)
  error_text (some e) superseded h =
      let q : str_eq e (codes "session_superseded") ≡ true = ground arith in rw (eq_of_str_eq e _ q)

  tokens_of-not_rejected :
      (o : Option TokenWire) (reason : RefreshRejected)
      → tokens_of w o ≢ err (RefreshError.rejected reason)
  unfolding tokens_of try_from
  tokens_of-not_rejected none reason h = ground arith
  tokens_of-not_rejected (some t) reason h = ground arith

  -- A refresh counts as rejected only if auth-mini answered 401 with a readable body of at most 64 KiB
  -- whose error is the text of that rejection: no failure of the transport, no other status and no
  -- other body does.
  pub refresh-rejected :
      (sent : Sent) (reason : RefreshRejected)
      → refresh w sent ≡ err (RefreshError.rejected reason)
      → (a : Answer) × (sent ≡ answered a)
        × (a.status ≡ 401)
        × ((body : Str) × (bounded_body a ≡ some body)
            × (length body ≤ max_auth_mini_body)
            × (w.error_wire body ≡ some (rejection_text reason)))
  unfolding refresh refresh_answer classify_transport
  refresh-rejected (failed b) reason h = absurd (ground arith)
  refresh-rejected (answered a) reason h =
      let never = tokens_of-not_rejected (parsed w w.token_wire (bounded_body a)) reason in
      let status : a.status ≡ 401 = ground arith in
      let error : unauthorized_error w (parsed w w.error_wire (bounded_body a))
          ≡ RefreshError.rejected reason =
        ground arith in
      let (body, q, text) = body_of (bounded_body a) (error_text _ reason error) in
      (a, refl, status, (body, q, bounded_body-le a {body = body} q, text))
    where
      body_of :
          (o : Option Str)
          → parsed w w.error_wire o ≡ some (rejection_text reason)
          → (body : Str) × (o ≡ some body) × (w.error_wire body ≡ some (rejection_text reason))
      body_of none q = unfold parsed in absurd (ground arith)
      body_of (some body) q = unfold parsed in (body, refl, q)

  try_from-ok :
      (wire : TokenWire) (t : TokenResponse)
      → try_from wire ≡ ok t
      → (t.session_id ≡ wire.session_id)
        × (t.access_token ≡ wire.access_token)
        × (t.refresh_token ≡ wire.refresh_token)
        × ((is_empty t.session_id || (is_empty t.access_token || is_empty t.refresh_token)) ≡ false)
  unfolding try_from
  try_from-ok wire t h = (ground arith, ground arith, ground arith, ground arith)

  -- New tokens come only out of an answer 200, and none of the three texts is empty.
  pub refresh-ok :
      (sent : Sent) (t : TokenResponse)
      → refresh w sent ≡ ok t
      → (a : Answer) × (sent ≡ answered a)
        × (a.status ≡ 200)
        × ((is_empty t.session_id || (is_empty t.access_token || is_empty t.refresh_token)) ≡ false)
  unfolding refresh refresh_answer classify_transport
  refresh-ok (failed b) t h = absurd (ground arith)
  refresh-ok (answered a) t h =
      (a, refl, ground arith, made (parsed w w.token_wire (bounded_body a)) (ground arith))
    where
      made :
          (o : Option TokenWire)
          → tokens_of w o ≡ ok t
          → (is_empty t.session_id || (is_empty t.access_token || is_empty t.refresh_token)) ≡ false
      made none q = unfold tokens_of in absurd (ground arith)
      made (some wire) q = unfold tokens_of in (try_from-ok wire t q).3
