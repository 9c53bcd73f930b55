-- ===== src/Db/Rows.antt =====
-- Properties of every session row under the statements.
use auth_mini_gateway.Prelude.{
  ◌≡◌, Bool, true, false, Option, none, some, List, [], ◌∷◌, Bool-cases, inl, inr, arith, All,
}
use auth_mini_gateway.Db.{SessionRow, Tables}
use auth_mini_gateway.Db.Sql.{
  update_where, delete_where, select_where, insert_session, has_session_id,
}

module _ {ℓ} {A : Type ℓ} (R : A → Type 0) where
  pub update_where-All :
      (test : A → Bool) (set : A → A) (rows : List A)
      → ((r : A) → test r ≡ true → R r → R (set r))
      → All R rows
      → All R (update_where test set rows)
  unfolding update_where
  update_where-All test set [] keep h = tt
  update_where-All test set (r ∷ rows) keep (p, h) = elim (Bool-cases (test r)) [
    | inl e ↦ rw e (keep r e p, update_where-All test set rows keep h)
    | inr e ↦ rw e (p, update_where-All test set rows keep h)
  ]

  pub delete_where-All :
      (test : A → Bool) (rows : List A) → All R rows → All R (delete_where test rows)
  unfolding delete_where
  delete_where-All test [] h = tt
  delete_where-All test (r ∷ rows) (p, h) = elim (Bool-cases (test r)) [
    | inl e ↦ rw e (delete_where-All test rows h)
    | inr e ↦ rw e (p, delete_where-All test rows h)
  ]

  -- A row that a SELECT returns is one of the table's, and passes the test.
  pub select_where_sound :
      (test : A → Bool) (rows : List A) {r : A}
      → All R rows
      → select_where test rows ≡ some r
      → R r × (test r ≡ true)
  unfolding select_where
  select_where_sound test [] h e = absurd (ground arith)
  select_where_sound test (x ∷ rows) {r} (p, h) e = elim (Bool-cases (test x)) [
    | inl t ↦ let same : x ≡ r = ground arith in rw (← same) (p, t)
    | inr f ↦ select_where_sound test rows h (rw f at e)
  ]

  pub select_where-none :
      (test : A → Bool) (rows : List A)
      → select_where test rows ≡ none
      → All (λ r. test r ≡ false) rows
  unfolding select_where
  select_where-none test [] e = tt
  select_where-none test (x ∷ rows) e = (ground arith, select_where-none test rows (ground arith))

abbrev pub AllSessions : (SessionRow → Type 0) → Tables → Type 0
AllSessions R t = All R t.sessions

pub insert_session-All :
    (R : SessionRow → Type 0) (row : SessionRow) (t t' : Tables)
    → R row
    → AllSessions R t
    → insert_session row t ≡ some t'
    → AllSessions R t'
unfolding insert_session
insert_session-All R row t t' p h e = go (select_where (has_session_id row.id) t.sessions) e
  where
    go :
        (o : Option SessionRow)
        → (elim o [ none ↦ some (record t { sessions = row ∷ t.sessions }) | some _ ↦ none ])
          ≡ some t'
        → AllSessions R t'
    go none q = let s : row ∷ t.sessions ≡ t'.sessions = ground arith in rw (← s) (p, h)
    go (some r) q = absurd (ground arith)
