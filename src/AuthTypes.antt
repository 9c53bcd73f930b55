-- ===== src/AuthTypes.antt =====
-- src/auth_mini.rs, src/jwt.rs: the outcomes of the calls of auth-mini, and what a verified token says.
use auth_mini_gateway.Prelude.{ℕ, List, Option}
use auth_mini_gateway.Prelude.Text.{Str}

pub record TokenResponse : Type 0 where
  pub session_id : Str
  pub access_token : Str
  pub refresh_token : Str

pub data RefreshRejected : Type 0 where
  invalidated superseded : RefreshRejected

pub data TemporaryClass : Type 0 where
  timeout transport rate_limited upstream : TemporaryClass

pub data IndeterminateClass : Type 0 where
  unexpected_status invalid_error_body invalid_success_body token_verification : IndeterminateClass
  identity_mismatch contract_drift persistence leader_aborted : IndeterminateClass

pub data InitialAccessError : Type 0 where
  invalid audience_rejected : InitialAccessError

pub data RefreshError : Type 0 where
  rejected : RefreshRejected → RefreshError
  audience_rejected : RefreshError
  temporary : TemporaryClass → RefreshError
  indeterminate : IndeterminateClass → RefreshError

pub record VerifiedAccessToken : Type 0 where
  pub user_id : Str
  pub auth_session_id : Str
  pub amr : List Str
  pub exp : ℕ

pub record Jwk : Type 0 where
  pub alg : Option Str
  pub crv : Option Str
  pub kid : Option Str
  pub kty : Option Str
  pub x : Option Str

pub record Jwks : Type 0 where
  pub keys : List Jwk
