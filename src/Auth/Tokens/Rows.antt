-- ===== src/Auth/Tokens/Rows.antt =====
-- The rows behind a token that authenticates (internal/auth/tokens.go and the three validators).
use mathlib.Core.Path.{subst}
use bakery.Base.{
  eq_bytes, false, not, ◌&&◌, eq_bytes_iff, ◌<◌, ℕ, suc, ◌≡◌, refl, Bool, true, Option, none, some,
  List, [], ◌∷◌, Bytes, get_elem?, arith, Bool-cases, inl, inr,
}
use bakery.Auth.Principal.{Principal, user_token}
use bakery.Auth.Tokens.Holders.{
  KeyHolder, UserHolder, RobotHolder, key_principal-KeyHolder, authz_principal-UserHolder,
  robot_principal-RobotHolder,
}
use bakery.Auth.Tokens.{
  Kind, unknown, of_project, of_user, of_org, token_kind, ApiKey, UserToken, OrgToken, ok, Authz,
  Db, Env, Authenticated, key_lives, user_token_lives, lasts, org_token_lives, first, key_principal,
  robot_principal, authz_principal, key_found, authenticate_key, stamped, user_token_found,
  authenticate_user_token, org_token_found, authenticate_org_token, validator_for,
  authenticate_bakery_token,
}

pub record Among {A : Type 0} (rows : List A) : Type 0 where
  pub row : A
  pub index : ℕ
  pub at : get_elem? rows index ≡ some row

-- What the columns of a live row say at a time, of the hash that is presented.
pub record Live (now : ℕ) (presented hash : Bytes) (revoked : Bool) (expires : Option ℕ)
    : Type 0 where
  pub same_hash : hash ≡ presented
  pub not_revoked : revoked ≡ false
  pub unexpired : (t : ℕ) → expires ≡ some t → now < t

Live-some :
    (now : ℕ) (presented hash : Bytes) (revoked : Bool) (expires : Option ℕ)
    → (eq_bytes hash presented && (not revoked && lasts now expires)) ≡ true
    → Live now presented hash revoked expires
Live-some now presented hash revoked expires h = record {
  same_hash = ground (arith, h, eq_bytes_iff hash presented);
  not_revoked = ground (arith, h);
  unexpired = λ t e. ground (arith, h, e);
}

first-Among :
    {A : Type 0} (test : A → Bool) (rows : List A) (row : A)
    → first test rows ≡ some row
    → (index : ℕ) × (get_elem? rows index ≡ some row) × (test row ≡ true)
first-Among test [] row h = absurd (cc)
first-Among test (x ∷ xs) row h = elim (Bool-cases (test x)) [
  | inl t ↦ (0, ground (arith, h, t), ground (arith, h, t))
  | inr t ↦
      let (i, at, passes) = first-Among test xs row (ground (arith, h, t)) in (suc i, at, passes)
]

-- The row, its table and what it makes of the principal, by the kind of the token.
pub data Backed (env : Env) (db : Db) (token : Bytes) (p : Principal) (used : Option ℕ)
    : Type 0 where
  by_key :
      token_kind token ≡ of_project
      → (b : Among db.api_keys)
      → Live env.now (env.hash_token token) b.row.hash b.row.revoked b.row.expires_at
      → KeyHolder p b.row.user_id b.row.id b.row.project_id b.row.scope
      → used ≡ some b.row.id
      → Backed env db token p used
  by_user :
      token_kind token ≡ of_user
      → (b : Among db.user_tokens)
      → Live env.now (env.hash_token token) b.row.hash b.row.revoked b.row.expires_at
      → (authz : Authz) → env.load b.row.user_id b.row.epoch ≡ some (some authz)
      → UserHolder p authz b.row.max_scope
      → used ≡ some b.row.id
      → Backed env db token p used
  by_robot :
      token_kind token ≡ of_org
      → (b : Among db.org_tokens)
      → Live env.now (env.hash_token token) b.row.hash b.row.revoked (some b.row.expires_at)
      → RobotHolder p b.row.robot_id b.row.org_id b.row.scope
      → used ≡ some b.row.id
      → Backed env db token p used

module _ (env : Env) (db : Db) (token : Bytes) (p : Principal) (used : Option ℕ) where
  abbrev hash : Bytes
  hash = env.hash_token token

  abbrev answer : Authenticated
  answer = record { result = ok p; used = used }

  key_row :
      (o : Option ApiKey)
      → first (key_lives env.now hash) db.api_keys ≡ o
      → token_kind token ≡ of_project
      → key_found env db hash o ≡ answer
      → Backed env db token p used
  unfolding key_lives
  key_row none e k h = absurd (ground (arith, h))
  key_row (some row) e k h =
      let (i, at, passes) = first-Among (key_lives env.now hash) db.api_keys row e in
      let same : key_principal row ≡ p = ground (arith, h) in
      by_key k (record { row = row; index = i; at = at })
        (Live-some env.now hash row.hash row.revoked row.expires_at passes)
        (subst (λ q. KeyHolder q row.user_id row.id row.project_id row.scope) same
          (key_principal-KeyHolder row))
        (ground (arith, h))

  user_loaded :
      (b : Among db.user_tokens)
      → Live env.now hash b.row.hash b.row.revoked b.row.expires_at
      → (loaded : Option (Option Authz)) → env.load b.row.user_id b.row.epoch ≡ loaded
      → token_kind token ≡ of_user
      → stamped env db b.row loaded ≡ ok p
      → used ≡ some b.row.id
      → Backed env db token p used
  user_loaded b live none l k s u = absurd (ground (arith, s))
  user_loaded b live (some none) l k s u = absurd (ground (arith, s))
  user_loaded b live (some (some authz)) l k s u =
      let same : authz_principal authz user_token b.row.max_scope none ≡ p = ground (arith, s) in
      by_user k b live authz l
        (subst (λ q. UserHolder q authz b.row.max_scope) same
          (authz_principal-UserHolder authz b.row.max_scope))
        u

  user_row :
      (o : Option UserToken)
      → first (user_token_lives env.now hash) db.user_tokens ≡ o
      → token_kind token ≡ of_user
      → user_token_found env db hash o ≡ answer
      → Backed env db token p used
  unfolding user_token_lives
  user_row none e k h = absurd (ground (arith, h))
  user_row (some row) e k h =
      let (i, at, passes) = first-Among (user_token_lives env.now hash) db.user_tokens row e in
      user_loaded (record { row = row; index = i; at = at })
        (Live-some env.now hash row.hash row.revoked row.expires_at passes)
        (env.load row.user_id row.epoch) refl k (ground (arith, h)) (ground (arith, h))

  robot_row :
      (o : Option OrgToken)
      → first (org_token_lives env.now hash) db.org_tokens ≡ o
      → token_kind token ≡ of_org
      → org_token_found env db hash o ≡ answer
      → Backed env db token p used
  unfolding org_token_lives
  robot_row none e k h = absurd (ground (arith, h))
  robot_row (some row) e k h =
      let (i, at, passes) = first-Among (org_token_lives env.now hash) db.org_tokens row e in
      let same : robot_principal row ≡ p = ground (arith, h) in
      by_robot k (record { row = row; index = i; at = at })
        (Live-some env.now hash row.hash row.revoked (some row.expires_at) passes)
        (subst (λ q. RobotHolder q row.robot_id row.org_id row.scope) same
          (robot_principal-RobotHolder row))
        (ground (arith, h))

  by_kind :
      (k : Kind)
      → token_kind token ≡ k
      → validator_for env db k token ≡ answer
      → Backed env db token p used
  unfolding validator_for authenticate_key authenticate_user_token authenticate_org_token
  by_kind unknown e h = absurd (ground (arith, h))
  by_kind of_project e h =
      key_row (first (key_lives env.now hash) db.api_keys) refl e (ground (arith, h))
  by_kind of_user e h =
      user_row (first (user_token_lives env.now hash) db.user_tokens) refl e (ground (arith, h))
  by_kind of_org e h =
      robot_row (first (org_token_lives env.now hash) db.org_tokens) refl e (ground (arith, h))

-- A token that authenticates is backed by a row of the table of its prefix, with the token's hash,
-- not revoked and not expired, whose id is marked as used. For an API key the principal is the row's
-- user with no role and no org, who reads the row's project alone and writes there exactly with the
-- row's write scope; for a robot token it has no user and no role, reads every project of the row's
-- org alone, and writes there exactly with the row's write scope; for a user token it has the roles
-- that are loaded for the row's user and epoch, under the row's scope and with no other grant.
pub authenticate_bakery_token-Backed :
    (env : Env) (db : Db) (token : Bytes) (p : Principal) (used : Option ℕ)
    → authenticate_bakery_token env db token ≡ record { result = ok p; used = used }
    → Backed env db token p used
unfolding authenticate_bakery_token
authenticate_bakery_token-Backed env db token p used h =
    by_kind env db token p used (token_kind token) refl h
