-- ===== src/Auth/Tokens/Mint.antt =====
-- CreateAPIKey, CreateUserToken and CreateOrgToken of internal/auth/service.go, usertoken.go and
-- orgtoken.go, with requireMintAuthority of tokens.go. The random body of a token and the id of its
-- row are arguments.
use bakery.Base.{
  ℕ, false, not, ◌&&◌, ◌||◌, Option, none, some, List, [], ◌∷◌, ◌++◌, Bytes, eq_bytes, ◌==◌,
  if◌then◌else◌, any,
}
use bakery.Auth.Principal.{Principal, ProjectRole, Scope, is_interactive, scope_within_role}
use bakery.Auth.Tokens.{
  token_prefix, user_token_prefix, org_token_prefix, ApiKey, UserToken, OrgToken, Error,
  unauthenticated, key_invalid, scope_exceeds_role, no_expiry, failed, Result, ok, err, Db, Env,
}

abbrev pub require_mint_authority : Option Principal → Option Error
require_mint_authority none = some unauthenticated
require_mint_authority (some p) = if not (is_interactive p) then some key_invalid else none

abbrev pub role_in : ℕ → ℕ → List (ℕ × ℕ × ProjectRole) → Option ProjectRole
role_in user project [] = none
role_in user project ((u, q, role) ∷ ms) =
    if u == user && q == project then some role else role_in user project ms

module _ (env : Env) (db : Db) where
  -- The INSERT, which the unique index refuses where a row has the hash.
  abbrev pub insert_key : ApiKey → Bytes → Result Bytes × Db
  insert_key row token =
      if env.insert_fails || any (λ r. eq_bytes r.hash row.hash) db.api_keys
      then (err failed, db)
      else (ok token, record db { api_keys = db.api_keys ++ row ∷ [] })

  -- `id` is the row's, `body` the random part of the token.
  abbrev pub mint_key :
      ℕ → ℕ → Scope → Option ℕ → Bytes → Principal → Option ProjectRole → Result Bytes × Db
  mint_key id project scope expires body p none = (err scope_exceeds_role, db)
  mint_key id project scope expires body p (some role) =
      let token = token_prefix ++ body in
      let row : ApiKey = record {
        id = id;
        user_id = p.user_id;
        project_id = project;
        scope = scope;
        hash = env.hash_token token;
        expires_at = expires;
        revoked = false;
      } in
      if not (scope_within_role scope role)
      then (err scope_exceeds_role, db)
      else insert_key row token

  abbrev pub mint_by :
      ℕ → ℕ → Scope → Option ℕ → Bytes → Option Principal → Option Error → Result Bytes × Db
  mint_by id project scope expires body caller (some e) = (err e, db)
  mint_by id project scope expires body none none = (err unauthenticated, db)
  mint_by id project scope expires body (some p) none =
      if env.fails
      then (err failed, db)
      else mint_key id project scope expires body p (role_in p.user_id project db.memberships)

  unfoldable pub create_api_key :
      ℕ → ℕ → Scope → Option ℕ → Bytes → Option Principal → Result Bytes × Db
  create_api_key id project scope expires body caller =
      mint_by id project scope expires body caller (require_mint_authority caller)

  abbrev insert_user_token : UserToken → Bytes → Result Bytes × Db
  insert_user_token row token =
      if env.insert_fails || any (λ r. eq_bytes r.hash row.hash) db.user_tokens
      then (err failed, db)
      else (ok token, record db { user_tokens = db.user_tokens ++ row ∷ [] })

  abbrev user_token_by :
      ℕ → ℕ → Scope → Option ℕ → Bytes → Option Principal → Option Error → Result Bytes × Db
  user_token_by id epoch scope expires body caller (some e) = (err e, db)
  user_token_by id epoch scope expires body none none = (err unauthenticated, db)
  user_token_by id epoch scope expires body (some p) none =
      let token = user_token_prefix ++ body in
      let row : UserToken = record {
        id = id;
        user_id = p.user_id;
        max_scope = scope;
        hash = env.hash_token token;
        epoch = epoch;
        expires_at = expires;
        revoked = false;
      } in
      insert_user_token row token

  -- `epoch` is the user's.
  unfoldable pub create_user_token :
      ℕ → ℕ → Scope → Option ℕ → Bytes → Option Principal → Result Bytes × Db
  create_user_token id epoch scope expires body caller =
      user_token_by id epoch scope expires body caller (require_mint_authority caller)

  abbrev insert_org_token : OrgToken → Bytes → Result Bytes × Db
  insert_org_token row token =
      if env.insert_fails || any (λ r. eq_bytes r.hash row.hash) db.org_tokens
      then (err failed, db)
      else (ok token, record db { org_tokens = db.org_tokens ++ row ∷ [] })

  abbrev org_token_by : ℕ → ℕ → ℕ → Scope → ℕ → Bytes → Option Error → Result Bytes × Db
  org_token_by id robot org scope expires body (some e) = (err e, db)
  org_token_by id robot org scope expires body none =
      let token = org_token_prefix ++ body in
      let row : OrgToken = record {
        id = id;
        robot_id = robot;
        org_id = org;
        scope = scope;
        hash = env.hash_token token;
        expires_at = expires;
        revoked = false;
      } in
      if expires == 0 then (err no_expiry, db) else insert_org_token row token

  -- The zero time is 0.
  unfoldable pub create_org_token :
      ℕ → ℕ → ℕ → Scope → ℕ → Bytes → Option Principal → Result Bytes × Db
  create_org_token id robot org scope expires body caller =
      org_token_by id robot org scope expires body (require_mint_authority caller)
