-- ===== src/Auth/Tokens.antt =====
-- internal/auth/tokens.go, apikey.go, usertoken.go and orgtoken.go: how a Bakery token
-- becomes a principal. SHA-256 and the load of a user's authorizations are arguments; a query or an
-- insertion may fail. A time is a number.
pub mod Holders
pub mod Rows
pub mod Escalation
pub mod Mint
pub mod Minting
mod Tests
use bakery.Base.{
  ℕ, ◌≡◌, Bool, true, false, not, ◌&&◌, ◌||◌, Option, none, some, List, [], ◌∷◌, ◌++◌, ◌+◌, Bytes,
  codes, eq_bytes, starts_with, ◌==◌, ltb, if◌then◌else◌, length, any,
}
use bakery.Auth.Principal.{
  Principal, SiteRole, OrgRole, ProjectRole, Scope, write, Method, api_key, user_token, org_token,
  KeyGrant, RobotGrant, is_interactive, scope_within_role,
}

abbrev pub token_prefix : Bytes
token_prefix = codes "bkry_"

abbrev pub user_token_prefix : Bytes
user_token_prefix = codes "bkru_"

abbrev pub org_token_prefix : Bytes
org_token_prefix = codes "bkro_"

abbrev pub display_len : ℕ
display_len = 8

pub data Kind : Type 0 where
  unknown of_project of_user of_org : Kind

unfoldable pub has_token_prefix : Bytes → Bytes → Bool
has_token_prefix s prefix = starts_with prefix s && ltb (length prefix) (length s)

unfoldable pub token_kind : Bytes → Kind
unfolding has_token_prefix
token_kind s =
    if has_token_prefix s token_prefix
    then of_project
    else if has_token_prefix s user_token_prefix
    then of_user
    else if has_token_prefix s org_token_prefix
    then of_org
    else unknown

abbrev is_known : Kind → Bool
is_known unknown = false
is_known _ = true

unfoldable pub looks_like_bakery_token : Bytes → Bool
unfolding token_kind
looks_like_bakery_token s = is_known (token_kind s)

-- looksLikeAPIKey, looksLikeUserToken and looksLikeOrgToken
unfoldable pub looks_like : Bytes → Bytes → Bool
looks_like prefix token =
    starts_with prefix token && ltb (length prefix + display_len) (length token)

pub record ApiKey : Type 0 where
  pub id : ℕ
  pub user_id : ℕ
  pub project_id : ℕ
  pub scope : Scope
  pub hash : Bytes
  pub expires_at : Option ℕ
  pub revoked : Bool

pub record UserToken : Type 0 where
  pub id : ℕ
  pub user_id : ℕ
  pub max_scope : Scope
  pub hash : Bytes
  pub epoch : ℕ  -- of the user, by the join
  pub expires_at : Option ℕ
  pub revoked : Bool

pub record OrgToken : Type 0 where
  pub id : ℕ
  pub robot_id : ℕ
  pub org_id : ℕ
  pub scope : Scope
  pub hash : Bytes
  pub expires_at : ℕ
  pub revoked : Bool

pub data Error : Type 0 where
  unauthenticated key_invalid scope_exceeds_role no_expiry denied no_rows failed : Error

pub data Result (A : Type 0) : Type 0 where
  ok : A → Result A
  err : Error → Result A

pub record Authz : Type 0 where
  pub user_id : ℕ
  pub issuer : Bytes
  pub subject : Bytes
  pub email : Bytes
  pub display_name : Bytes
  pub site_role : SiteRole
  pub orgs : List (ℕ × OrgRole)
  pub projects : List (ℕ × ProjectRole)

pub record Db : Type 0 where
  pub api_keys : List ApiKey
  pub user_tokens : List UserToken
  pub org_tokens : List OrgToken
  pub memberships : List (ℕ × ℕ × ProjectRole)  -- a user, a project and a role

-- `load` is principals.load by user and epoch: none is an error, and some none is no such user.
pub record Env : Type 0 where
  pub hash_token : Bytes → Bytes
  pub load : ℕ → ℕ → Option (Option Authz)
  pub now : ℕ
  pub fails : Bool  -- a query
  pub insert_fails : Bool

-- What an authentication returns, and the id that it marks as used.
pub record Authenticated : Type 0 where
  pub result : Result Principal
  pub used : Option ℕ

abbrev pub refused : Error → Authenticated
refused e = record { result = err e; used = none }

abbrev pub lasts : ℕ → Option ℕ → Bool
lasts now none = true
lasts now (some t) = ltb now t

-- The conditions of validateKeySQL.
unfoldable pub key_lives : ℕ → Bytes → ApiKey → Bool
key_lives now hash r = eq_bytes r.hash hash && (not r.revoked && lasts now r.expires_at)

unfoldable pub user_token_lives : ℕ → Bytes → UserToken → Bool
user_token_lives now hash r = eq_bytes r.hash hash && (not r.revoked && lasts now r.expires_at)

unfoldable pub org_token_lives : ℕ → Bytes → OrgToken → Bool
org_token_lives now hash r = eq_bytes r.hash hash && (not r.revoked && ltb now r.expires_at)

-- The row of a query with at most one.
abbrev pub first {ℓ} : {A : Type ℓ} → (A → Bool) → List A → Option A
first p [] = none
first p (x ∷ xs) = if p x then some x else first p xs

abbrev pub key_principal : ApiKey → Principal
key_principal row = record {
  user_id = row.user_id;
  issuer = [];
  subject = [];
  email = [];
  display_name = [];
  method = api_key;
  site_role = SiteRole.user;
  orgs = [];
  projects = [];
  key = some (record { key_id = row.id; project_id = row.project_id; scope = row.scope });
  robot = none;
  max_scope = row.scope;
}

abbrev pub robot_principal : OrgToken → Principal
robot_principal row = record {
  user_id = 0;
  issuer = [];
  subject = [];
  email = [];
  display_name = [];
  method = org_token;
  site_role = SiteRole.user;
  orgs = [];
  projects = [];
  key = none;
  robot = some (record { robot_id = row.robot_id; org_id = row.org_id; scope = row.scope });
  max_scope = row.scope;
}

abbrev pub authz_principal : Authz → Method → Scope → Option KeyGrant → Principal
authz_principal u method max_scope key = record {
  user_id = u.user_id;
  issuer = u.issuer;
  subject = u.subject;
  email = u.email;
  display_name = u.display_name;
  method = method;
  site_role = u.site_role;
  orgs = u.orgs;
  projects = u.projects;
  key = key;
  robot = none;
  max_scope = max_scope;
}

module _ (env : Env) (db : Db) where
  abbrev key_found : Bytes → Option ApiKey → Authenticated
  key_found hash none = refused key_invalid
  key_found hash (some row) =
      if not (eq_bytes row.hash hash)
      then refused key_invalid
      else record { result = ok (key_principal row); used = some row.id }

  unfoldable pub authenticate_key : Bytes → Authenticated
  unfolding looks_like key_lives
  authenticate_key token =
      let hash = env.hash_token token in
      if not (looks_like token_prefix token)
      then refused key_invalid
      else if env.fails
      then refused failed
      else key_found hash (first (key_lives env.now hash) db.api_keys)

  abbrev pub stamped : UserToken → Option (Option Authz) → Result Principal
  stamped row none = err failed
  stamped row (some none) = err key_invalid
  stamped row (some (some authz)) = ok (authz_principal authz user_token row.max_scope none)

  abbrev user_token_found : Bytes → Option UserToken → Authenticated
  user_token_found hash none = refused key_invalid
  user_token_found hash (some row) =
      if not (eq_bytes row.hash hash)
      then refused key_invalid
      else record { result = stamped row (env.load row.user_id row.epoch); used = some row.id }

  unfoldable pub authenticate_user_token : Bytes → Authenticated
  unfolding looks_like user_token_lives
  authenticate_user_token token =
      let hash = env.hash_token token in
      if not (looks_like user_token_prefix token)
      then refused key_invalid
      else if env.fails
      then refused failed
      else user_token_found hash (first (user_token_lives env.now hash) db.user_tokens)

  abbrev org_token_found : Bytes → Option OrgToken → Authenticated
  org_token_found hash none = refused key_invalid
  org_token_found hash (some row) =
      if not (eq_bytes row.hash hash)
      then refused key_invalid
      else record { result = ok (robot_principal row); used = some row.id }

  unfoldable pub authenticate_org_token : Bytes → Authenticated
  unfolding looks_like org_token_lives
  authenticate_org_token token =
      let hash = env.hash_token token in
      if not (looks_like org_token_prefix token)
      then refused key_invalid
      else if env.fails
      then refused failed
      else org_token_found hash (first (org_token_lives env.now hash) db.org_tokens)

  unfoldable pub validator_for : Kind → Bytes → Authenticated
  unfolding authenticate_key authenticate_user_token authenticate_org_token
  validator_for of_project token = authenticate_key token
  validator_for of_user token = authenticate_user_token token
  validator_for of_org token = authenticate_org_token token
  validator_for unknown token = refused key_invalid

  unfoldable pub authenticate_bakery_token : Bytes → Authenticated
  unfolding token_kind validator_for
  authenticate_bakery_token token = validator_for (token_kind token) token
