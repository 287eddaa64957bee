-- ===== src/Auth/Callers/Tests.antt =====
-- Requests of internal/auth that carry several credentials, and an ID token that comes twice.
use bakery.Base.{
  ◌≡◌, refl, true, false, none, some, List, [], ◌∷◌, Bytes, codes, eq_bytes, starts_with, ◌⊎◌,
  arith,
}
use bakery.Config.GroupMap.{
  resolve, resolution, grant_orgs, grant_groups, any_claimed, first_claimed,
}
use bakery.Cache.Hashserv.Framing.{cut, trim_space, trim_left, trim_right, to_lower}
use bakery.Auth.Principal.{Principal, SiteRole, read, write, user_token, bearer}
use bakery.Auth.Reconcile.{reconcile, reconcile_rows, upsert_orgs, delete_unjustified, clear_oidc}
use bakery.Auth.Tokens.{
  Result, ok, Env, Db, Authz, authz_principal, looks_like_bakery_token, token_kind,
  has_token_prefix, authenticate_bakery_token, validator_for, authenticate_user_token, looks_like,
  user_token_lives,
}
use bakery.Auth.Callers.{
  Service, Identity, User, named, Request, bearer_token, authenticate, authenticate_cache,
  authenticate_bearer, reconcile_identity, find_identity, find_user, upsert_user,
}
use bakery.Auth.Callers.Precedence.{ByToken, bakery_bearer_decides, basic_decides}
use bakery.Auth.Callers.Once.{Event, request, login, after_all, reconciled_once}

abbrev anna : Authz
anna = record {
  user_id = 1;
  issuer = codes "idp";
  subject = codes "anna";
  email = [];
  display_name = [];
  site_role = SiteRole.user;
  orgs = [];
  projects = [];
}

abbrev token : Bytes
token = codes "bkru_0123456789"

abbrev env : Env
env = record {
  hash_token = λ s. s;
  load = λ user epoch. some (some anna);
  now = 100;
  fails = false;
  insert_fails = false;
}

abbrev db : Db
db = record {
  api_keys = [];
  user_tokens =
      record {
        id = 3;
        user_id = 1;
        max_scope = read;
        hash = token;
        epoch = 7;
        expires_at = none;
        revoked = false;
      }
      ∷ [];
  org_tokens = [];
  memberships = [];
}

abbrev identity : Identity
identity = record {
  issuer = codes "idp";
  subject = codes "anna";
  claim = record { groups = []; present = true };
  issued_at = 50;
}

abbrev verify : Bytes → Result Identity
verify raw = ok identity

abbrev service : Service
service = record {
  verify = some verify;
  dev_login = false;
  groups = record { login_groups = []; site_admin_groups = []; orgs = [] };
  org_ids = λ slug. none;
  authz = λ u. some anna;
  now = 60;
  new_id = 1;
  read_fails = false;
  write_fails = false;
}

-- A bearer token beside the session of user 8, and Basic credentials with the token as the user name.
abbrev two_credentials : Request
two_credentials = record {
  authorization = codes "bearer bkru_0123456789";
  basic = some (token, codes "x");
  session = named 8;
}

abbrev annas : Principal
annas = authz_principal anna user_token read none

is_bearer : bearer_token two_credentials.authorization ≡ some token
unfolding bearer_token cut trim_space trim_left trim_right to_lower eq_bytes
is_bearer = refl

answered : authenticate service env db two_credentials [] ≡ (ok annas, [])
unfolding authenticate bearer_token cut trim_space trim_left trim_right to_lower
    looks_like_bakery_token token_kind has_token_prefix starts_with authenticate_bakery_token
    validator_for authenticate_user_token looks_like user_token_lives eq_bytes
answered = refl

is_family : looks_like_bakery_token token ≡ true
unfolding looks_like_bakery_token token_kind has_token_prefix starts_with
is_family = refl

bakery_bearer_decides_example : ByToken env db [] token annas []
bakery_bearer_decides_example =
    bakery_bearer_decides service env db two_credentials [] annas [] token is_bearer is_family
      answered

cache_answered : authenticate_cache service env db two_credentials [] ≡ (ok annas, [])
unfolding authenticate_cache looks_like_bakery_token token_kind has_token_prefix starts_with
    authenticate_bakery_token validator_for authenticate_user_token looks_like user_token_lives
    eq_bytes
cache_answered = refl

basic_decides_example :
    ((looks_like_bakery_token (codes "x") ≡ true) × ByToken env db [] (codes "x") annas [])
    ⊎ ((looks_like_bakery_token (codes "x") ≡ false) × ByToken env db [] token annas [])
basic_decides_example =
    basic_decides service env db two_credentials [] annas [] token (codes "x") refl cache_answered

abbrev provisioned : List User
provisioned =
    record {
      id = 1;
      issuer = codes "idp";
      subject = codes "anna";
      last_login = some 60;
      memberships = [];
    }
    ∷ []

first_contact :
    authenticate_bearer service (codes "jwt") []
    ≡ (ok (authz_principal anna bearer write none), provisioned)
unfolding authenticate_bearer reconcile_identity find_identity find_user upsert_user reconcile
    resolve resolution grant_orgs grant_groups any_claimed first_claimed reconcile_rows upsert_orgs
    delete_unjustified clear_oidc
first_contact = refl

-- Another user's first contact between the two.
abbrev other_service : Service
other_service = record service {
  verify = some (λ raw. ok (record identity { subject = codes "bob" }));
  now = 70;
  new_id = 2;
}

abbrev between : List Event
between =
    request other_service env db
      (record two_credentials { authorization = codes "bearer other"; basic = none })
    ∷ login service identity
    ∷ []

reconciled_once_example :
    (authenticate_bearer service (codes "jwt") (after_all between provisioned)).1
    ≡ after_all between provisioned
reconciled_once_example =
    reconciled_once service service verify verify identity (codes "jwt") [] provisioned
      (authz_principal anna bearer write none) between refl refl refl refl (omega arith)
      (omega arith, (omega arith, tt)) first_contact
