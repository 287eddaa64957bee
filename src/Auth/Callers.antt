-- ===== src/Auth/Callers.antt =====
-- Authenticate, AuthenticateCache and authenticateBearer of internal/auth/service.go, with Reconcile
-- and loadPrincipal of reconcile.go: which credential of a request decides, and what a bearer token
-- writes. The verification of an ID token, net/http's Basic credentials and the reads of a user's
-- roles are arguments.
pub mod Precedence
pub mod Bearers
pub mod Once
mod Tests
use bakery.Base.{
  ℕ, Bool, true, false, not, ◌&&◌, ◌||◌, Option, none, some, List, [], ◌∷◌, Bytes, codes, eq_bytes,
  ◌==◌, is_some, ltb, if◌then◌else◌,
}
use bakery.Config.GroupMap.{GroupMap, GroupsClaim}
use bakery.Cache.Hashserv.Framing.{cut, trim_space, to_lower}
use bakery.Auth.Principal.{Principal, Method, session, bearer, dev, write}
use bakery.Auth.Reconcile.{Row, Login, not_allowed, reconciled, reconcile}
use bakery.Auth.Tokens.{
  Error, unauthenticated, denied, no_rows, failed, Result, ok, err, Authz, authz_principal, Env, Db,
  looks_like_bakery_token, authenticate_bakery_token,
}

pub record Identity : Type 0 where
  pub issuer : Bytes
  pub subject : Bytes
  pub claim : GroupsClaim
  pub issued_at : ℕ

pub record User : Type 0 where
  pub id : ℕ
  pub issuer : Bytes
  pub subject : Bytes
  pub last_login : Option ℕ
  pub memberships : List Row

-- `verify` is the provider's VerifyIDToken, where there is a provider. `authz` is what the reads of
-- loadUserAuthz give for a user, none an error; `now` and `new_id` are the database's.
pub record Service : Type 0 where
  pub verify : Option (Bytes → Result Identity)
  pub dev_login : Bool
  pub groups : GroupMap
  pub org_ids : Bytes → Option ℕ
  pub authz : User → Option Authz
  pub now : ℕ
  pub new_id : ℕ
  pub read_fails : Bool
  pub write_fails : Bool

-- sessionLoaded, and the user id that the session holds: unnamed is no id, or none that parses.
pub data Session : Type 0 where
  unloaded unnamed : Session
  named : ℕ → Session

pub record Request : Type 0 where
  pub authorization : Bytes
  pub basic : Option (Bytes × Bytes)
  pub session : Session

unfoldable pub find_identity : Bytes → Bytes → List User → Option User
find_identity issuer subject [] = none
find_identity issuer subject (u ∷ us) =
    if eq_bytes u.issuer issuer && eq_bytes u.subject subject
    then some u
    else find_identity issuer subject us

unfoldable pub find_user : ℕ → List User → Option User
find_user id [] = none
find_user id (u ∷ us) = if u.id == id then some u else find_user id us

-- UpsertUser, with the memberships that the transaction leaves.
unfoldable pub upsert_user : Identity → ℕ → ℕ → List Row → List User → List User
upsert_user i now new_id rows [] =
    record {
      id = new_id;
      issuer = i.issuer;
      subject = i.subject;
      last_login = some now;
      memberships = rows;
    }
    ∷ []
upsert_user i now new_id rows (u ∷ us) =
    if eq_bytes u.issuer i.issuer && eq_bytes u.subject i.subject
    then record u { last_login = some now; memberships = rows } ∷ us
    else u ∷ upsert_user i now new_id rows us

abbrev pub rows_of : Option User → List Row
rows_of none = []
rows_of (some u) = u.memberships

abbrev pub id_of : ℕ → Option User → ℕ
id_of new_id none = new_id
id_of new_id (some u) = u.id

abbrev pub stale_login : Option ℕ → ℕ → Bool
stale_login none issued_at = true
stale_login (some last) issued_at = ltb last issued_at

-- bearerToken
unfoldable pub bearer_token : Bytes → Option Bytes
unfolding cut trim_space to_lower
bearer_token header = elim (cut b' ' header) [
  | none ↦ none
  | some (scheme, rest) ↦
      let token = trim_space rest in
      if not (eq_bytes (to_lower scheme) (codes "bearer")) || eq_bytes token []
      then none
      else some token
]

module _ (service : Service) where
  -- loadPrincipal
  abbrev stamped : Method → Option Authz → Result Principal
  stamped method none = err failed
  stamped method (some authz) = ok (authz_principal authz method write none)

  abbrev load_found : Method → Option User → Result Principal
  load_found method none = err no_rows
  load_found method (some u) = stamped method (service.authz u)

  abbrev pub load_principal : List User → ℕ → Method → Result Principal
  load_principal users id method = load_found method (find_user id users)

  -- Reconcile. An error rolls the transaction back.
  abbrev pub logged_in : Identity → List User → Login → Result ℕ × List User
  logged_in i users (not_allowed e) = (err denied, users)
  logged_in i users (reconciled rows) = if service.write_fails then (err failed, users) else (
    ok (id_of service.new_id (find_identity i.issuer i.subject users)),
    upsert_user i service.now service.new_id rows users,
  )

  unfoldable pub reconcile_identity : Identity → List User → Result ℕ × List User
  reconcile_identity i users =
      let rows = rows_of (find_identity i.issuer i.subject users) in
      logged_in i users (reconcile service.groups i.claim service.org_ids rows)

  abbrev pub after_login : Result ℕ × List User → Result Principal × List User
  after_login (err e, users) = (err e, users)
  after_login (ok id, users) = (load_principal users id bearer, users)

  abbrev pub after_refresh : User → Result ℕ × List User → Result Principal × List User
  after_refresh u (err e, users) = (err e, users)
  after_refresh u (ok id, users) = (load_principal users u.id bearer, users)

  abbrev pub known : Identity → List User → Option User → Result Principal × List User
  known i users none = after_login (reconcile_identity i users)
  known i users (some u) =
      if stale_login u.last_login i.issued_at
      then after_refresh u (reconcile_identity i users)
      else (load_principal users u.id bearer, users)

  abbrev pub verified : List User → Result Identity → Result Principal × List User
  verified users (err e) = (err e, users)
  verified users (ok i) =
      if service.read_fails
      then (err failed, users)
      else known i users (find_identity i.issuer i.subject users)

  abbrev pub by_provider :
      Bytes → List User → Option (Bytes → Result Identity) → Result Principal × List User
  by_provider raw users none = (err unauthenticated, users)
  by_provider raw users (some verify) = verified users (verify raw)

  unfoldable pub authenticate_bearer : Bytes → List User → Result Principal × List User
  unfolding reconcile_identity
  authenticate_bearer raw users = by_provider raw users service.verify

  abbrev session_method : Method
  session_method = if not (is_some service.verify) && service.dev_login then dev else session

  abbrev session_answer : Result Principal → Result Principal
  session_answer (err no_rows) = err unauthenticated
  session_answer r = r

  abbrev pub by_session : List User → Session → Result Principal
  by_session users unloaded = err unauthenticated
  by_session users unnamed = err unauthenticated
  by_session users (named id) = session_answer (load_principal users id session_method)

  module _ (env : Env) (db : Db) where
    abbrev pub by_header : List User → Session → Option Bytes → Result Principal × List User
    by_header users s none = (by_session users s, users)
    by_header users s (some token) =
        if looks_like_bakery_token token
        then ((authenticate_bakery_token env db token).result, users)
        else authenticate_bearer token users

    unfoldable pub authenticate : Request → List User → Result Principal × List User
    authenticate r users = by_header users r.session (bearer_token r.authorization)

    abbrev pub basic_token : Bytes → Bytes → Bytes
    basic_token user pass = if not (looks_like_bakery_token pass) then user else pass

    abbrev pub by_basic :
        Request → List User → Option (Bytes × Bytes) → Result Principal × List User
    by_basic r users none = authenticate r users
    by_basic r users (some (user, pass)) =
        ((authenticate_bakery_token env db (basic_token user pass)).result, users)

    unfoldable pub authenticate_cache : Request → List User → Result Principal × List User
    unfolding authenticate
    authenticate_cache r users = by_basic r users r.basic
