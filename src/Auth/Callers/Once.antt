-- ===== src/Auth/Callers/Once.antt =====
-- How often an ID token of internal/auth is reconciled, with other requests and logins between.
use bakery.Base.{
  ℕ, ◌≤◌, ◌≡◌, refl, false, Option, none, some, List, [], ◌∷◌, Bytes, arith, Bool-cases, inl, inr,
}
use bakery.Auth.Principal.{Principal}
use bakery.Auth.Reconcile.{Row, Login, not_allowed, reconciled}
use bakery.Auth.Tokens.{Result, ok, err}
use bakery.Auth.Tokens.{Env, Db, looks_like_bakery_token}
use bakery.Auth.Callers.{
  Session, Request, bearer_token, by_header, by_basic, authenticate, authenticate_cache,
  after_login, after_refresh, by_provider, Service, Identity, User, find_identity, upsert_user,
  stale_login, logged_in, reconcile_identity, known, verified, authenticate_bearer,
}
use bakery.Auth.Callers.Bearers.{LoggedIn, is_of, known-LoggedIn, no_rewrite}

-- The row of another identity, or a later login of this one, leaves the identity logged in.
upsert-keeps :
    (i other : Identity) (now new_id : ℕ) (rows : List Row) (users : List User) (u : User)
    → i.issued_at ≤ now
    → find_identity i.issuer i.subject users ≡ some u
    → stale_login u.last_login i.issued_at ≡ false
    → LoggedIn i (upsert_user other now new_id rows users)
unfolding find_identity upsert_user
upsert-keeps i other now new_id rows [] u h f s = absurd (cc)
upsert-keeps i other now new_id rows (x ∷ xs) u h f s = elim (Bool-cases (is_of i x)) [
  | inl mine ↦ elim (Bool-cases (is_of other x)) [
    | inl theirs ↦ record {
      user = record x { last_login = some now; memberships = rows };
      found = ground (arith, mine, theirs);
      fresh = ground (arith, h);
    }
    | inr not_theirs ↦ record { user = u; found = ground (arith, f, mine, not_theirs); fresh = s }
  ]
  | inr not_mine ↦ elim (Bool-cases (is_of other x)) [
    | inl theirs ↦ record { user = u; found = ground (arith, f, not_mine, theirs); fresh = s }
    | inr not_theirs ↦
        let later = upsert-keeps i other now new_id rows xs u h (ground (arith, f, not_mine)) s in
        record {
          user = later.user;
          found = ground (arith, not_mine, not_theirs, later.found);
          fresh = later.fresh;
        }
  ]
]

module _ (i : Identity) (service : Service) (in_time : i.issued_at ≤ service.now) where
  logged_in-keeps :
      (other : Identity) (users : List User) (l : Login)
      → LoggedIn i users
      → LoggedIn i (logged_in service other users l).1
  logged_in-keeps other users (not_allowed e) h = h
  logged_in-keeps other users (reconciled rows) h = elim (Bool-cases service.write_fails) [
    | inl t ↦ rw t h
    | inr t ↦
        rw t (
          upsert-keeps i other service.now service.new_id rows users h.user in_time h.found h.fresh)
  ]

  reconcile-keeps :
      (other : Identity) (users : List User)
      → LoggedIn i users
      → LoggedIn i (reconcile_identity service other users).1
  unfolding reconcile_identity
  reconcile-keeps other users h = logged_in-keeps other users _ h

  after_login_users : (r : Result ℕ × List User) → (after_login service r).1 ≡ r.1
  after_login_users (err e, users) = refl
  after_login_users (ok id, users) = refl

  after_refresh_users : (u : User) (r : Result ℕ × List User) → (after_refresh service u r).1 ≡ r.1
  after_refresh_users u (err e, users) = refl
  after_refresh_users u (ok id, users) = refl

  known-keeps :
      (other : Identity) (users : List User) (o : Option User)
      → LoggedIn i users
      → LoggedIn i (known service other users o).1
  known-keeps other users none h =
      rw (after_login_users (reconcile_identity service other users))
        (reconcile-keeps other users h)
  known-keeps other users (some u) h =
      elim (Bool-cases (stale_login u.last_login other.issued_at)) [
        | inl t ↦
            rw (t, after_refresh_users u (reconcile_identity service other users))
              (reconcile-keeps other users h)
        | inr t ↦ rw t h
      ]

  verified-keeps :
      (users : List User) (r : Result Identity)
      → LoggedIn i users
      → LoggedIn i (verified service users r).1
  unfolding reconcile_identity
  verified-keeps users (err e) h = h
  verified-keeps users (ok other) h = elim (Bool-cases service.read_fails) [
    | inl t ↦ rw t h
    | inr t ↦ rw t (known-keeps other users (find_identity other.issuer other.subject users) h)
  ]

  bearer-keeps :
      (raw : Bytes) (users : List User)
      → LoggedIn i users
      → LoggedIn i (authenticate_bearer service raw users).1
  unfolding authenticate_bearer
  bearer-keeps raw users h = by service.verify
    where
      by : (o : Option (Bytes → Result Identity)) → LoggedIn i (by_provider service raw users o).1
      by none = h
      by (some verify) = verified-keeps users (verify raw) h

  header-keeps :
      (env : Env) (db : Db) (users : List User) (s : Session) (o : Option Bytes)
      → LoggedIn i users
      → LoggedIn i (by_header service env db users s o).1
  header-keeps env db users s none h = h
  header-keeps env db users s (some token) h = elim (Bool-cases (looks_like_bakery_token token)) [
    | inl t ↦ rw t h
    | inr t ↦ rw t (bearer-keeps token users h)
  ]

  basic-keeps :
      (env : Env) (db : Db) (r : Request) (users : List User) (o : Option (Bytes × Bytes))
      → LoggedIn i users
      → LoggedIn i (by_basic service env db r users o).1
  unfolding authenticate
  basic-keeps env db r users none h =
      header-keeps env db users r.session (bearer_token r.authorization) h
  basic-keeps env db r users (some (user, pass)) h = h

-- What may write to the users: a request, of whatever credentials, and the end of a browser login.
pub data Event : Type 0 where
  request : Service → Env → Db → Request → Event
  login : Service → Identity → Event

abbrev pub clock : Event → ℕ
clock (request service env db r) = service.now
clock (login service i) = service.now

abbrev pub happens : Event → List User → List User
happens (request service env db r) users = (authenticate_cache service env db r users).1
happens (login service i) users = (reconcile_identity service i users).1

-- The users after some events, the first event first.
abbrev pub after_all : List Event → List User → List User
after_all [] users = users
after_all (e ∷ es) users = after_all es (happens e users)

-- No event is before this time.
abbrev pub Since : ℕ → List Event → Type 0
Since t [] = Unit {0}
Since t (e ∷ es) = (t ≤ clock e) × Since t es

event-keeps :
    (i : Identity) (e : Event) (users : List User)
    → i.issued_at ≤ clock e
    → LoggedIn i users
    → LoggedIn i (happens e users)
unfolding authenticate_cache
event-keeps i (request service env db r) users t h =
    basic-keeps i service t env db r users r.basic h
event-keeps i (login service other) users t h = reconcile-keeps i service t other users h

all-keep :
    (i : Identity) (es : List Event) (users : List User)
    → Since i.issued_at es
    → LoggedIn i users
    → LoggedIn i (after_all es users)
all-keep i [] users s h = h
all-keep i (e ∷ es) users s h = all-keep i es (happens e users) s.1 (event-keeps i e users s.0 h)

-- An ID token is reconciled at most once. After a request that it authenticated, and any requests
-- and browser logins of anyone after that, under any mapping file and with any failures, a request
-- with it leaves the users as they are. The token is issued no later than the clock of the first
-- request and of what comes between, and no user is deleted.
pub reconciled_once :
    (service later : Service) (verify verify' : Bytes → Result Identity) (i : Identity)
    (raw : Bytes) (users after : List User) (p : Principal) (es : List Event)
    → service.verify ≡ some verify
    → verify raw ≡ ok i
    → later.verify ≡ some verify'
    → verify' raw ≡ ok i
    → i.issued_at ≤ service.now
    → Since i.issued_at es
    → authenticate_bearer service raw users ≡ (ok p, after)
    → (authenticate_bearer later raw (after_all es after)).1 ≡ after_all es after
unfolding authenticate_bearer
reconciled_once service later verify verify' i raw users after p es v is v' is' in_time since h =
    let found = find_identity i.issuer i.subject users in
    let reads : service.read_fails ≡ false = ground (arith, h, v, is) in
    let answer : known service i users found ≡ (ok p, after) = ground (arith, h, v, is, reads) in
    let logged = known-LoggedIn service i users in_time found p after refl answer in
    rw (v', is') (no_rewrite later i (after_all es after) (all-keep i es after since logged))
