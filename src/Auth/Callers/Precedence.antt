-- ===== src/Auth/Callers/Precedence.antt =====
-- Which credential of a request decides (Authenticate and AuthenticateCache of internal/auth).
use bakery.Base.{
  ℕ, ◌≡◌, sym, ap, true, false, Option, some, List, Bytes, ◌⊎◌, inl, inr, arith, Bool-cases,
}
use bakery.Auth.Principal.{Principal, is_interactive}
use bakery.Auth.Tokens.{Result, ok, Env, Db, looks_like_bakery_token, authenticate_bakery_token}
use bakery.Auth.Tokens.Rows.{Backed, authenticate_bakery_token-Backed}
use bakery.Auth.Tokens.Escalation.{Backed-machine}
use bakery.Auth.Callers.{Service, Request, User, bearer_token, authenticate, authenticate_cache}

-- The request is answered by a row of the token, and writes nothing to the users.
pub record ByToken (env : Env) (db : Db) (users : List User) (token : Bytes) (p : Principal)
    (after : List User) : Type 0 where
  pub used : Option ℕ
  pub backed : Backed env db token p used
  pub machine : is_interactive p ≡ false
  pub unchanged : after ≡ users

by_token :
    (env : Env) (db : Db) (users : List User) (token : Bytes) (p : Principal) (after : List User)
    → ◌≡◌ {A = Result Principal × List User}
        ((authenticate_bakery_token env db token).result, users)
        (ok p, after)
    → ByToken env db users token p after
by_token env db users token p after h =
    let a = authenticate_bakery_token env db token in
    let result : a.result ≡ ok p = ap (λ (r : Result Principal × List User). r.0) h in
    let whole : a ≡ record { result = ok p; used = a.used } =
      λ i. record { result = result i; used = a.used } in
    let backed = authenticate_bakery_token-Backed env db token p a.used whole in
    record {
      used = a.used;
      backed = backed;
      machine = Backed-machine env db token p a.used backed;
      unchanged = sym (ap (λ (r : Result Principal × List User). r.1) h);
    }

-- A bearer token with one of Bakery's prefixes decides alone, whatever session comes with it: who it
-- authenticates is what its row in the table of its kind says, is no interactive principal, and no
-- user is provisioned or reconciled.
pub bakery_bearer_decides :
    (service : Service) (env : Env) (db : Db) (r : Request) (users : List User) (p : Principal)
    (after : List User) (token : Bytes)
    → bearer_token r.authorization ≡ some token
    → looks_like_bakery_token token ≡ true
    → authenticate service env db r users ≡ (ok p, after)
    → ByToken env db users token p after
unfolding authenticate
bakery_bearer_decides service env db r users p after token is family h =
    by_token env db users token p after (ground (arith, h, is, family))

-- A cache request with Basic credentials is answered by a token alone, never by a bearer token or a
-- session of the same request: by the password where it has one of Bakery's prefixes, and otherwise
-- by the user name. Who it authenticates is no interactive principal, and no user changes.
pub basic_decides :
    (service : Service) (env : Env) (db : Db) (r : Request) (users : List User) (p : Principal)
    (after : List User) (user pass : Bytes)
    → r.basic ≡ some (user, pass)
    → authenticate_cache service env db r users ≡ (ok p, after)
    → ((looks_like_bakery_token pass ≡ true) × ByToken env db users pass p after)
      ⊎ ((looks_like_bakery_token pass ≡ false) × ByToken env db users user p after)
unfolding authenticate_cache
basic_decides service env db r users p after user pass is h =
    elim (Bool-cases (looks_like_bakery_token pass)) [
      | inl t ↦ inl (t, by_token env db users pass p after (ground (arith, h, is, t)))
      | inr t ↦ inr (t, by_token env db users user p after (ground (arith, h, is, t)))
    ]
