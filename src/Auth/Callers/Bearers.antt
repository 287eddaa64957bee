-- ===== src/Auth/Callers/Bearers.antt =====
-- What an ID token that comes as a bearer token writes (authenticateBearer of internal/auth).
use bakery.Base.{
  Bool, ℕ, ◌≤◌, ◌≡◌, refl, ap, false, ◌&&◌, Option, none, some, List, [], ◌∷◌, eq_bytes,
  eq_bytes_refl, arith, Bool-cases, inl, inr,
}
use mathlib.Core.Path.{subst}
use bakery.Auth.Principal.{Principal}
use bakery.Auth.Reconcile.{Row, Login, not_allowed, reconciled}
use bakery.Auth.Tokens.{Result, ok, err}
use bakery.Auth.Callers.{
  after_login, after_refresh, Service, Identity, User, find_identity, upsert_user, stale_login,
  logged_in, reconcile_identity, known, verified,
}

-- The identity has logged in no earlier than its token was issued.
pub record LoggedIn (i : Identity) (users : List User) : Type 0 where
  pub user : User
  pub found : find_identity i.issuer i.subject users ≡ some user
  pub fresh : stale_login user.last_login i.issued_at ≡ false

abbrev pub is_of : Identity → User → Bool
is_of i u = eq_bytes u.issuer i.issuer && eq_bytes u.subject i.subject

upsert-LoggedIn :
    (i : Identity) (now new_id : ℕ) (rows : List Row) (users : List User)
    → i.issued_at ≤ now
    → LoggedIn i (upsert_user i now new_id rows users)
unfolding find_identity upsert_user
upsert-LoggedIn i now new_id rows [] h = record {
  user = record {
    id = new_id;
    issuer = i.issuer;
    subject = i.subject;
    last_login = some now;
    memberships = rows;
  };
  found = ground (arith, eq_bytes_refl i.issuer, eq_bytes_refl i.subject);
  fresh = ground (arith, h);
}
upsert-LoggedIn i now new_id rows (u ∷ us) h =
    let same = eq_bytes u.issuer i.issuer && eq_bytes u.subject i.subject in
    elim (Bool-cases same) [
      | inl t ↦ record {
        user = record u { last_login = some now; memberships = rows };
        found = ground (arith, t);
        fresh = ground (arith, h);
      }
      | inr t ↦
          let later = upsert-LoggedIn i now new_id rows us h in
          record { user = later.user; found = ground (arith, t, later.found); fresh = later.fresh }
    ]

module _ (service : Service) (i : Identity) (users : List User)
    (in_time : i.issued_at ≤ service.now) where
  login-LoggedIn :
      (l : Login) (id : ℕ) (after : List User)
      → logged_in service i users l ≡ (ok id, after)
      → LoggedIn i after
  login-LoggedIn (not_allowed e) id after h = absurd (cc)
  login-LoggedIn (reconciled rows) id after h =
      let wrote : service.write_fails ≡ false = ground (arith, h) in
      let same : upsert_user i service.now service.new_id rows users ≡ after =
        ground (arith, h, wrote) in
      subst (LoggedIn i) same (upsert-LoggedIn i service.now service.new_id rows users in_time)

  first-LoggedIn :
      (r : Result ℕ × List User) (p : Principal) (after : List User)
      → reconcile_identity service i users ≡ r
      → after_login service r ≡ (ok p, after)
      → LoggedIn i after
  unfolding reconcile_identity
  first-LoggedIn (err e, us) p after e1 h = absurd (cc)
  first-LoggedIn (ok id, us) p after e1 h =
      let same : us ≡ after = ap (λ (r : Result Principal × List User). r.1) h in
      subst (LoggedIn i) same (login-LoggedIn _ id us e1)

  refresh-LoggedIn :
      (u : User) (r : Result ℕ × List User) (p : Principal) (after : List User)
      → reconcile_identity service i users ≡ r
      → after_refresh service u r ≡ (ok p, after)
      → LoggedIn i after
  unfolding reconcile_identity
  refresh-LoggedIn u (err e, us) p after e1 h = absurd (cc)
  refresh-LoggedIn u (ok id, us) p after e1 h =
      let same : us ≡ after = ap (λ (r : Result Principal × List User). r.1) h in
      subst (LoggedIn i) same (login-LoggedIn _ id us e1)

  pub known-LoggedIn :
      (o : Option User) (p : Principal) (after : List User)
      → find_identity i.issuer i.subject users ≡ o
      → known service i users o ≡ (ok p, after)
      → LoggedIn i after
  known-LoggedIn none p after e h =
      first-LoggedIn (reconcile_identity service i users) p after refl h
  known-LoggedIn (some u) p after e h = elim (Bool-cases (stale_login u.last_login i.issued_at)) [
    | inl t ↦
        refresh-LoggedIn u (reconcile_identity service i users) p after refl (ground (arith, h, t))
    | inr t ↦
        let same : users ≡ after = ground (arith, h, t) in
        subst (LoggedIn i) same (record { user = u; found = e; fresh = t })
  ]

pub no_rewrite :
    (service : Service) (i : Identity) (users : List User)
    → LoggedIn i users
    → (verified service users (ok i)).1 ≡ users
no_rewrite service i users l = ground (arith, l.found, l.fresh)
