-- ===== src/Auth/Tokens/Escalation.antt =====
-- What the principal of a token may not do: administer, or mint (internal/auth).
use bakery.Base.{ℕ, ◌≡◌, refl, false, Option, some, Bytes}
use bakery.Auth.Principal.{
  Principal, Scope, is_interactive, is_site_admin, can_admin_org, can_own_org, can_admin_project,
}
use bakery.Auth.Principal.Machines.{machine_never_administers}
use bakery.Auth.Tokens.{key_invalid, ok, err, Db, Env, authenticate_bakery_token}
use bakery.Auth.Tokens.Mint.{create_api_key, create_user_token, create_org_token}
use bakery.Auth.Tokens.Rows.{Backed, by_key, by_user, by_robot, authenticate_bakery_token-Backed}

pub Backed-machine :
    (env : Env) (db : Db) (token : Bytes) (p : Principal) (used : Option ℕ)
    → Backed env db token p used
    → is_interactive p ≡ false
unfolding is_interactive
Backed-machine env db token p used (by_key k b live holder u) = rw holder.by_method refl
Backed-machine env db token p used (by_user k b live authz l holder u) = rw holder.by_method refl
Backed-machine env db token p used (by_robot k b live holder u) = rw holder.by_method refl

machine_mints_nothing :
    (env : Env) (db : Db) (p : Principal) (id project robot org epoch : ℕ) (scope : Scope)
    (expires : Option ℕ) (until : ℕ) (body : Bytes)
    → is_interactive p ≡ false
    → (create_api_key env db id project scope expires body (some p) ≡ (err key_invalid, db))
      × (create_user_token env db id epoch scope expires body (some p) ≡ (err key_invalid, db))
      × (create_org_token env db id robot org scope until body (some p) ≡ (err key_invalid, db))
unfolding create_api_key create_user_token create_org_token
machine_mints_nothing env db p id project robot org epoch scope expires until body h =
    (rw h refl, rw h refl, rw h refl)

-- Whatever roles its owner holds, the principal of a token administers no org, no project and not
-- the site, and it mints no API key, no user token and no org token: each is refused and changes no
-- table, whatever is asked for.
pub no_token_escalates :
    (env : Env) (db : Db) (token : Bytes) (p : Principal) (used : Option ℕ)
    (id project robot org epoch : ℕ) (scope : Scope) (expires : Option ℕ) (until : ℕ) (body : Bytes)
    → authenticate_bakery_token env db token ≡ record { result = ok p; used = used }
    → (is_site_admin p ≡ false)
      × (can_admin_org p org ≡ false)
      × (can_own_org p org ≡ false)
      × (can_admin_project p org project ≡ false)
      × (create_api_key env db id project scope expires body (some p) ≡ (err key_invalid, db))
      × (create_user_token env db id epoch scope expires body (some p) ≡ (err key_invalid, db))
      × (create_org_token env db id robot org scope until body (some p) ≡ (err key_invalid, db))
no_token_escalates env db token p used id project robot org epoch scope expires until body h =
    let machine =
      Backed-machine env db token p used (authenticate_bakery_token-Backed env db token p used h) in
    let (site, admin, own, projects) = machine_never_administers p org project machine in
    let (keys, users, robots) =
      machine_mints_nothing env db p id project robot org epoch scope expires until body machine in
    (site, admin, own, projects, keys, users, robots)
