-- ===== src/Auth/Tokens/Minting.antt =====
-- What the minting of an API key asks for, and what the key then does (internal/auth).
use bakery.Base.{
  ℕ, ◌<◌, ◌≡◌, refl, sym, ap, Bool, true, false, ◌||◌, Option, none, some, List, [], ◌∷◌, ◌++◌,
  Bytes, eq_bytes, eq_bytes_refl, starts_with, any, length, length-append, arith,
}
use mathlib.Core.Path.{subst}
use bakery.Auth.Principal.{Principal, ProjectRole, Scope, is_interactive, scope_within_role}
use bakery.Auth.Tokens.{
  token_prefix, display_len, looks_like, ApiKey, Result, ok, Db, Env, lasts, key_lives, first,
  key_principal, authenticate_key, authenticate_bakery_token, token_kind, of_project,
  has_token_prefix, validator_for,
}
use bakery.Auth.Tokens.Holders.{KeyHolder, key_principal-KeyHolder}
use bakery.Auth.Tokens.Mint.{require_mint_authority, role_in, mint_key, mint_by, create_api_key}

-- What a mint that succeeds asked of its caller.
pub record MayMint (db : Db) (caller : Option Principal) (project : ℕ) (scope : Scope)
    : Type 0 where
  pub minter : Principal
  pub role : ProjectRole
  pub calls : caller ≡ some minter
  pub interactive : is_interactive minter ≡ true
  pub member : role_in minter.user_id project db.memberships ≡ some role
  pub within : scope_within_role scope role ≡ true

-- The row that a mint inserts.
abbrev pub minted_row : Env → ℕ → ℕ → ℕ → Scope → Option ℕ → Bytes → ApiKey
minted_row env user id project scope expires body = record {
  id = id;
  user_id = user;
  project_id = project;
  scope = scope;
  hash = env.hash_token (token_prefix ++ body);
  expires_at = expires;
  revoked = false;
}

first-append :
    (p : ApiKey → Bool) (xs : List ApiKey) (x : ApiKey)
    → any p xs ≡ false
    → p x ≡ true
    → first p (xs ++ x ∷ []) ≡ some x
first-append p [] x n h = rw h refl
first-append p (y ∷ xs) x n h = ground (arith, first-append p xs x)

any-lives :
    (now : ℕ) (hash : Bytes) (rs : List ApiKey)
    → any (λ r. eq_bytes r.hash hash) rs ≡ false
    → any (key_lives now hash) rs ≡ false
unfolding key_lives
any-lives now hash [] h = refl
any-lives now hash (r ∷ rs) h = ground (arith, any-lives now hash rs)

starts-append : (p s : Bytes) → starts_with p (p ++ s) ≡ true
unfolding starts_with
starts-append [] s = refl
starts-append (b ∷ p) s = ground (arith, starts-append p s)

minted_looks :
    (body : Bytes)
    → display_len < length body
    → looks_like token_prefix (token_prefix ++ body) ≡ true
unfolding looks_like
minted_looks body h =
    ground (arith, starts-append token_prefix body, length-append token_prefix body)

minted_kind :
    (body : Bytes) → display_len < length body → token_kind (token_prefix ++ body) ≡ of_project
unfolding token_kind has_token_prefix
minted_kind body h =
    ground (arith, starts-append token_prefix body, length-append token_prefix body)

authenticate_live :
    (env : Env) (db : Db) (row : ApiKey) (body : Bytes)
    → env.fails ≡ false
    → display_len < length body
    → first (key_lives env.now (env.hash_token (token_prefix ++ body))) db.api_keys ≡ some row
    → eq_bytes row.hash (env.hash_token (token_prefix ++ body)) ≡ true
    → authenticate_bakery_token env db (token_prefix ++ body)
      ≡ record { result = ok (key_principal row); used = some row.id }
unfolding authenticate_bakery_token validator_for authenticate_key
authenticate_live env db row body no_failure long found same =
    rw (minted_kind body long, minted_looks body long, no_failure, found, same) refl

lives_later :
    (env : Env) (user id project : ℕ) (scope : Scope) (expires : Option ℕ) (body : Bytes)
    (later : ℕ)
    → lasts later expires ≡ true
    → key_lives later
        (env.hash_token (token_prefix ++ body))
        (minted_row env user id project scope expires body)
      ≡ true
unfolding key_lives
lives_later env user id project scope expires body later h =
    ground (arith, h, eq_bytes_refl (env.hash_token (token_prefix ++ body)))

module _ (env : Env) (db : Db) (id project : ℕ) (scope : Scope) (expires : Option ℕ)
    (body : Bytes) where
  abbrev hash : Bytes
  hash = env.hash_token (token_prefix ++ body)

  abbrev Minted : Option Principal → Bytes → Db → Type 0
  Minted caller token db' =
      (m : MayMint db caller project scope) × (token ≡ token_prefix ++ body)
      × (any (λ r. eq_bytes r.hash hash) db.api_keys ≡ false)
      × (db' ≡ record db {
        api_keys =
            db.api_keys ++ minted_row env m.minter.user_id id project scope expires body ∷ [];
      })

  in_role :
      (p : Principal) (token : Bytes) (db' : Db) (o : Option ProjectRole)
      → is_interactive p ≡ true
      → role_in p.user_id project db.memberships ≡ o
      → mint_key env db id project scope expires body p o ≡ (ok token, db')
      → Minted (some p) token db'
  in_role p token db' none i r h = absurd (cc)
  in_role p token db' (some role) i r h =
      let row = minted_row env p.user_id id project scope expires body in
      let token' = token_prefix ++ body in
      let within : scope_within_role scope role ≡ true = ground arith in
      let fresh : (env.insert_fails || any (λ r. eq_bytes r.hash hash) db.api_keys) ≡ false =
        ground arith in
      let same : ◌≡◌ {A = Result Bytes × Db}
          (ok token', record db { api_keys = db.api_keys ++ row ∷ [] }) (ok token, db') =
        ground (arith, h, within, fresh) in
      (
        record {
          minter = p;
          role = role;
          calls = refl;
          interactive = i;
          member = r;
          within = within;
        },
        ground arith,
        ground arith,
        sym (ap (λ r. r.1) same),
      )

  by_caller :
      (caller : Option Principal) (token : Bytes) (db' : Db)
      → mint_by env db id project scope expires body caller (require_mint_authority caller)
        ≡ (ok token, db')
      → Minted caller token db'
  by_caller none token db' h = absurd (cc)
  by_caller (some p) token db' h =
      let role = role_in p.user_id project db.memberships in
      let interactive : is_interactive p ≡ true = ground (arith, h) in
      in_role p token db' role interactive refl (ground (arith, h, interactive))

  minted_lem :
      (caller : Option Principal) (token : Bytes) (db' : Db)
      → create_api_key env db id project scope expires body caller ≡ (ok token, db')
      → Minted caller token db'
  unfolding create_api_key
  minted_lem caller token db' h = by_caller caller token db' h

-- A mint that succeeds has an interactive caller, who holds a role in the project that allows the
-- scope. It adds one row, whose user is the caller, whose project and scope are those asked for and
-- whose hash no row had, and it changes no other table.
pub mint_within_role :
    (env : Env) (db : Db) (id project : ℕ) (scope : Scope) (expires : Option ℕ) (body : Bytes)
    (caller : Option Principal) (token : Bytes) (db' : Db)
    → create_api_key env db id project scope expires body caller ≡ (ok token, db')
    → (m : MayMint db caller project scope) × (token ≡ token_prefix ++ body)
      × (any (λ r. eq_bytes r.hash (env.hash_token token)) db.api_keys ≡ false)
      × (db' ≡ record db {
        api_keys =
            db.api_keys ++ minted_row env m.minter.user_id id project scope expires body ∷ [];
      })
mint_within_role env db id project scope expires body caller token db' h =
    let (m, is, fresh, grown) =
      minted_lem env db id project scope expires body caller token db' h in
    (
      m,
      is,
      subst (λ t. any (λ r. eq_bytes r.hash (env.hash_token t)) db.api_keys ≡ false) (sym is) fresh,
      grown,
    )

-- A key that was minted with a body of more than eight bytes authenticates afterwards, while it has
-- not expired and the statement does not fail. It is marked as used under its id, and its principal
-- is its minter with no role and no org, who reads the project asked for alone and writes there
-- exactly if the scope asked for is the write scope.
pub minted_key_authenticates :
    (env : Env) (db : Db) (id project : ℕ) (scope : Scope) (expires : Option ℕ) (body : Bytes)
    (caller : Option Principal) (token : Bytes) (db' : Db) (later : ℕ)
    → create_api_key env db id project scope expires body caller ≡ (ok token, db')
    → display_len < length body
    → lasts later expires ≡ true
    → (m : MayMint db caller project scope) × (p : Principal) × (authenticate_bakery_token
          (record env { now = later; fails = false })
          db'
          token
        ≡ record { result = ok p; used = some id })
      × KeyHolder p m.minter.user_id id project scope
minted_key_authenticates env db id project scope expires body caller token db' later h long live =
    let (m, is, fresh, grown) =
      minted_lem env db id project scope expires body caller token db' h in
    let hash = env.hash_token (token_prefix ++ body) in
    let row = minted_row env m.minter.user_id id project scope expires body in
    let at = record env { now = later; fails = false } in
    let grown_db = record db { api_keys = db.api_keys ++ row ∷ [] } in
    let now_found : first (key_lives later hash) (db.api_keys ++ row ∷ []) ≡ some row =
      first-append (key_lives later hash) db.api_keys row (any-lives later hash db.api_keys fresh)
        (lives_later env m.minter.user_id id project scope expires body later live) in
    let answered : authenticate_bakery_token at grown_db (token_prefix ++ body)
        ≡ record { result = ok (key_principal row); used = some id } =
      authenticate_live at grown_db row body refl long now_found (eq_bytes_refl hash) in
    (m, key_principal row, rw (is, grown) answered, key_principal-KeyHolder row)
