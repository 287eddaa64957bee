-- ===== src/Auth/Tokens/Tests.antt =====
-- Tokens of internal/auth that are minted and then presented.
use bakery.Base.{
  ◌≡◌, refl, false, none, some, [], ◌∷◌, ◌++◌, Bytes, codes, eq_bytes, any, starts_with, arith,
}
use bakery.Auth.Principal.{
  Principal, SiteRole, ProjectRole, read, write, session, owner, is_interactive, scope_within_role,
  max_scope_for_role, is_site_admin, can_admin_org, can_own_org, can_admin_project,
}
use bakery.Auth.Tokens.{
  token_prefix, key_invalid, ok, err, Env, Db, Authz, authenticate_bakery_token, token_kind,
  has_token_prefix, validator_for, authenticate_user_token, looks_like, user_token_lives,
  authz_principal,
}
use bakery.Auth.Principal.{user_token}
use bakery.Auth.Tokens.Mint.{create_api_key, create_user_token, create_org_token}
use bakery.Auth.Tokens.Minting.{MayMint, minted_row, mint_within_role, minted_key_authenticates}
use bakery.Auth.Tokens.Holders.{KeyHolder}
use bakery.Auth.Tokens.Rows.{Backed, authenticate_bakery_token-Backed}
use bakery.Auth.Tokens.Escalation.{no_token_escalates}

-- The owner of org 5.
abbrev anna : Authz
anna = record {
  user_id = 1;
  issuer = codes "idp";
  subject = codes "anna";
  email = [];
  display_name = [];
  site_role = SiteRole.user;
  orgs = (5, owner) ∷ [];
  projects = (9, ProjectRole.admin) ∷ [];
}

abbrev annas_token : Bytes
annas_token = codes "bkru_0123456789"

-- The hash is the identity.
abbrev env : Env
env = record {
  hash_token = λ s. s;
  load = λ user epoch. some (some anna);
  now = 100;
  fails = false;
  insert_fails = false;
}

abbrev db : Db
db = record {
  api_keys = [];
  user_tokens =
      record {
        id = 3;
        user_id = 1;
        max_scope = read;
        hash = annas_token;
        epoch = 7;
        expires_at = some 200;
        revoked = false;
      }
      ∷ [];
  org_tokens = [];
  memberships = (1, 9, ProjectRole.admin) ∷ [];
}

abbrev caller : Principal
caller = authz_principal anna session write none

abbrev body : Bytes
body = codes "abcdefghijkl"

abbrev key : Bytes
key = token_prefix ++ body

abbrev grown : Db
grown = record db { api_keys = minted_row env 1 11 9 write none body ∷ [] }

minted : create_api_key env db 11 9 write none body (some caller) ≡ (ok key, grown)
unfolding create_api_key is_interactive scope_within_role max_scope_for_role
minted = refl

mint_within_role_example :
    (m : MayMint db (some caller) 9 write) × (key ≡ token_prefix ++ body)
    × (any (λ r. eq_bytes r.hash key) db.api_keys ≡ false)
    × (grown ≡ record db {
      api_keys = db.api_keys ++ minted_row env m.minter.user_id 11 9 write none body ∷ [];
    })
mint_within_role_example =
    mint_within_role env db 11 9 write none body (some caller) key grown minted

minted_key_authenticates_example :
    (m : MayMint db (some caller) 9 write) × (p : Principal) × (authenticate_bakery_token
        (record env { now = 500; fails = false })
        grown
        key
      ≡ record { result = ok p; used = some 11 })
    × KeyHolder p m.minter.user_id 11 9 write
minted_key_authenticates_example =
    minted_key_authenticates env db 11 9 write none body (some caller) key grown 500 minted
      (omega arith) refl

abbrev annas : Principal
annas = authz_principal anna user_token read none

authenticated :
    authenticate_bakery_token env db annas_token ≡ record { result = ok annas; used = some 3 }
unfolding authenticate_bakery_token token_kind has_token_prefix validator_for
    authenticate_user_token looks_like user_token_lives starts_with eq_bytes
authenticated = refl

authenticate_bakery_token-Backed_example : Backed env db annas_token annas (some 3)
authenticate_bakery_token-Backed_example =
    authenticate_bakery_token-Backed env db annas_token annas (some 3) authenticated

no_token_escalates_example :
    (is_site_admin annas ≡ false)
    × (can_admin_org annas 5 ≡ false)
    × (can_own_org annas 5 ≡ false)
    × (can_admin_project annas 5 9 ≡ false)
    × (create_api_key env db 11 9 write none body (some annas) ≡ (err key_invalid, db))
    × (create_user_token env db 11 7 write none body (some annas) ≡ (err key_invalid, db))
    × (create_org_token env db 11 2 5 write 300 body (some annas) ≡ (err key_invalid, db))
no_token_escalates_example =
    no_token_escalates env db annas_token annas (some 3) 11 9 2 5 7 write none 300 body
      authenticated
