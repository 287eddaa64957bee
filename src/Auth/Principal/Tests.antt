-- ===== src/Auth/Principal/Tests.antt =====
-- The capabilities of internal/auth/principal.go at concrete principals.
use bakery.Base.{◌≡◌, refl, true, false, none, some, [], ◌∷◌, codes}
use bakery.Auth.Principal.{
  Principal, user, OrgRole, reader, KeyGrant, RobotGrant, unset, read, write, session, api_key,
  org_token, user_token, can_view_org, can_read_project, can_write_project,
}
use bakery.Auth.Principal.Machines.{key_confined}

-- An org owner and project reader at a console.
abbrev owner_session : Principal
owner_session = record {
  user_id = 1;
  issuer = codes "https://idp";
  subject = codes "u1";
  email = codes "a@b.c";
  display_name = codes "A";
  method = session;
  site_role = user;
  orgs = (10, OrgRole.owner) ∷ [];
  projects = (20, reader) ∷ [];
  key = none;
  robot = none;
  max_scope = unset;
}

abbrev key_grant : KeyGrant
key_grant = record { key_id = 5; project_id = 20; scope = read }

abbrev robot_grant : RobotGrant
robot_grant = record { robot_id = 6; org_id = 10; scope = write }

abbrev key_principal : Principal
key_principal = record owner_session { method = api_key; key = some key_grant }

abbrev robot_principal : Principal
robot_principal = record owner_session { method = org_token; robot = some robot_grant }

abbrev token_principal : Principal
token_principal = record owner_session { method = user_token; max_scope = write }

key_confined_example :
    (can_read_project key_principal 10 20 ≡ true)
    × (can_write_project key_principal 10 20 ≡ false)
    × (can_view_org key_principal 10 ≡ false)
key_confined_example = key_confined key_principal key_grant 10 20 refl refl refl
