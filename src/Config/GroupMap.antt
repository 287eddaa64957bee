-- ===== src/Config/GroupMap.antt =====
-- internal/config/groupmap.go: what a login's groups grant. JSON decoding is not modelled: the
-- parsed file is the input. A Go map is a list of pairs in the order in which the loop yields them.
pub mod Validation
pub mod Roles
mod Tests
use bakery.Base.{
  ℕ, suc, ◌+◌, Bool, true, false, not, ◌&&◌, Option, none, some, List, [], ◌∷◌, Bytes, contains,
  eq_bytes, ltb, ◌==◌, if◌then◌else◌,
}
use bakery.Slug
use bakery.Slug.{Verdict, accepted, invalid_slug, reserved_slug}

-- OrgRole is a string: `unknown` is any other value than the three.
pub data OrgRole : Type 0 where
  member admin owner : OrgRole
  unknown : Bytes → OrgRole

abbrev pub rank : OrgRole → ℕ
rank member = 1
rank admin = 2
rank owner = 3
rank (unknown s) = 0

abbrev pub is_known : OrgRole → Bool
is_known r = ltb 0 (rank r)

pub data SiteRole : Type 0 where
  user admin : SiteRole

pub record GroupMapOrg : Type 0 where
  pub slug : Bytes
  pub groups : List (Bytes × OrgRole)

pub record GroupMap : Type 0 where
  pub login_groups : List Bytes
  pub site_admin_groups : List Bytes
  pub orgs : List GroupMapOrg

pub record GroupsClaim : Type 0 where
  pub groups : List Bytes
  pub present : Bool

pub record Resolution : Type 0 where
  pub site_role : SiteRole
  pub site_group : Bytes
  pub orgs : List (Bytes × OrgRole)
  pub org_groups : List (Bytes × Bytes)

-- The ErrInvalidGroupMap of `validate`, with the index of the org that it names.
pub data MapError : Type 0 where
  bad_slug : ℕ → Verdict → MapError
  duplicate_org : ℕ → MapError
  no_groups : ℕ → MapError
  empty_group : ℕ → MapError
  bad_role : ℕ → MapError
  empty_site_admin_group : MapError
  empty_login_group : MapError

-- The loop over one org's groups.
unfoldable pub validate_groups : ℕ → List (Bytes × OrgRole) → Option MapError
unfolding eq_bytes
validate_groups i [] = none
validate_groups i ((group, role) ∷ rest) =
    let later = validate_groups i rest in
    if eq_bytes group []
    then some (empty_group i)
    else if not (is_known role)
    then some (bad_role i)
    else later

abbrev pub is_empty {ℓ} : {A : Type ℓ} → List A → Bool
is_empty [] = true
is_empty (_ ∷ _) = false

abbrev pub or_else {ℓ} : {A : Type ℓ} → Option A → Option A → Option A
or_else none b = b
or_else (some a) b = some a

abbrev pub or_slug : ℕ → Verdict → Option MapError → Option MapError
or_slug i accepted next = next
or_slug i invalid_slug next = some (bad_slug i invalid_slug)
or_slug i reserved_slug next = some (bad_slug i reserved_slug)

-- The loop over the orgs, `seen` the slugs before.
unfoldable pub validate_orgs : ℕ → List Bytes → List GroupMapOrg → Option MapError
unfolding validate_groups contains
validate_orgs i seen [] = none
validate_orgs i seen (org ∷ rest) =
    let later = validate_orgs (suc i) (org.slug ∷ seen) rest in
    or_slug i (Slug.check org.slug) (
      if contains org.slug seen
      then some (duplicate_org i)
      else if is_empty org.groups
      then some (no_groups i)
      else or_else (validate_groups i org.groups) later)

unfoldable pub validate : GroupMap → Option MapError
validate g = or_else (validate_orgs 0 [] g.orgs) (
    if contains [] g.site_admin_groups
    then some empty_site_admin_group
    else if contains [] g.login_groups
    then some empty_login_group
    else none)

-- m[key], for a map of text.
unfoldable pub lookup {ℓ} : {V : Type ℓ} → Bytes → List (Bytes × V) → Option V
unfolding eq_bytes
lookup k [] = none
lookup k ((j, v) ∷ m) = if eq_bytes j k then some v else lookup k m

-- m[key] = v
unfoldable pub insert {ℓ} : {V : Type ℓ} → Bytes → V → List (Bytes × V) → List (Bytes × V)
unfolding eq_bytes
insert k v [] = (k, v) ∷ []
insert k v ((j, w) ∷ m) = if eq_bytes j k then (k, v) ∷ m else (j, w) ∷ insert k v m

-- orgs[slug].rank(): the zero value has rank 0.
abbrev pub rank_of : Option OrgRole → ℕ
rank_of none = 0
rank_of (some r) = rank r

-- The two maps that Resolve builds.
pub record Granted : Type 0 where
  pub orgs : List (Bytes × OrgRole)
  pub groups : List (Bytes × Bytes)

unfoldable pub grant_group : List Bytes → Bytes → Bytes × OrgRole → Granted → Granted
unfolding contains lookup insert
grant_group claimed slug (group, role) acc =
    if not (contains group claimed)
    then acc
    else if ltb (rank_of (lookup slug acc.orgs)) (rank role)
    then record { orgs = insert slug role acc.orgs; groups = insert slug group acc.groups }
    else acc

unfoldable pub grant_groups : List Bytes → Bytes → List (Bytes × OrgRole) → Granted → Granted
unfolding grant_group
grant_groups claimed slug [] acc = acc
grant_groups claimed slug (g ∷ gs) acc =
    grant_groups claimed slug gs (grant_group claimed slug g acc)

unfoldable pub grant_orgs : List Bytes → List GroupMapOrg → Granted → Granted
unfolding grant_groups
grant_orgs claimed [] acc = acc
grant_orgs claimed (org ∷ rest) acc =
    grant_orgs claimed rest (grant_groups claimed org.slug org.groups acc)

unfoldable pub first_claimed : List Bytes → List Bytes → Bytes
unfolding contains
first_claimed claimed [] = []
first_claimed claimed (group ∷ want) =
    if contains group claimed then group else first_claimed claimed want

unfoldable pub any_claimed : List Bytes → List Bytes → Bool
any_claimed claimed want = not (is_empty (first_claimed claimed want))

pub data LoginError : Type 0 where
  groups_unreadable not_in_login_group : LoginError

pub data Resolved : Type 0 where
  resolved : Resolution → Resolved
  refused : LoginError → Resolved

unfoldable pub resolution : GroupMap → List Bytes → Resolution
resolution g claimed =
    let granted = grant_orgs claimed g.orgs (record { orgs = []; groups = [] }) in
    let site_group = first_claimed claimed g.site_admin_groups in
    record {
      site_role = if is_empty site_group then user else SiteRole.admin;
      site_group = site_group;
      orgs = granted.orgs;
      org_groups = granted.groups;
    }

unfoldable pub resolve : GroupMap → GroupsClaim → Resolved
resolve g claim =
    if not claim.present
    then refused groups_unreadable
    else if not (is_empty g.login_groups) && not (any_claimed claim.groups g.login_groups)
    then refused not_in_login_group
    else resolved (resolution g claim.groups)
