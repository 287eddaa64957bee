-- ===== src/Config/GroupMap/Roles.antt =====
-- Which role, group and site role a login resolves to.
use Prim.Native.Nat.{max}
use bakery.Base.{
  ℕ, ◌≡◌, refl, Bool, true, false, not, ◌||◌, none, some, List, [], ◌∷◌, Bytes, contains, eq_bytes,
  eq_bytes_iff, ltb, if◌then◌else◌, arith, Bool-cases, inl, inr, ◌⊎◌,
}
use bakery.Config.GroupMap.{
  OrgRole, rank, SiteRole, user, GroupMapOrg, GroupMap, GroupsClaim, lookup, insert, rank_of,
  Granted, grant_group, grant_groups, grant_orgs, first_claimed, any_claimed, resolved, refused,
  groups_unreadable, not_in_login_group, resolution, resolve, validate, is_empty,
}

pub lookup-insert {ℓ} :
    {V : Type ℓ} (k j : Bytes) (v : V) (m : List (Bytes × V))
    → lookup j (insert k v m) ≡ (if eq_bytes k j then some v else lookup j m)
unfolding lookup insert
lookup-insert k j v [] = refl
lookup-insert k j v ((i, w) ∷ m) =
    ground (arith, eq_bytes_iff k j, eq_bytes_iff i k, eq_bytes_iff i j, lookup-insert k j v m)

-- The highest rank that the claimed groups of one org's table grant.
abbrev pub best : List Bytes → List (Bytes × OrgRole) → ℕ
best claimed [] = 0
best claimed ((group, role) ∷ gs) =
    max (if contains group claimed then rank role else 0) (best claimed gs)

-- The highest rank that the whole file grants in the org with this slug.
abbrev pub best_in : List Bytes → Bytes → List GroupMapOrg → ℕ
best_in claimed slug [] = 0
best_in claimed slug (org ∷ rest) =
    max (if eq_bytes org.slug slug then best claimed org.groups else 0) (best_in claimed slug rest)

abbrev pub InTable : Bytes → OrgRole → List (Bytes × OrgRole) → Type 0
InTable group role [] = ⊥
InTable group role ((g, r) ∷ gs) = ((g ≡ group) × (r ≡ role)) ⊎ InTable group role gs

-- The file grants this role in this org to this group.
abbrev pub InFile : Bytes → Bytes → OrgRole → List GroupMapOrg → Type 0
InFile slug group role [] = ⊥
InFile slug group role (org ∷ rest) =
    ((org.slug ≡ slug) × InTable group role org.groups) ⊎ InFile slug group role rest

-- A role that is recorded for an org has a recorded group, which the user holds and to which the
-- file grants that role there.
abbrev pub Justified : List Bytes → List GroupMapOrg → Granted → Bytes → Type 0
Justified claimed file acc slug =
    (role : OrgRole)
    → lookup slug acc.orgs ≡ some role
    → (group : Bytes) × (lookup slug acc.groups ≡ some group)
      × (contains group claimed ≡ true)
      × InFile slug group role file

module _ (claimed : List Bytes) (file : List GroupMapOrg) (j : Bytes) where
  grant_group-Justified :
      (slug group : Bytes) (role : OrgRole) (acc : Granted)
      → InFile slug group role file
      → Justified claimed file acc j
      → Justified claimed file (grant_group claimed slug (group, role) acc) j
  unfolding grant_group
  grant_group-Justified slug group role acc listed old r h = elim (Bool-cases (eq_bytes slug j)) [
    | inr other ↦ ground (
      arith,
      other,
      lookup-insert slug j role acc.orgs,
      lookup-insert slug j group acc.groups,
      old r,
    )
    | inl same ↦ elim (Bool-cases (contains group claimed)) [
      | inr unheld ↦ rw (unheld, grant_group) (old r (rw (unheld, grant_group) at h))
      | inl held ↦ elim (Bool-cases (ltb (rank_of (lookup slug acc.orgs)) (rank role))) [
        | inr low ↦ ground (arith, held, low, old r)
        | inl high ↦ (
          group,
          ground (arith, held, high, same, lookup-insert slug j group acc.groups),
          held,
          rw (← (eq_bytes_iff slug j).0 same) (rw (← wins held high same) listed),
        )
      ]
    ]
  ]
    where
      wins :
          contains group claimed ≡ true
          → ltb (rank_of (lookup slug acc.orgs)) (rank role) ≡ true
          → eq_bytes slug j ≡ true
          → role ≡ r
      wins held high same = ground (arith, lookup-insert slug j role acc.orgs)

  grant_groups-Justified :
      (slug : Bytes) (gs : List (Bytes × OrgRole)) (acc : Granted)
      → ((group : Bytes) (role : OrgRole) → InTable group role gs → InFile slug group role file)
      → Justified claimed file acc j
      → Justified claimed file (grant_groups claimed slug gs acc) j
  unfolding grant_groups
  grant_groups-Justified slug [] acc listed old = old
  grant_groups-Justified slug ((group, role) ∷ gs) acc listed old =
      grant_groups-Justified slug gs (grant_group claimed slug (group, role) acc)
        (λ g r t. listed g r (inr t))
        (grant_group-Justified slug group role acc (listed group role (inl (refl, refl))) old)

  grant_orgs-Justified :
      (orgs : List GroupMapOrg) (acc : Granted)
      → ((slug group : Bytes) (role : OrgRole)
          → InFile slug group role orgs
          → InFile slug group role file)
      → Justified claimed file acc j
      → Justified claimed file (grant_orgs claimed orgs acc) j
  unfolding grant_orgs
  grant_orgs-Justified [] acc listed old = old
  grant_orgs-Justified (org ∷ rest) acc listed old =
      grant_orgs-Justified rest (grant_groups claimed org.slug org.groups acc)
        (λ s g r t. listed s g r (inr t))
        (grant_groups-Justified org.slug org.groups acc
          (λ g r t. listed org.slug g r (inl (refl, t))) old)

-- Every role that a login resolves to is justified by a group that is recorded with it: the user
-- holds the group, and the file grants it exactly that role in that org.
pub resolution_justified :
    (g : GroupMap) (claimed : List Bytes) (slug : Bytes) (role : OrgRole)
    → lookup slug (resolution g claimed).orgs ≡ some role
    → (group : Bytes) × (lookup slug (resolution g claimed).org_groups ≡ some group)
      × (contains group claimed ≡ true)
      × InFile slug group role g.orgs
unfolding resolution lookup
resolution_justified g claimed slug role h =
    grant_orgs-Justified claimed g.orgs slug g.orgs (record { orgs = []; groups = [] })
      (λ s gr r t. t) (λ r e. ground arith) role h

-- Some group is in both lists.
abbrev pub shares : List Bytes → List Bytes → Bool
shares claimed [] = false
shares claimed (group ∷ want) = contains group claimed || shares claimed want

first_claimed-shares :
    (claimed want : List Bytes)
    → contains [] want ≡ false
    → is_empty (first_claimed claimed want) ≡ not (shares claimed want)
unfolding first_claimed contains
first_claimed-shares claimed [] h = refl
first_claimed-shares claimed ([] ∷ want) h = absurd (unfold eq_bytes in ground arith)
first_claimed-shares claimed ((c ∷ group) ∷ want) h =
    ground (arith, first_claimed-shares claimed want)

validate_gates :
    (g : GroupMap)
    → validate g ≡ none
    → (contains [] g.login_groups ≡ false) × (contains [] g.site_admin_groups ≡ false)
unfolding validate
validate_gates g h = (ground arith, ground arith)

-- Under a file that validates, a login is admitted exactly when its groups claim was read and it
-- holds a login group or the file names none, and an unreadable claim is refused as such whatever
-- the gate. The claimed site role is admin exactly when a site admin group is held.
pub resolve_gate :
    (g : GroupMap) (claim : GroupsClaim)
    → validate g ≡ none
    → (resolve g claim ≡ (
        if not claim.present
        then refused groups_unreadable
        else if is_empty g.login_groups || shares claim.groups g.login_groups
        then resolved (resolution g claim.groups)
        else refused not_in_login_group))
      × ((resolution g claim.groups).site_role
          ≡ (if shares claim.groups g.site_admin_groups then SiteRole.admin else user))
resolve_gate g claim h =
    let (login, site) = validate_gates g h in
    (
      unfold resolve any_claimed in
          ground (arith, first_claimed-shares claim.groups g.login_groups login),
      unfold resolution in
          ground (arith, first_claimed-shares claim.groups g.site_admin_groups site),
    )
