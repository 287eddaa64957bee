-- ===== src/Auth/Reconcile/Logins.antt =====
-- What a login leaves of the memberships.
use bakery.Base.{
  ℕ, ◌≡◌, refl, ap, ◌∙◌, Bool, true, false, not, Option, none, some, List, [], ◌∷◌, Bytes, ◌==◌,
  if◌then◌else◌, is_some, ==_iff, Bool-cases, Option-cases, inl, inr,
}
use bakery.Config.GroupMap
use bakery.Config.GroupMap.{
  GroupMap, GroupsClaim, Resolution, LoginError, Resolved, refused, resolve, lookup,
}
use bakery.Auth.Principal.{OrgRole}
use bakery.Auth.Reconcile.{
  Row, org_role, is_kept, delete_unjustified, text, Upserted, upsert_org, upsert_orgs,
  reconcile_rows, not_allowed, reconciled, reconcile,
}
use bakery.Auth.Reconcile.Rows.{
  row_of, IsKeyed, local_of, granted, row_of-upsert, upsert-IsKeyed, survivor,
  row_of-delete_unjustified, cleared, row_of-clear_oidc, org_id-row_of,
}

abbrev pub Claim : Type 0
Claim = Option (OrgRole × Option Bytes)

abbrev pub claim_of : Option ℕ → ℕ → OrgRole → Option Bytes → Claim → Claim
claim_of none j role group old = old
claim_of (some org) j role group old = if org == j then some (role, group) else old

-- What the claims grant in an org, the last of them if two slugs have its id.
abbrev pub claims :
    (Bytes → Option ℕ) → List (Bytes × Bytes) → ℕ → List (Bytes × GroupMap.OrgRole) → Claim → Claim
claims org_ids groups j [] c = c
claims org_ids groups j ((slug, role) ∷ orgs) c =
    claims org_ids groups j orgs
      (claim_of (org_ids slug) j (org_role role) (text (lookup slug groups)) c)

abbrev pub under : ℕ → Claim → Option Row → Option Row
under j none old = old
under j (some (role, group)) old = some (granted j role group old)

-- The row of an org after a login: the claim's half is what the claims grant, the local half is as
-- it was, and a row with neither is gone.
abbrev pub after_login : ℕ → Claim → Option Row → Option Row
after_login j (some (role, group)) old = some (granted j role group old)
after_login j none none = none
after_login j none (some r) =
    if is_some r.local_role then some (record r { oidc_role = none; oidc_group = none }) else none

record Upserts (j : ℕ) (c : Claim) (old : Option Row) (u : Upserted) : Type 0 where
  keyed : IsKeyed u.rows
  row : row_of j u.rows ≡ under j c old
  kept : is_kept u.ids j ≡ is_some c

local_of-under : (j : ℕ) (c : Claim) (old : Option Row) → local_of (under j c old) ≡ local_of old
local_of-under j none old = refl
local_of-under j (some c) old = refl

abbrev with_local : ℕ → OrgRole → Option Bytes → Option OrgRole → Row
with_local j role group l = record {
  org_id = j;
  oidc_role = some role;
  oidc_group = group;
  local_role = l;
}

upsert_org-Upserts :
    (j : ℕ) (c : Claim) (old : Option Row) (o : Option ℕ) (role : OrgRole) (group : Option Bytes)
    (u : Upserted)
    → Upserts j c old u
    → Upserts j (claim_of o j role group c) old (upsert_org o role group u)
upsert_org-Upserts j c old none role group u h = h
upsert_org-Upserts j c old (some org) role group u h = elim (Bool-cases (org == j)) [
  | inl e ↦
      let same = (==_iff org j).0 e in
      let old_local = ap local_of h.row ∙ local_of-under j c old in
      rw e (record {
        keyed = upsert-IsKeyed org role group u.rows h.keyed;
        row =
            row_of-upsert org j role group u.rows
            ∙ rw e (
                ap (λ i. some (granted i role group (row_of i u.rows))) same
                ∙ ap (λ l. some (with_local j role group l)) old_local);
        kept = rw e refl;
      })
  | inr e ↦ rw e (record {
    keyed = upsert-IsKeyed org role group u.rows h.keyed;
    row = row_of-upsert org j role group u.rows ∙ rw e h.row;
    kept = rw e h.kept;
  })
]

upsert_orgs-Upserts :
    (org_ids : Bytes → Option ℕ) (groups : List (Bytes × Bytes)) (j : ℕ)
    (orgs : List (Bytes × GroupMap.OrgRole)) (c : Claim) (old : Option Row) (u : Upserted)
    → Upserts j c old u
    → Upserts j (claims org_ids groups j orgs c) old (upsert_orgs org_ids groups orgs u)
unfolding upsert_orgs
upsert_orgs-Upserts org_ids groups j [] c old u h = h
upsert_orgs-Upserts org_ids groups j ((slug, role) ∷ orgs) c old u h =
    upsert_orgs-Upserts org_ids groups j orgs _ old _
      (upsert_org-Upserts j c old (org_ids slug) (org_role role) (text (lookup slug groups)) u h)

cleared-after_login :
    (j : ℕ) (ids : List ℕ) (c : Claim) (old : Option Row)
    → is_kept ids j ≡ is_some c
    → ((r : Row) → old ≡ some r → r.org_id ≡ j)
    → cleared ids (survivor ids (under j c old)) ≡ after_login j c old
cleared-after_login j ids none none k f = refl
cleared-after_login j ids none (some r) k f =
    let out = ap (is_kept ids) (f r refl) ∙ k in
    elim (Bool-cases (is_some r.local_role)) [
      | inl l ↦ rw (out, l) (rw (out, l) refl)
      | inr l ↦ rw (out, l) refl
    ]
cleared-after_login j ids (some (role, group)) old k f = rw k (rw k refl)

-- In every org a login leaves the row that the two halves justify: the half of the claims is exactly
-- what they grant now, the local half is what it was, and a row that neither justifies is deleted.
-- (The rows are keyed by their org.)
pub row_of-reconcile_rows :
    (org_ids : Bytes → Option ℕ) (res : Resolution) (rows : List Row) (j : ℕ)
    → IsKeyed rows
    → row_of j (reconcile_rows org_ids res rows)
      ≡ after_login j (claims org_ids res.org_groups j res.orgs none) (row_of j rows)
unfolding reconcile_rows
row_of-reconcile_rows org_ids res rows j keyed =
    let u = upsert_orgs org_ids res.org_groups res.orgs (record { rows = rows; ids = [] }) in
    let c = claims org_ids res.org_groups j res.orgs none in
    let h =
      upsert_orgs-Upserts org_ids res.org_groups j res.orgs none (row_of j rows)
        (record { rows = rows; ids = [] }) (record { keyed = keyed; row = refl; kept = refl }) in
    row_of-clear_oidc u.ids j (delete_unjustified u.ids u.rows)
    ∙ ap (cleared u.ids)
        (row_of-delete_unjustified u.ids j u.rows h.keyed ∙ ap (survivor u.ids) h.row)
    ∙ cleared-after_login j u.ids c (row_of j rows) h.kept (org_id-row_of j rows)

local_of-after_login :
    (j : ℕ) (c : Claim) (old : Option Row) → local_of (after_login j c old) ≡ local_of old
local_of-after_login j none none = refl
local_of-after_login j none (some r) = elim (Option-cases r.local_role) [
  | inl e ↦ rw e refl
  | inr (l, e) ↦ rw e refl
]
local_of-after_login j (some c) old = refl

-- A login that is let in has resolved its groups.
let_in :
    (b : Bool) (r : Resolved) (org_ids : Bytes → Option ℕ) (rows left : List Row)
    → (if not b then not_allowed GroupMap.groups_unreadable else elim r [
      | refused e ↦ not_allowed e
      | GroupMap.resolved res ↦ reconciled (reconcile_rows org_ids res rows)
    ])
      ≡ reconciled left
    → (res : Resolution) × (r ≡ GroupMap.resolved res) × (left ≡ reconcile_rows org_ids res rows)
let_in false r org_ids rows left h = cc
let_in true (refused e) org_ids rows left h = cc
let_in true (GroupMap.resolved res) org_ids rows left h = (res, refl, cc)

-- A local grant survives every login as it is, whatever the claims say.
pub local_role_survives :
    (g : GroupMap) (claim : GroupsClaim) (org_ids : Bytes → Option ℕ) (rows left : List Row) (j : ℕ)
    → IsKeyed rows
    → reconcile g claim org_ids rows ≡ reconciled left
    → local_of (row_of j left) ≡ local_of (row_of j rows)
unfolding reconcile
local_role_survives g claim org_ids rows left j keyed h =
    let (res, _, e) = let_in claim.present (resolve g claim) org_ids rows left h in
    ap (λ r. local_of (row_of j r)) e
    ∙ ap local_of (row_of-reconcile_rows org_ids res rows j keyed)
    ∙ local_of-after_login j (claims org_ids res.org_groups j res.orgs none) (row_of j rows)
