-- ===== src/Gc/Plan.antt =====
-- internal/gc/plan.go, and durationOf and backendOf of gc.go: the windows and stages of a sweep.
-- An int64 is its bit pattern, a number below 2^64.
pub mod Ladder
mod Tests
use bakery.Base.{
  ℕ, ◌+◌, ◌*◌, ◌%◌, ◌^◌, Bool, true, false, not, ◌&&◌, ◌||◌, Option, none, some, List, [], ◌∷◌,
  Bytes, codes, map, leb, ltb, ◌==◌, if◌then◌else◌,
}

pub data BackendKind : Type 0 where
  sstate downloads bazel oci registry hashserv unknown : BackendKind

abbrev pub is_sstate : BackendKind → Bool
is_sstate sstate = true
is_sstate _ = false

abbrev pub is_downloads : BackendKind → Bool
is_downloads downloads = true
is_downloads _ = false

abbrev pub is_hashserv : BackendKind → Bool
is_hashserv hashserv = true
is_hashserv _ = false

-- pgtype.Interval; `none` stands for one that is not Valid. Days and months are sign-extended.
pub record Interval : Type 0 where
  pub microseconds : ℕ
  pub days : ℕ
  pub months : ℕ

-- repository.ListBackendsForGCRow
pub record Row : Type 0 where
  pub id : ℕ
  pub project_id : ℕ
  pub org_slug : Bytes
  pub project_slug : Bytes
  pub kind : BackendKind
  pub enabled : Bool
  pub retention_window : Option Interval
  pub quota_bytes : Option ℕ

-- 24 * time.Hour
abbrev pub day : ℕ
day = 86_400_000_000_000

abbrev pub disabled_backend_ceiling : ℕ
disabled_backend_ceiling = 30 * day

abbrev pub cas_window_factor : ℕ
cas_window_factor = 2

-- d <= 0 on an int64
abbrev pub is_nonpositive : ℕ → Bool
is_nonpositive d = d == 0 || leb (2 ^ 63) d

unfoldable pub duration_of : Option Interval → ℕ × Bool
duration_of none = (0, false)
duration_of (some v) =
    let d = (v.microseconds * 1000 + v.days * day + v.months * 30 * day) % 2 ^ 64 in
    if is_nonpositive d then (0, false) else (d, true)

-- Both arguments are positive where this is called, so the order is that of the patterns.
abbrev pub min_duration : ℕ → ℕ → ℕ
min_duration a b = if leb a b then a else b

unfoldable pub effective_window : Row → ℕ × Bool
effective_window r =
    let (w, given) = duration_of r.retention_window in
    if r.enabled
    then (w, given)
    else if not given
    then (if is_downloads r.kind then (0, false) else (disabled_backend_ceiling, true))
    else (min_duration w disabled_backend_ceiling, true)

pub data Reason : Type 0 where
  retention unreachable : Reason

pub record Stage : Type 0 where
  pub namespace : Bytes
  pub window : ℕ
  pub reason : Reason
  pub kind_label : Bytes

pub record BackendPlan : Type 0 where
  pub id : ℕ
  pub kind : BackendKind
  pub backend : BackendKind
  pub org : Bytes
  pub project : Bytes
  pub enabled : Bool
  pub window : ℕ
  pub has_window : Bool
  pub quota : ℕ
  pub hashserv : ℕ
  pub stages : List Stage

unfoldable pub managed : BackendPlan → Bool
managed p = p.has_window || not (is_nonpositive p.quota)

abbrev aged : Bytes → ℕ → Bytes → Stage
aged namespace window kind_label = record {
  namespace = namespace;
  window = window;
  reason = retention;
  kind_label = kind_label;
}

-- window * casWindowFactor
abbrev pub scaled : ℕ → ℕ
scaled w = w * cas_window_factor % 2 ^ 64

abbrev oci_stages : ℕ → List Stage
oci_stages w =
    aged (codes "tags") w (codes "tag")
    ∷ aged (codes "manifests") (scaled w) (codes "manifest")
    ∷ aged (codes "blobs") (scaled w) (codes "blob")
    ∷ []

unfoldable pub stages_for : BackendKind → ℕ → List Stage
stages_for sstate w =
    record { namespace = []; window = w; reason = unreachable; kind_label = codes "object" } ∷ []
stages_for downloads w = aged [] w (codes "file") ∷ []
stages_for bazel w =
    aged (codes "ac") w (codes "ac")
    ∷ aged (codes "ac-grpc") w (codes "ac")
    ∷ aged (codes "sccache") w (codes "ac")
    ∷ aged (codes "cas") (scaled w) (codes "cas")
    ∷ []
stages_for oci w = oci_stages w
stages_for registry w = oci_stages w
stages_for hashserv w = []
stages_for unknown w = []

-- hashservByProject[project] after the loop: the last row wins, 0 for none.
unfoldable pub hashserv_of : ℕ → ℕ → List Row → ℕ
hashserv_of project found [] = found
hashserv_of project found (r ∷ rs) =
    hashserv_of project (if is_hashserv r.kind && r.project_id == project then r.id else found) rs

-- (windows[id], hasWindow[id]) after the loop: the last row wins.
unfoldable pub window_of : ℕ → ℕ × Bool → List Row → ℕ × Bool
unfolding effective_window
window_of id found [] = found
window_of id found (r ∷ rs) = window_of id (if r.id == id then effective_window r else found) rs

-- The sstate rung: the window of the paired hashserv backend, where it is the longer.
unfoldable pub sstate_rung : ℕ × Bool → ℕ × Bool → ℕ × Bool
sstate_rung (w, has) (hw, hok) =
    if not hok then (0, false) else if has && ltb w hw then (hw, has) else (w, has)

-- metrics.Backend(kind): the label is the kind.
abbrev pub backend_of : BackendKind → BackendKind
backend_of kind = kind

abbrev positive_quota : Option ℕ → ℕ
positive_quota none = 0
positive_quota (some q) = if is_nonpositive q then 0 else q

unfoldable pub plan_of : List Row → Row → BackendPlan
plan_of rows r =
    let paired = hashserv_of r.project_id 0 rows in
    let own = window_of r.id (0, false) rows in
    let (w, has) =
      if is_sstate r.kind && not (paired == 0)
      then sstate_rung own (window_of paired (0, false) rows)
      else own in
    record {
      id = r.id;
      kind = r.kind;
      backend = backend_of r.kind;
      org = r.org_slug;
      project = r.project_slug;
      enabled = r.enabled;
      window = w;
      has_window = has;
      quota = positive_quota r.quota_bytes;
      hashserv = paired;
      stages = stages_for r.kind w;
    }

unfoldable pub build_plans : List Row → List BackendPlan
unfolding plan_of
build_plans rows = map (plan_of rows) rows
