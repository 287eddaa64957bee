-- ===== src/Gc/Plan/Tests.antt =====
-- The plans of internal/gc/plan.go for concrete backends.
use bakery.Base.{ℕ, ◌*◌, ◌≡◌, refl, true, false, Option, none, some, List, [], ◌∷◌, codes}
use bakery.Gc.Plan.{
  sstate, bazel, hashserv, Row, Interval, duration_of, effective_window, hashserv_of, window_of,
  plan_of,
}

abbrev days : ℕ → Option Interval
days n = some (record { microseconds = 0; days = n; months = 0 })

abbrev sstate_row : Row
sstate_row = record {
  id = 1;
  project_id = 7;
  org_slug = codes "acme";
  project_slug = codes "app";
  kind = sstate;
  enabled = true;
  retention_window = days 10;
  quota_bytes = none;
}

abbrev hashserv_row : Row
hashserv_row = record sstate_row { id = 2; kind = hashserv; retention_window = days 30 }

abbrev bazel_row : Row
bazel_row = record sstate_row { id = 3; kind = bazel; enabled = false; retention_window = days 90 }

abbrev rows : List Row
rows = sstate_row ∷ hashserv_row ∷ bazel_row ∷ []

abbrev bazel_window : (plan_of rows bazel_row).window ≡ 30 * 86_400_000_000_000
bazel_window = unfold plan_of hashserv_of window_of effective_window duration_of in refl

abbrev paired : hashserv_of 7 0 rows ≡ 2
paired = unfold hashserv_of in refl
