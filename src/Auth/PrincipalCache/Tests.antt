-- ===== src/Auth/PrincipalCache/Tests.antt =====
-- Loads of a shard of internal/auth/principalcache.go.
use bakery.Base.{ℕ, ◌+◌, ◌≡◌, ◌≤◌, refl, some, List, [], ◌∷◌, length}
use bakery.Auth.PrincipalCache.{
  entries_per_shard, Load, Filled, found, no_user, failing, load, after, get, put, is_key, evict,
}
use bakery.Auth.PrincipalCache.Staleness.{Answered, load_answers}
use bakery.Auth.PrincipalCache.Capacity.{capacity_kept}

abbrev load_at : ℕ → ℕ → Filled ℕ → Load ℕ
load_at user at filled = record {
  user_id = user;
  epoch = 4;
  got_at = at;
  put_at = at + 5;
  filled = filled;
  order = [];
}

-- User 1 is loaded as 7, user 2 is not there, and user 3's load fails.
abbrev loads : List (Load ℕ)
loads = load_at 3 120 failing ∷ load_at 2 110 no_user ∷ load_at 1 100 (found 7) ∷ []

-- The entry of user 1 answers while its reload would fail.
abbrev again : Load ℕ
again = load_at 1 200 failing

cached_answer : (load again (after loads)).0 ≡ some (some 7)
unfolding load after get put is_key evict
cached_answer = refl

load_answers_example : Answered loads again (some 7)
load_answers_example = load_answers loads again (some 7) cached_answer

capacity_kept_example : length (after loads) ≤ entries_per_shard
capacity_kept_example = capacity_kept loads
