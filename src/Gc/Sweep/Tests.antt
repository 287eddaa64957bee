-- ===== src/Gc/Sweep/Tests.antt =====
-- Passes of internal/gc/sweep.go over the rows of one small sstate backend.
use bakery.Base.{
  ℕ, ◌≡◌, refl, arith, any, Bool, true, false, ltb, ◌==◌, some, none, [], ◌∷◌, Bytes, eq_bytes,
  keep, if◌then◌else◌, ◌&&◌,
}
use bakery.Gc.Plan.{BackendKind, BackendPlan, Reason, Stage}
use bakery.Gc.Quota.{new_usage, liveness_of}
use bakery.Gc.Sweep.{
  Object, Engine, State, unreachable, probes, scan, same_key, delete_batch, accounted, bytes_of,
  delete_page, process_page, page_of, run_stage, dooms,
}
use bakery.Gc.Sweep.Order.{past}
use bakery.Gc.Sweep.Complete.{is_due}
use bakery.Gc.Sweep.Clears.{run_stage_deletes_all}
use bakery.Gc.Sweep.Passes.{
  is_spared, is_rooted, run_stage_deletes_prey, run_stage-dry, rooted_objects_survive,
}

-- Keys of one byte, in the namespace of no bytes. A row was last read at time 0.
abbrev object : ℕ → Object
object k = record {
  namespace = [];
  key = k ∷ [];
  updated_at = 0;
  measured = record { size_bytes = 10; accessed_at = none; created_at = 0 };
}

abbrev first_byte : Bytes → ℕ
first_byte [] = 0
first_byte (b ∷ bs) = b

-- The unihash of a key is the key. Key 2 is in use, a read of key 3 is pending, key 5 is new.
abbrev engine : Bool → Engine
engine dry = record {
  before = λ n k n' k'. eq_bytes n [] && (eq_bytes n' [] && ltb (first_byte k) (first_byte k'));
  batch_size = 2;
  dry_run = dry;
  now = 100;
  barrier = λ o. if first_byte o.key == 5 then false else true;
  pending = λ o. first_byte o.key == 3;
  derive = λ k. some k;
  alive = λ u. first_byte u == 2;
}

abbrev state : State
state = record {
  rows = object 1 ∷ object 2 ∷ object 3 ∷ object 4 ∷ object 5 ∷ [];
  usage = new_usage 1;
  objects_deleted = 0;
  logical_bytes_freed = 0;
  faults = [];
}

abbrev backend : BackendPlan
backend = record {
  id = 7;
  kind = BackendKind.sstate;
  backend = BackendKind.sstate;
  org = [];
  project = [];
  enabled = true;
  window = 50;
  has_window = true;
  quota = 0;
  hashserv = 8;
  stages = [];
}

abbrev stage : Stage
stage = record { namespace = []; window = 50; reason = Reason.retention; kind_label = [] }

-- Keys 1 and 4 go.
passes :
    let e = engine false in
    (run_stage e 4 [] 0 (probes e backend) (dooms e backend stage) [] state).0.rows
    ≡ object 2 ∷ object 3 ∷ object 5 ∷ []
unfolding run_stage process_page delete_page delete_batch accounted bytes_of page_of scan same_key
    dooms unreachable probes new_usage liveness_of eq_bytes
passes = refl

run_stage_deletes_prey_example :
    let e = engine false in
    let doomed = dooms e backend stage in
    keep
      (is_spared e [] doomed state.rows)
      (run_stage e 4 [] 0 (probes e backend) doomed [] state).0.rows
    ≡ keep (is_spared e [] doomed state.rows) state.rows
run_stage_deletes_prey_example =
    let e = engine false in
    run_stage_deletes_prey e 4 [] 0 (probes e backend) (dooms e backend stage) [] state

-- A dry run counts them, and leaves them.
dry_run : (run_stage (engine true) 4 [] 0 (λ _. false) (λ _. true) [] state).0.rows ≡ state.rows
dry_run = run_stage-dry (engine true) 4 [] 0 (λ _. false) (λ _. true) [] state refl

rooted_objects_survive_example :
    let e = engine false in
    let doomed : Object → Bool = λ x. unreachable e backend x && true in
    keep (is_rooted e) (run_stage e 4 [] 0 (probes e backend) doomed [] state).0.rows
    ≡ keep (is_rooted e) state.rows
rooted_objects_survive_example =
    rooted_objects_survive (engine false) 4 [] 0 backend (λ o. true) [] state refl

run_stage_deletes_all_example :
    let e = engine false in
    let doomed = dooms e backend stage in
    any
      (λ o. past e [] [] o && is_due e doomed [] o)
      (run_stage e 6 [] 0 (probes e backend) doomed [] state).0.rows
    ≡ false
unfolding eq_bytes
run_stage_deletes_all_example =
    let e = engine false in
    run_stage_deletes_all e (dooms e backend stage) [] 6 0 (probes e backend) [] state
      (λ k. ground arith) (λ a b n c. ground arith) (λ a n b c. ground arith) refl refl
      (omega arith) refl (omega arith)
