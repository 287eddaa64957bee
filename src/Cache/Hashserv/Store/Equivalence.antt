-- ===== src/Cache/Hashserv/Store/Equivalence.antt =====
-- The point of internal/cache/hashserv/store.go: tasks with one output share one unihash.
use bakery.Base.{
  ℕ, ◌≡◌, refl, ap, ◌∙◌, Bool, true, false, Option, none, some, List, [], ◌∷◌, ◌++◌, Bytes,
  eq_bytes, eq_bytes_refl, eq_bytes_iff, any, arith, ◌||◌,
}
use bakery.Cache.Hashserv.Exec.{ok}
use bakery.Cache.Hashserv.Protocol.{ReportRequest}
use bakery.Cache.Hashserv.Tables.{
  Tables, UnihashRow, OuthashRow, find_unihash, insert_unihash, same_output, has_output,
  first_joined, get_outhash_with_unihash, at_task,
}
use bakery.Cache.Hashserv.Tables.Laws.{find_unihash-insert, at_task_self}
use bakery.Cache.Hashserv.World.{World}
use bakery.Cache.Hashserv.Store.{Upstream, unihash_response, report}
use bakery.Cache.Hashserv.Store.Answers.{
  calm, row_of, is_known, chosen, choice, first_sighting, or_row, first_joined-append, mapped,
  key_unihash, answer_of, report_lem, report_tables,
}

any-append :
    (test : OuthashRow → Bool) (os : List OuthashRow) (o : OuthashRow)
    → any test (os ++ o ∷ []) ≡ any test os || test o
any-append test [] o = ground arith
any-append test (a ∷ os) o = ground (arith, any-append test os o)

abbrev task_row : ℕ → ReportRequest → Bytes → UnihashRow
task_row b req u = record {
  backend_id = b;
  method = req.method;
  taskhash = req.taskhash;
  unihash = u;
}

find-mapped_other :
    (b c : ℕ) (m k : Bytes) (req : ReportRequest) (u : Bytes) (us : List UnihashRow)
    → at_task c m k (task_row b req u) ≡ false
    → find_unihash c m k (insert_unihash (task_row b req u) us).0 ≡ find_unihash c m k us
find-mapped_other b c m k req u us h =
    ground (arith, find_unihash-insert c m k (task_row b req u) us)

-- The older outputs are joined as before.
first_joined-mapped :
    (b : ℕ) (req : ReportRequest) (u : Bytes) (us : List UnihashRow) (os : List OuthashRow)
    → any (same_output (row_of b req)) os ≡ false
    → first_joined (has_output b req.method req.outhash) (insert_unihash (task_row b req u) us).0 os
      ≡ first_joined (has_output b req.method req.outhash) us os
unfolding first_joined same_output has_output at_task
first_joined-mapped b req u us [] h = refl
first_joined-mapped b req u us (o ∷ os) h = ground (
  arith,
  first_joined-mapped b req u us os,
  find-mapped_other b o.backend_id o.method o.taskhash req u us,
  eq_bytes_iff req.taskhash o.taskhash,
  eq_bytes_iff o.taskhash req.taskhash,
)

own_row_joined :
    (b : ℕ) (req : ReportRequest) (u : Bytes) (us : List UnihashRow)
    → find_unihash b req.method req.taskhash us ≡ none
    → first_joined
        (has_output b req.method req.outhash)
        (insert_unihash (task_row b req u) us).0
        (row_of b req ∷ [])
      ≡ some (row_of b req, u)
unfolding first_joined has_output
own_row_joined b req u us h = ground (
  arith,
  find_unihash-insert b req.method req.taskhash (task_row b req u) us,
  at_task_self (task_row b req u),
  eq_bytes_refl req.method,
  eq_bytes_refl req.outhash,
)

-- The oldest row with the output, once the report of a new task is in.
oldest-mapped :
    (b : ℕ) (req : ReportRequest) (u : Bytes) (t : Tables)
    → is_known b req t ≡ false
    → key_unihash b req t ≡ none
    → get_outhash_with_unihash b req.method req.outhash (mapped b req u t)
      ≡ or_row (get_outhash_with_unihash b req.method req.outhash t) (some (row_of b req, u))
unfolding get_outhash_with_unihash
oldest-mapped b req u t new free =
    first_joined-append (has_output b req.method req.outhash)
      (insert_unihash (task_row b req u) t.unihashes).0 t.outhashes (row_of b req)
    ∙ rw
        (
          first_joined-mapped b req u t.unihashes t.outhashes new,
          own_row_joined b req u t.unihashes free,
        )
        refl

-- Two new tasks that report one output, one after the other.
pub record AreTwins (b : ℕ) (r s : ReportRequest) (t : Tables) : Type 0 where
  pub same_method : s.method ≡ r.method
  pub same_outhash : s.outhash ≡ r.outhash
  pub other_task : eq_bytes r.taskhash s.taskhash ≡ false
  pub first_new : is_known b r t ≡ false
  pub second_new : is_known b s t ≡ false
  pub first_free : key_unihash b r t ≡ none
  pub second_free : key_unihash b s t ≡ none

second_new-mapped :
    (b : ℕ) (r s : ReportRequest) (u : Bytes) (t : Tables)
    → AreTwins b r s t
    → is_known b s (mapped b r u t) ≡ false
unfolding same_output
second_new-mapped b r s u t w =
    ground (arith, any-append (same_output (row_of b s)) t.outhashes (row_of b r))

second_free-mapped :
    (b : ℕ) (r s : ReportRequest) (u : Bytes) (t : Tables)
    → AreTwins b r s t
    → key_unihash b s (mapped b r u t) ≡ none
unfolding at_task
second_free-mapped b r s u t w =
    ground (arith, find_unihash-insert b s.method s.taskhash (task_row b r u) t.unihashes)

chosen_twice :
    (r : ReportRequest) (old : Option (OuthashRow × Bytes)) (o : OuthashRow)
    (first second : Bytes × Bool)
    → chosen (or_row old (some (o, (chosen old first).0))) second ≡ ((chosen old first).0, true)
chosen_twice r none o first second = refl
chosen_twice r (some (a, u)) o first second = refl

second_choice :
    (b : ℕ) (r s : ReportRequest) (up up' : Option Upstream) (w v : World)
    → AreTwins b r s w.tables
    → v.tables ≡ mapped b r (choice b r up w).0 w.tables
    → choice b s up' v ≡ ((choice b r up w).0, true)
second_choice b r s up up' w v twins e =
    let t = mapped b r (choice b r up w).0 w.tables in
    ap (λ (o : Option (OuthashRow × Bytes)). chosen o (first_sighting s up' v.asked))
      (ap (get_outhash_with_unihash b s.method s.outhash) e
        ∙ ap (λ (m : Bytes). get_outhash_with_unihash b m s.outhash t) twins.same_method
        ∙ ap (λ (o : Bytes). get_outhash_with_unihash b r.method o t) twins.same_outhash
        ∙ oldest-mapped b r (choice b r up w).0 w.tables twins.first_new twins.first_free)
    ∙ chosen_twice r (get_outhash_with_unihash b r.method r.outhash w.tables) (row_of b r)
        (first_sighting r up w.asked) (first_sighting s up' v.asked)

second_answer :
    (b : ℕ) (r s : ReportRequest) (up up' : Option Upstream) (w v : World)
    → AreTwins b r s w.tables
    → v.tables ≡ mapped b r (choice b r up w).0 w.tables
    → answer_of b s up' v ≡ ((choice b r up w).0, true)
second_answer b r s up up' w v twins e =
    let u = (choice b r up w).0 in
    let new : is_known b s v.tables ≡ false =
      ap (is_known b s) e ∙ second_new-mapped b r s u w.tables twins in
    let free : key_unihash b s v.tables ≡ none =
      ap (key_unihash b s) e ∙ second_free-mapped b r s u w.tables twins in
    rw (new, free) (second_choice b r s up up' w v twins e)

-- Where two tasks without a unihash report one output that neither has reported, one report right
-- after the other and on a database that answers, the second is told that its unihash is adopted,
-- and it is the one that the first was told.
pub equivalent_tasks_share :
    (b : ℕ) (r s : ReportRequest) (up up' : Option Upstream) (w : World)
    → AreTwins b r s w.tables
    → let u = (choice b r up w).0 in
      let w' = (report b r up (calm w)).1 in
      ((report b r up (calm w)).0
        ≡ ok (unihash_response r.method r.taskhash u, (choice b r up w).1))
      × ((report b s up' (calm w')).0 ≡ ok (unihash_response s.method s.taskhash u, true))
equivalent_tasks_share b r s up up' w twins = (
  report_lem b r up w ∙ rw (twins.first_new, twins.first_free) refl,
  report_lem b s up' (report b r up (calm w)).1
      ∙ ap (λ (a : Bytes × Bool). ok (unihash_response s.method s.taskhash a.0, a.1))
          (second_answer b r s up up' w (report b r up (calm w)).1 twins
            (report_tables b r up w ∙ rw (twins.first_new) refl)),
)
