-- ===== src/Cache/Hashserv/Session/Tenants.antt =====
-- The rows of the other backends, over a whole connection of internal/cache/hashserv.
use bakery.Base.{
  ℕ, ◌≡◌, refl, ◌∙◌, Bool, true, false, not, ◌&&◌, ◌==◌, Option, none, some, List, [], ◌∷◌, ◌++◌,
  Bytes, keep, keep-keep, length, arith,
}
use bakery.Cache.Hashserv.Exec.Keeps.{Keeps, keeps_rules}
use bakery.Cache.Hashserv.Perms.{Perms}
use bakery.Cache.Hashserv.Protocol.{ReportRequest}
use bakery.Cache.Hashserv.Tables.{
  Tables, UnihashRow, OuthashRow, Details, insert_unihash, insert_outhash, delete_rows,
}
use bakery.Cache.Hashserv.World.{World}
use bakery.Cache.Hashserv.World.Keeps.{On, query-Keeps, ask-Keeps}
use bakery.Cache.Hashserv.Store
use bakery.Cache.Hashserv.Store.{Upstream}
use bakery.Cache.Hashserv.Session.{Env, serve_stream}
use bakery.Cache.Hashserv.Session.Steps.{Steps, read-Keeps}
use bakery.Cache.Hashserv.Session.Serves.{Removes, serve_stream-Keeps}

-- The rows of all backends but one.
abbrev pub other_tasks : ℕ → Tables → List UnihashRow
other_tasks b t = keep (λ r. not (r.backend_id == b)) t.unihashes

abbrev pub other_outputs : ℕ → Tables → List OuthashRow
other_outputs b t = keep (λ o. not (o.backend_id == b)) t.outhashes

-- They are as they were in `t₀`.
pub record OthersStand (b : ℕ) (t₀ t : Tables) (p : Perms) : Type 0 where
  pub same_tasks : other_tasks b t ≡ other_tasks b t₀
  pub same_outputs : other_outputs b t ≡ other_outputs b t₀

module _ {ℓ} {A : Type ℓ} where
  keep-append_out :
      (p : A → Bool) (x : A) (xs : List A) → p x ≡ false → keep p (xs ++ x ∷ []) ≡ keep p xs
  keep-append_out p x [] h = ground arith
  keep-append_out p x (y ∷ xs) h = ground (arith, keep-append_out p x xs h)

self : (b : ℕ) → not (b == b) ≡ false
self b = ground arith

away : (b c : ℕ) (x : Bool) → not (c == b) ≡ true → not (c == b && x) ≡ true
away b c x h = ground arith

module _ (b : ℕ) {t₀ : Tables} {left : ℕ} where
  insert_unihash-OthersStand :
      (m k u : Bytes) → Keeps (On (OthersStand b t₀) left) (Store.insert_unihash b m k u)
  unfolding Store.insert_unihash insert_unihash
  insert_unihash-OthersStand m k u = query-Keeps _ λ t p h. record {
    same_tasks = ground (
      arith,
      h.same_tasks,
      keep-append_out (λ (r : UnihashRow). not (r.backend_id == b))
          (record { backend_id = b; method = m; taskhash = k; unihash = u }) t.unihashes (self b),
    );
    same_outputs = h.same_outputs;
  }

  insert_outhash-OthersStand :
      (m k o : Bytes) (d : Details)
      → Keeps (On (OthersStand b t₀) left) (Store.insert_outhash b m k o d)
  unfolding Store.insert_outhash insert_outhash
  insert_outhash-OthersStand m k o d = query-Keeps _ λ t p h. record {
    same_tasks = h.same_tasks;
    same_outputs = ground (
      arith,
      h.same_outputs,
      keep-append_out (λ (r : OuthashRow). not (r.backend_id == b))
          (record { backend_id = b; method = m; taskhash = k; outhash = o; details = d })
          t.outhashes (self b),
    );
  }

  delete-OthersStand :
      (p : UnihashRow → Bool) (q : OuthashRow → Bool)
      → ((r : UnihashRow) → not (r.backend_id == b) ≡ true → not (p r) ≡ true)
      → ((o : OuthashRow) → not (o.backend_id == b) ≡ true → not (q o) ≡ true)
      → Keeps (On (OthersStand b t₀) left) (Store.delete b p q)
  unfolding delete_rows
  delete-OthersStand p q hp hq = query-Keeps _ λ t _ h. record {
    same_tasks =
        keep-keep (λ r. not (p r)) (λ r. not (r.backend_id == b)) t.unihashes hp ∙ h.same_tasks;
    same_outputs =
        keep-keep (λ o. not (q o)) (λ o. not (o.backend_id == b)) t.outhashes hq ∙ h.same_outputs;
  }

  delete_tasks-OthersStand :
      (p : UnihashRow → Bool)
      → Keeps
          (On (OthersStand b t₀) left)
          (Store.delete b (λ r. r.backend_id == b && p r) Store.no_row)
  delete_tasks-OthersStand p =
      delete-OthersStand _ _ (λ r h. away b r.backend_id (p r) h) (λ o h. refl)

  delete_outputs-OthersStand :
      (q : OuthashRow → Bool)
      → Keeps
          (On (OthersStand b t₀) left)
          (Store.delete b Store.no_row (λ o. o.backend_id == b && q o))
  delete_outputs-OthersStand q =
      delete-OthersStand _ _ (λ r h. refl) (λ o h. away b o.backend_id (q o) h)

  ruleset deletion_rules = (keeps_rules, delete_tasks-OthersStand, delete_outputs-OthersStand)

  delete_both-OthersStand :
      (p : UnihashRow → Bool) (q : OuthashRow → Bool)
      → Keeps (On (OthersStand b t₀) left) (Store.delete_both b p q)
  unfolding Store.delete_both
  delete_both-OthersStand p q = search deletion_rules

  remove_by-OthersStand :
      (col val : Bytes) → Keeps (On (OthersStand b t₀) left) (Store.remove_by b col val)
  unfolding Store.remove_by
  remove_by-OthersStand col val = search (deletion_rules, delete_both-OthersStand) depth 9

  pub remove-OthersStand : Removes b left (OthersStand b t₀)
  unfolding Store.remove
  remove-OthersStand [] = search keeps_rules
  remove-OthersStand ((col, val) ∷ []) = remove_by-OthersStand col val
  remove-OthersStand (_ ∷ _ ∷ _) = search keeps_rules

  adopt-OthersStand :
      (req : ReportRequest) (up : Option Upstream) (row : Option (OuthashRow × Bytes))
      → Keeps (On (OthersStand b t₀) left) (Store.adopt b req up row)
  unfolding Store.adopt
  adopt-OthersStand req up (some r) = search keeps_rules
  adopt-OthersStand req none none = search keeps_rules
  adopt-OthersStand req (some up) none = search (keeps_rules, ask-Keeps)

  report-OthersStand :
      (req : ReportRequest) (up : Option Upstream)
      → Keeps (On (OthersStand b t₀) left) (Store.report b req up)
  unfolding Store.report Store.map_task Store.resolve_unihash
  report-OthersStand req up =
      search
        (
          keeps_rules, read-Keeps, insert_unihash-OthersStand, insert_outhash-OthersStand,
          adopt-OthersStand,
        )
        depth 9

pub others_steps : (b : ℕ) (t₀ : Tables) (left : ℕ) → Steps b left (OthersStand b t₀)
others_steps b t₀ left = record {
  insert_unihash = λ m k u v. insert_unihash-OthersStand b m k u;
  insert_outhash = insert_outhash-OthersStand b;
  report = λ req up v. report-OthersStand b req up;
  freely = λ t p q h. record { same_tasks = h.same_tasks; same_outputs = h.same_outputs };
}

-- Whatever a client sends and however its connection ends, the rows of the other backends in both
-- tables, with their order, are the same after it: no report, removal, write-through or backfill
-- of one project reaches another's.
pub connection_confined :
    (env : Env) (w : World)
    → let w' = (serve_stream env w).1 in
      let b = env.route.backend_id in
      (other_tasks b w'.tables ≡ other_tasks b w.tables)
      × (other_outputs b w'.tables ≡ other_outputs b w.tables)
connection_confined env w =
    let k : Keeps (On (OthersStand env.route.backend_id w.tables) (length w.conn.inbox))
        (serve_stream env) =
      serve_stream-Keeps env (others_steps env.route.backend_id w.tables (length w.conn.inbox))
        (remove-OthersStand env.route.backend_id) in
    let s =
      (k.after w (record {
        holds = record { same_tasks = refl; same_outputs = refl };
        short = omega arith;
      })).holds in
    (s.same_tasks, s.same_outputs)
