-- ===== src/Cache/Hashserv/Tests.antt =====
-- A server of internal/cache/hashserv at concrete requests.
use bakery.Base.{
  ℕ, suc, ◌≡◌, refl, true, false, none, some, List, [], ◌∷◌, ◌++◌, Bytes, String, codes, eq_bytes,
  if◌then◌else◌, length, map,
}
use bakery.Auth.Principal as Auth
use bakery.Auth.Principal.{KeyGrant, api_key, is_write}
use bakery.Cache.Hashserv.Exec.{invoke, failed, not_authenticated, ok, err, ◌>>=◌}
use bakery.Cache.Hashserv.Perms.{Perms, Principal, Route, no_perms, perm_read, has}
use bakery.Cache.Hashserv.Protocol.{
  Rpc, Codec, ReportRequest, raw, quoted_ok, invoke_error, rpc_name, decode_request,
}
use bakery.Cache.Hashserv.Tables
use bakery.Cache.Hashserv.Tables.{Tables, Details, find_unihash, get_outhash_with_unihash}
use bakery.Cache.Hashserv.World.{World, query}
use bakery.Cache.Hashserv.Store
use bakery.Cache.Hashserv.Store.{unihash_response, report}
use bakery.Cache.Hashserv.Store.Grows.{Grows}
use bakery.Cache.Hashserv.Store.Answers.{calm, answer_of, choice, report_lem}
use bakery.Cache.Hashserv.Store.Equivalence.{AreTwins, equivalent_tasks_share}
use bakery.Cache.Hashserv.Framing.{parse_get_stream_line}
use bakery.Cache.Hashserv.Framing.Streams.{answer_all, on_conn, conn_of}
use bakery.Cache.Hashserv.Session.{
  Env, handle, handle_get_stream, get_stream_line, dispatch_or_fail, serve_stream,
}
use bakery.Cache.Hashserv.Session.Roots.{handle_never_remaps}
use bakery.Cache.Hashserv.Session.Tenants.{other_tasks, other_outputs, connection_confined}
use bakery.Cache.Hashserv.Session.Denials.{denied_loudly}
use bakery.Cache.Hashserv.Session.Loop.{Ends, serve_all_lem}
use bakery.Cache.Hashserv.Session.Pipelines.{get_stream_answers}

abbrev no_details : Details
no_details = record { owner = []; pn = []; pv = []; pr = []; task = []; outhash_siginfo = [] }

abbrev twin : String → ReportRequest
twin taskhash = record {
  method = codes "m";
  taskhash = codes taskhash;
  outhash = codes "out";
  unihash = codes taskhash;
  details = no_details;
}

-- A codec that reads each payload as the report of the task aa, and `get` as the key of a message.
abbrev test_codec : Codec
test_codec = record {
  object = λ msg. some (λ name. if eq_bytes name (codes "get") then some [] else none);
  get_request = λ _. some (record { method = codes "m"; taskhash = codes "aa"; all = false });
  get_outhash_request = λ _. none;
  report_request = λ _. some (twin "aa");
  report_equiv_request =
      λ _. some (record { method = codes "m"; taskhash = codes "aa"; unihash = codes "bb" });
  auth_request = λ _. none;
  remove_request = λ _. none;
}

abbrev test_route : Route
test_route = record {
  org_id = 1;
  project_id = 20;
  org = codes "acme";
  project = codes "yocto";
  backend_id = 7;
  enabled = true;
  read_auth_required = true;
}

abbrev test_env : Env
test_env = record {
  codec = test_codec;
  up = none;
  backfill = none;
  authenticate_token = λ token n. err failed;
  route = test_route;
}

abbrev test_world : List Bytes → Perms → World
test_world inbox perms = record {
  conn = record { inbox = inbox; sent = []; room = 5 };
  tables = record { unihashes = []; outhashes = [] };
  faults = [];
  asked = 0;
  touched = [];
  queued = [];
  perms = perms;
}

abbrev may_report : Perms
may_report = record { read = true; report = true; db_admin = true }

handle_never_remaps_example :
    Grows 7
      (test_world [] may_report).tables
      (handle test_env Rpc.report [] (test_world [] may_report)).1.tables
handle_never_remaps_example =
    handle_never_remaps test_env Rpc.report [] (test_world [] may_report) (λ e. cc)
      (λ c m k u h. absurd (nothing c m k u h))
  where
    nothing : (c : ℕ) (m k u : Bytes) → find_unihash c m k [] ≡ some u → ⊥
    nothing c m k u h = unfold find_unihash in cc

connection_confined_example :
    (other_tasks 7 (serve_stream test_env (test_world (codes "hello" ∷ []) no_perms)).1.tables ≡ [])
    × (other_outputs 7 (serve_stream test_env (test_world (codes "hello" ∷ []) no_perms)).1.tables
        ≡ [])
connection_confined_example =
    connection_confined test_env (test_world (codes "hello" ∷ []) no_perms)

report_lem_example :
    (report 7 (twin "aa") none (calm (test_world [] may_report))).0
    ≡ ok (
      unihash_response
          (codes "m")
          (codes "aa")
          (answer_of 7 (twin "aa") none (test_world [] may_report)).0,
      (answer_of 7 (twin "aa") none (test_world [] may_report)).1,
    )
report_lem_example = report_lem 7 (twin "aa") none (test_world [] may_report)

twins : AreTwins 7 (twin "aa") (twin "bb") (test_world [] may_report).tables
twins = record {
  same_method = refl;
  same_outhash = refl;
  other_task = unfold eq_bytes in refl;
  first_new = refl;
  second_new = refl;
  first_free = unfold find_unihash in refl;
  second_free = unfold find_unihash in refl;
}

equivalent_tasks_share_example :
    let w = test_world [] may_report in
    let u = (choice 7 (twin "aa") none w).0 in
    ((report 7 (twin "aa") none (calm w)).0
      ≡ ok (unihash_response (codes "m") (codes "aa") u, (choice 7 (twin "aa") none w).1))
    × ((report 7 (twin "bb") none (calm (report 7 (twin "aa") none (calm w)).1)).0
        ≡ ok (unihash_response (codes "m") (codes "bb") u, true))
equivalent_tasks_share_example =
    equivalent_tasks_share 7 (twin "aa") (twin "bb") none none (test_world [] may_report) twins

-- The unihash of the first task is the one that the second one adopts.
second_adopts :
    let w = test_world [] may_report in
    (report 7 (twin "bb") none (calm (report 7 (twin "aa") none (calm w)).1)).0
    ≡ ok (unihash_response (codes "m") (codes "bb") (codes "aa"), true)
unfolding report eq_bytes ◌>>=◌ query Tables.insert_outhash Tables.get_equivalent
    Tables.first_joined Tables.has_output Tables.same_output find_unihash Tables.insert_unihash
    Tables.at_task
second_adopts = refl

serve_all_lem_example : Ends test_env (test_world (codes "hello" ∷ []) no_perms) 1
serve_all_lem_example = serve_all_lem test_env (test_world (codes "hello" ∷ []) no_perms)

denied_loudly_example :
    let w = test_world [] no_perms in
    dispatch_or_fail test_env (codes "x") w ≡ (
      err (invoke not_authenticated),
      record w {
        conn = record w.conn {
          sent = w.conn.sent ++ invoke_error not_authenticated ∷ [];
          room = 4;
        };
      },
    )
denied_loudly_example =
    denied_loudly test_env (codes "x") Rpc.get [] (test_world [] no_perms) 4
      (unfold decode_request eq_bytes rpc_name in refl) (λ e. cc) (λ e. cc) refl refl

abbrev line_aa : Bytes
line_aa = codes "m aa"

missed :
    answer_all (get_stream_line test_env) (line_aa ∷ []) (test_world [] perm_read)
    ≡ (ok ([] ∷ []), test_world [] perm_read)
unfolding get_stream_line ◌>>=◌ parse_get_stream_line Store.get_unihash find_unihash query
missed = refl

get_stream_answers_example :
    let w = test_world [] perm_read in
    (handle_get_stream test_env
        (on_conn (conn_of ((line_aa ∷ []) ++ codes "END" ∷ []) [] (suc (suc (suc 2)))) w)
      ≡ (
        ok tt,
        on_conn
            (conn_of [] (([] ++ quoted_ok ∷ []) ++ map raw ([] ∷ []) ++ raw (codes "ok") ∷ []) 2)
            w,
      ))
    × (length {A = Bytes} ([] ∷ []) ≡ length (line_aa ∷ []))
get_stream_answers_example =
    get_stream_answers test_env (line_aa ∷ []) (codes "END") [] ([] ∷ []) [] 2
      (test_world [] perm_read) (test_world [] perm_read) (unfold has in refl)
      (unfold eq_bytes in refl, tt) (unfold eq_bytes in refl) missed

abbrev reader : Principal
reader = record { can_read_project = λ o q. true; can_write_project = λ o q. false }

abbrev key_grant : KeyGrant
key_grant = record { key_id = 5; project_id = 20; scope = Auth.write }

abbrev key_holder : Auth.Principal
key_holder = record {
  user_id = 1;
  issuer = codes "https://idp";
  subject = codes "u1";
  email = codes "a@b.c";
  display_name = codes "A";
  method = api_key;
  site_role = Auth.user;
  orgs = [];
  projects = [];
  key = some key_grant;
  robot = none;
  max_scope = Auth.unset;
}
