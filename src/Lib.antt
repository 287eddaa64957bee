-- ===== src/Lib.antt =====
-- bakery: a build cache server (sstate mirror, download mirror, Bazel remote cache, OCI proxy and
-- registry, hash equivalence) for many organizations. This library models the parts of its Go
-- code that decide: who may do what, which names and keys are legal, what the in-memory object
-- cache holds, and what the garbage collector deletes.
--
-- The parts, and the code that each models:
-- - Base: Boolean tests, lists, and Go strings as lists of bytes.
-- - Slug (internal/slug/slug.go): org and project slugs and the reserved words. The group mapping
--   accepts slugs by it, and the resource names rely on the reserved words.
-- - Config.GroupMap (internal/config/groupmap.go): the group mapping file, its validation, and
--   the roles that a login's groups resolve to. The decoding of JSON is not modelled. A Go map is
--   a list in the order in which a loop yields it, so a theorem for every list covers every order.
-- - Auth.Principal (internal/auth/principal.go): the capabilities of a verified principal, for
--   sessions, API keys, robots and personal access tokens.
-- - Auth.Reconcile (internal/auth/reconcile.go, with the statements of
--   internal/db/query/identity.sql): what a login writes to the memberships of its user. The ids
--   of the orgs are an argument; the users row and the failures of statements are not modelled.
-- - Auth.Tokens (internal/auth: tokens.go, apikey.go, usertoken.go, orgtoken.go, and CreateAPIKey of
--   service.go): the three kinds of tokens, their validators over the tables, and their minting.
--   SHA-256, the random bodies and the load of a user's roles are arguments.
-- - Auth.Callers (internal/auth: Authenticate, AuthenticateCache, authenticateBearer and staleLogin of
--   service.go, bearerToken of oidc.go, Reconcile and loadPrincipal of reconcile.go): from the
--   credentials of a request to its principal, with the users that a bearer token writes. The
--   verification of an ID token and the reads of a user's roles are arguments.
-- - Auth.PrincipalCache (internal/auth/principalcache.go): one shard of the cache of roles by user and
--   epoch. Loads come one after another, and a Go map is a list in any order.
-- - Api.Authz (internal/api/authz.go, and the table of routes of internal/api/api.go): the guard of
--   the management API, from the outcome of authentication to the call of the handler. The store,
--   the parser of media types and the handlers are arguments; the mux is not modelled.
-- - Blob.Lru (internal/blob/lru.go): one shard of the object cache. Each method that takes the
--   shard's mutex is a function on the shard, so a sequence of calls is any interleaving. The
--   clock is an argument, the generation wraps at 2^64. The choice of the shard, the metrics and
--   the flush to the database are not modelled.
-- - Blob.Service (internal/blob/blob.go: statDB, queryObject, putObject, cache, Delete): probes,
--   commits and publications as events over the shard and the committed rows, in any order. The
--   database is the function from a cache key to its row.
-- - Gc.Plan and Gc.Quota (internal/gc/plan.go, internal/gc/quota.go, and durationOf, backendOf and
--   the constants of internal/gc/gc.go): the retention windows and the stages of each backend, the
--   measuring pass and the eviction plan. In Gc.Plan an int64 is its bit pattern and wraps. In
--   Gc.Quota sizes and times are numbers without an upper bound, and the product of the quota
--   with 0.9, a floating-point one, is an argument that is at most the quota.
-- - Gc.Sweep (runStage, processPage, scan, deciderFor and sstateUnreachable of internal/gc/sweep.go,
--   the effect of DeleteBatch of internal/blob/deletebatch.go, and ScanObjectsForGC and
--   DeleteObjectsByKeys of internal/db/query/gc.sql): the pass of a stage over the rows of a
--   backend, with the usage that Gc.Quota measures. The order of the keys, the pending reads, the
--   write barrier and the unihashes in use are arguments that do not change during the pass; any
--   statement may fail. The order of the stages and the coverage guard are not modelled.
-- - Gc.Sstate (internal/gc/sstate.go): the unihash that the name of an sstate object carries. The fuel
--   of the loop over the sidecar suffixes is the length of the name, each round taking a suffix off.
-- - Gc.Engine (mayRun, and the flag of Run and TriggerAsync, internal/gc/sweep.go): which calls may
--   sweep. A run is a sequence of steps of any number of calls.
-- - Cache.Resource (internal/cache/bazel/resource.go): ByteStream resource names.
-- - Cache.ByteStream (Read, discard and pump of internal/cache/bazel/bytestream.go, and
--   internal/cache/bazel/empty.go): the download of a blob, with a reader and a sender that may fail.
--   The fuel of pump is the number of planned reads and bytes, of which each round takes one. The
--   authorization and the object store are arguments. Upload is writeReader of the same file, the
--   frames of an upload as one reader.
-- - Cache.Routes (internal/cache/oci/routes.go): registry paths, tag listings and digests.
-- - Cache.Policy (internal/cache/httpblob/policy.go): the keys that the HTTP mounts accept.
-- - Cache.Hashserv (internal/cache/hashserv: perms.go, protocol.go, framing.go, store.go, handlers.go,
--   conn.go, backend.go, the Backfiller of upstream.go, internal/db/query/hashserv.sql, and
--   LooksLikeBakeryToken of internal/auth/tokens.go): the hash equivalence server. Exec is the Go
--   functions with a state and an error; World the state of a connection: its messages, the two
--   tables, the queues, the permissions, and which writes and statements fail. Tables is the SQL,
--   Store the store over it, Framing the handshake and the streams, Session the commands and the
--   loop. The decoding of JSON, the upstream and the authenticator are arguments, and the latter
--   two may answer differently at each call. A request is not interleaved with those of other
--   connections, and a backfill worker runs while backfill-wait waits for it.
-- - Cache.Hashserv.Toucher (internal/cache/hashserv/toucher.go): the pending reads of unihashes. Each
--   section under the mutex is a step of a read or of one of any number of flushes, and a run is a
--   sequence of steps; which statements fail is part of a step. Times are numbers.
--
-- Loops are structural recursions over the list that they walk. The loops of Cache.Hashserv that read
-- messages take the length of the inbox as fuel: every round takes a message off it, and Session.Loop
-- relates the loop of a connection to that of the source, which has no bound. Functions of
-- the Go library that these parts call (strings.Split, LastIndex, CutSuffix, container/list,
-- strconv.ParseInt in base ten) are written out as far as they are used.
--
-- Not modelled: the database and its queries, the file store, HTTP, gRPC and TLS, OIDC, the
-- command line, metrics, the web console, and the services that tie the parts together.
pub mod Base
pub mod Api
pub mod Slug
pub mod Config
pub mod Blob
pub mod Auth
pub mod Gc
pub mod Cache
