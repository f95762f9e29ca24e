-- ===== src/Lib.antt =====
-- Verification of resourcey: filters, their SQL and Mongo queries, access control, paging, caching,
-- schedules and jobs.
--
-- resourcey serves resources over storage backends. Every backend implements one action contract
-- (`Service`), wrappers put rules in front of it, and filters and keyset cursors pass through all
-- of them. The parts modelled here, each with its files:
--
--   Value, Text              Python values and text operations that filters and schedules compare
--   Failure                  exceptions as values (resourcey/core/errors.py, core/service.py)
--   Filter, Filter/Build     src/resourcey/util/search_filter.py: `matches` is `matches`; `and_`,
--                            `or_`, `not_`, `attr`, `build_filter` keep their names; laws in
--                            Filter/Laws
--   Action, Service          src/resourcey/core/service.py: actions, pages, edits, the contract;
--                            Service/Contract states what wrappers rely on
--   Auth/Policy              src/resourcey/auth/auth_policy.py: policies and `to_search_filter`;
--                            Auth/Policy/Scope says without filters what a policy admits
--   Auth/Service             src/resourcey/auth/auth_authorized_service.py: `authorized_read` is
--                            `AuthorizedService.read`, and so on; the batch in Auth/Service/Batch,
--                            proofs in Permission, Reads, Writes and
--                            Batch/Gated
--   Auth/Rbac                src/resourcey/auth/auth_rbac_resolver.py: `resolve`, its cache and
--                            `invalidate`; the age of answers in Rbac/Freshness
--   Auth/Roles               src/resourcey/auth/auth_role.py: roles of a credential, their policies
--   Auth/OauthTokens         src/resourcey/auth/auth_oauth_token.py: the stored pair, `refresh` and
--                            its lease; who wins it in OauthTokens/Lease
--   Batch                    src/resourcey/http/batch_routes.py: `apply_batch` and its runs
--   Listing                  src/resourcey/list/list_service.py: order, seek and pages, over the
--                            cursors of src/resourcey/util/cursor.py; Listing/Paging follows them
--                            as `_enumerate` of src/resourcey/jobs/jobs_runner.py does
--   Listing/Compare          src/resourcey/util/sort_order.py: `compare`
--   Cursors                  src/resourcey/util/cursor.py: tagged values, `encode_cursor` and
--                            `decode_cursor`
--   Tasks/Calendar, Cron     src/resourcey/tasks/cron.py: parsing, matching and `next_fire`
--   Tasks/Scheduler          src/resourcey/tasks/scheduler.py and task.py: schedules by name,
--                            `tick` and a round of `_run_loop`; what a round comes to in
--                            Scheduler/Rounds
--   Encryption               src/resourcey/encryption/encryption_service.py: tokens of claims;
--                            Encryption/SignedUrl is src/resourcey/filestore/signed_url.py
--   Jobs, Jobs/Guard         src/resourcey/jobs/jobs_model.py over the conditional update of
--                            src/resourcey/sql/sql_service.py
--   Jobs/Runner              src/resourcey/jobs/jobs_runner.py: sweep, claim, finish, release; who
--                            may claim in Runner/Claims, a pass without rivals in
--                            Runner/Progress, every interleaving in Runner/Life
--   Sql/Like, Sql/Convert    src/resourcey/sql/filter_converter.py: expressions as a syntax tree,
--                            `condition` and the rules it dispatches to; Convert/Total and
--                            Convert/Sound say which filters convert and what they select
--   Sql/Keyset               src/resourcey/sql/cursor.py: `keyset_predicate`; what it keeps in
--                            Keyset/Seek
--   Sql/Service              src/resourcey/sql/sql_service.py and sort_converter.py: `search`,
--                            `count` and `batch_read`, compared with the list service in
--                            Service/Search and Service/Lookup
--   Mongo/Convert            src/resourcey/mongo/mongo_filter_converter.py: queries as a syntax
--                            tree, `condition` and the rules; what they find in Convert/Sound, and
--                            the escaping of substrings in Mongo/Regex
--   Mongo/Keyset             `_keyset_query` of src/resourcey/mongo/mongo_service.py
--   Mongo/Service            src/resourcey/mongo/mongo_service.py, mongo_sort_converter.py and the
--                            field names of mongo_resource.py: `search`, `count`, `batch_read` and
--                            `write_query`, compared with the list service in Service/Search and
--                            Service/Lookup; Service/Writes
--   View                     src/resourcey/view/view_service.py; which batches get past, in
--                            View/Exposed
--   Triggers                 src/resourcey/triggers/triggered_service.py, and which callbacks
--                            trigger_runner.py starts; what calls fire in Triggers/Fired
--   Cache                    src/resourcey/cache/cached_service.py and cache_store.py: the reads by
--                            `cached_read`, the writes by their names; keys in Cache/Keys, the
--                            copies in Cache/Coherence
--   Examples                 concrete inputs
--
-- How they interact: the authorized service reduces its policies to filters, folds them into the
-- condition of every action and hands that to the inner service, known only by its contract. The
-- job service folds its terminal guard into a condition in the same way, and the runner's claims
-- are conditional updates through it; their conditions are converted by Sql/Convert and read by the
-- database. A storage is a state that an action returns anew.
--
-- The SQL service turns a filter into a WHERE clause and a cursor into another, and what it returns
-- is compared with the list service, which evaluates both in memory; so is the Mongo
-- service with its queries. What both comparisons share stands in Listing/Found and Listing/Lookup.
--
-- Interfaces: what a database selects by an expression (`Database`), how it stores sort keys
-- (`Stored`) and runs a query (`Engine`), the same of a Mongo collection (`Collection`, `Driver`),
-- the texts of UUIDs (`Identifiers`), the cipher
-- of tokens (`Jwe`), the clock after a sleep (an argument of `run_round`),
-- Python's `str` (`Printing`), the digests of a cache key
-- (`Cached`, `IsFaithful`), the stored grants over time (`RbacStore`), the services and models
-- behind a batch (`Targets`), the case folding of texts (`Casing`), the storage under a wrapper
-- (`Service` and `Contract`), the comparisons of sort keys (`Ordered`), the attributes of a DTO
-- (`Schema`), the cursor codec (`Codec`, which must decode what it encoded, as Cursors shows), JSON
-- and encryption under it (`Platform`), the bodies of jobs and what other processes write between a
-- read and a write (arguments of `run_job` and of `claim`).
--
-- Bounds and fuel: `next_fire` searches 200,000 candidates, the bound of the source, and raises
-- past it as the source does; matches nearer than that are found. The claim loop takes four turns
-- for each unit of capacity, as the source does. The enumeration of pages takes fuel, and one round
-- more than there are items is enough. A batch takes a round for each run, and one for each edit is
-- enough. All else is structural.
--
-- Not modelled: floats, decimals and nested documents as values; non-ASCII digits in schedules; the
-- last year of `datetime`, seconds and daylight saving; sessions, the commit or rollback at their
-- end, and the event loop, beyond the sequence of reads and writes they give; the cache of reduced
-- policies, since reductions are pure; negative attempt and second counts; routes, generated DTO
-- classes, cache validators, filter rules of an application, OAuth but for its stored tokens, the
-- fields and custom actions of views, file stores, the callbacks of triggers and their
-- cancellation; Mongo's sort by a field that is named twice.
pub mod Action
pub mod Auth
pub mod Batch
pub mod Cache
pub mod Cursors
pub mod Encryption
pub mod Examples
pub mod Failure
pub mod Filter
pub mod Jobs
pub mod Listing
pub mod Mongo
pub mod Prelude
pub mod Service
pub mod Sql
pub mod Tasks
pub mod Text
pub mod Triggers
pub mod Value
pub mod View
