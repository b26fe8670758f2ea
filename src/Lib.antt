-- ===== src/Lib.antt =====
-- A model of the connector that keeps Salesforce and HubSpot in step, with the theorems that
-- make its core correct.
--
-- The parts and how they meet. Webhooks and polls give change events; the queue keeps one job per
-- event, and the engine claims due jobs, reconciles each and settles it as completed, as retried
-- with a growing delay, or as parked for a person. Two versions of one record are merged by the
-- conflict strategy. The reconciler finds or makes the link of a record in the identity map, drops
-- what is an echo of the program's own writes, writes the winner to the other system and records
-- what it wrote. The mapping translates between native and canonical fields. A migration plan goes
-- from draft through preview to execution, guarded by its revision. A migration reads all records
-- of a type page by page and previews or reconciles each. The poller asks both systems for what
-- changed since a cursor, the change stream of Salesforce and the webhooks of HubSpot tell of
-- changes as they happen, and all three hand events to the queue. Preflight compares the mapping
-- with the schemas of the two systems first. The connectors stand behind one interface, which the
-- mock implements in memory; requests to the vendors are spaced and retried by one policy, and
-- requests to the program pass the access checks.
--
-- Files and code. Paths are from the root of the repository, and a definition bears the name of
-- the function it models.
--   Prelude, with its children: lists, JavaScript's `Map` and objects as association lists in
--     insertion order (Dict), the stable array sort (Sort), dates (Time), tests (Tests).
--   Types, and Schema for the descriptions of objects: src/core/types.ts.
--   Conflict: src/core/conflict.ts. A number among the field values is kept as its text.
--   Queue: src/engine/syncEventStore.ts, the in-memory store. `Store` holds the two maps; every
--     operation is a function from store to store, and `perform` is one step of any of them.
--   Host: the runtime's functions on texts, URLs and dates that the next two files take.
--   Mapping, with Mapping/Transform: src/core/mapping.ts. `Tables` holds the two tables that the
--     module keeps.
--   IdMap: src/core/idMap.ts, the hash, the natural keys and the file store (`Store` holds its
--     three maps; the file itself is left out).
--   Plan: the plan types of src/engine/reconciler.ts.
--   Failure: src/core/vendorError.ts.
--   Exec: what an `async` method is: a function from the state to a result or a thrown failure
--     and the next state.
--   Activity: src/observability/activity.ts.
--   Reconciler, with Reconciler/Base, Steps and Preview: src/engine/reconciler.ts over
--     `Connectors`, the calls of the two systems. `reconcile` is cut into the steps that its
--     comments number.
--   PlanStore: src/engine/migrationPlanStore.ts, the in-memory store.
--   Associations: src/engine/associationEngine.ts.
--   Digest: src/engine/syncAlertDigester.ts. The senders of src/notifications/emailSender.ts are a
--     parameter.
--   MigrateArgs: src/cli/migrateArgs.ts.
--   Engine, with Operations: src/engine/syncEngine.ts over `Services`, the calls of the other parts.
--     `Operations` has what webhooks, the poller and operators call.
--   Wired: the sync engine of src/app.ts, over the reconciler and the association engine.
--   SyncConfig: src/core/syncConfig.ts. Registry: src/core/objectRegistry.ts. DefaultObjects:
--     src/core/defaultObjects.ts. TypeResolver: src/engine/typeResolver.ts, over a record of the
--     calls that read a record's fields.
--   MigrationStore: src/engine/migrationStore.ts, the store in memory. Migration, with Runs and
--     Frozen: src/engine/migrationEngine.ts over `Services`, where the store of runs is one of the
--     services; `Runs` has `run`, `Frozen` has `executePreview`.
--   Poller, with One, Object and Schedule: src/engine/syncPoller.ts. `One` has `pollOne`, `Object`
--     the loop over the two systems and the history, `Schedule` the ticks. `State` holds the maps
--     of the class beside the state of the other parts.
--   Preflight, with Run: src/engine/preflight.ts.
--   Mock: src/connectors/mock/mockConnector.ts. Its state is the store of native records, the
--     deletions, the associations and the events emitted.
--   HubSpot, with Records and Webhook: src/connectors/hubspot/hubspotConnector.ts. `Records` reads
--     and writes over the vendor's HTTP calls, `Schemas` describes objects, `Webhook` has
--     `parseWebhook`.
--   Cdc: src/connectors/salesforce/cdcWorker.ts.
--   HttpPolicy: src/core/httpPolicy.ts and src/core/rateLimiter.ts, with the interceptors of status
--     401 in `init` of src/connectors/salesforce/salesforceConnector.ts and of HubSpot's connector.
--   Access: src/security/access.ts and src/security/originPolicy.ts.
--
-- Choices of the model. One operation reads the clock once, and the time is its argument. The
-- jobs that a round of the pump claims are processed one after the other. A store gives out
-- copies, where the file store of the identity map gives out the stored object. The pump's loop
-- runs on fuel, of which the attempts that the due jobs have left and one more is enough. The
-- loops over pages (of a migration, of a poll, of HubSpot's lists) run on a number of pages,
-- since it is the vendor that ends them; a loop that needs more has no result in the model. A
-- request runs on one sending more than the retries and the answers of status 401, which the code
-- does not limit. Of the limiter the instants that it gives out are modelled, without the timer
-- that waits for them, and a header retry-after is read in whole milliseconds. The search for a
-- free slug runs on one name more than there are objects, and the reading of the mock's pages on
-- the full pages and one more. The loop over the Salesforce stream, which the program does not
-- end, is a number of rounds. A date's text runs to the year 9999, and a number's text to 30
-- digits. Text is a list of code points, where JavaScript's strings are of UTF-16 units; the two
-- agree on the characters below U+10000.
--
-- What is a parameter. The functions of the crypto library (SHA-256 and random ids, where a
-- theorem needs it with the hypothesis that they are injective), the regular expressions that
-- read a vendor's message or normalise a key, the vendor's responses, and the parsing of URLs,
-- numbers and dates.
--
-- Not modelled: the Salesforce connector, whose rules are the translation to its query language,
-- and the start of the two connectors but for their interceptors of status 401; the HTTP server
-- and its routes, the Postgres stores, the settings, connections and mappings kept in files, the
-- schema snapshots, the dashboard, the copilot, the sign-in at the vendors and the environment's
-- configuration, which are mostly I/O or text for another program. Logger calls, timers and event
-- listeners are left out of the parts that are modelled.
pub mod Prelude
pub mod Types
pub mod Schema
pub mod Conflict
pub mod Queue
pub mod Plan
pub mod Failure
pub mod Exec
pub mod Activity
pub mod Engine
pub mod Wired
pub mod Host
pub mod PlanStore
pub mod Mapping
pub mod IdMap
pub mod Reconciler
pub mod Digest
pub mod MigrateArgs
pub mod Associations
pub mod SyncConfig
pub mod Registry
pub mod TypeResolver
pub mod MigrationStore
pub mod Migration
pub mod Poller
pub mod Preflight
pub mod Mock
pub mod HubSpot
pub mod HttpPolicy
pub mod Access
pub mod Cdc
pub mod DefaultObjects
