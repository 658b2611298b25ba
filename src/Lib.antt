-- ===== src/Lib.antt =====
-- A model of the mail platform: of how mail is synchronised from a provider into PostgreSQL, how
-- the changes are announced in a transactional outbox, how workers project them into
-- Elasticsearch, and how sessions and their refresh tokens are handled.
--
-- The parts and how they interact. SyncOrchestrator (apps/api/app/services/sync_orchestrator.py)
-- writes the messages, memberships and participants of a page and adds an outbox event for each
-- new version of a message. OutboxWorker (apps/workers/src/mip_workers/outbox_worker.py) leases an
-- event, puts the document of the message into the index of the tenant, enqueues the embedding
-- job and marks the event as done. Both work through the repositories (apps/api/app/repositories).
-- The worker (apps/workers/src/mip_workers/worker.py) schedules both kinds of work, the adapter of
-- the Microsoft Graph API (packages/providers/src/mip_providers/mail/graph.py) fetches the pages, and
-- ProviderAuthService (apps/api/app/services/identity_provider.py) refreshes the tokens for it.
-- SessionService (apps/api/app/auth/sessions.py), the endpoints (apps/api/app/api/auth/router.py)
-- and the middleware (apps/api/app/auth/middleware.py) with its policy are a part of their own.
-- SearchService (apps/api/app/search/service.py) queries the documents that the outbox worker has
-- written; NaturalLanguageSearchService translates a plan of the language model into its requests.
--
-- The files.
--   Common, Common/Tests, Common/Lists: shared names, Boolean tests, options, lists.
--   Sql, Sql/Keyed, Sql/Counts: SELECT, UPDATE and DELETE over a table as a list of rows, their laws
--     for a table with a primary key, and row counts.
--   Transaction: a session with what it sees, what is committed, and whether a transaction is open.
--   Text, Text/Laws: texts as code points, strip and lower, the normal form of an address (ASCII).
--   Mail: the rows of packages/models/src/mip_models/mail.py; canonical_sender_email.
--   Outbox: OutboxEventRepository (apps/api/app/repositories/mail.py). Row: its statements on one
--     row; History: sequences of its calls by all workers; Lifecycle and Lease: their theorems.
--   Worker/Elastic: index_message and ensure_index (es_adapter.py, es_provisioning.py).
--   Worker/Process: process_outbox_event and process_outbox_event_job, over a session with what it
--     sees, what is committed, and whether a transaction is open. Steps, Path and Outcome: lemmas;
--     Verdict: what an answer prescribes;
--     Transactions, Job, Fencing and Refinement: the theorems.
--   Sync/Provider, Sync/Participants, Sync/Process: the page mutations of SyncOrchestrator.
--     Invariant and Coverage: the covering of versions by events; Repeat and Again: what a step
--     finds when it is repeated; Handlers, Stale and Idempotence: the theorems.
--     Lease: MailSyncStateRepository (apps/api/app/repositories/mail.py); Takeover: its theorem.
--   Folder: the data of sync_folder and the errors of packages/providers/src/mip_providers/errors.py.
--     Page: the transaction of a page (step 3c); Loop: sync_folder, its loop and except clauses.
--     Moves and Passes: the committed tables under the loop; Commits and Atomic: the page on covered
--     tables; Results and Truthful: the result; Refinement, Covered, Released and Outcome: the
--     theorems on sync_folder.
--   Credential: MailAccount, ProviderCredential and the refresh lease of MailAccountRepository.
--     Refresh: refresh_mail_account_credentials; Fencing, Released and Stored: the theorems.
--   Access: the tables of the middleware. Middleware: dispatch; Policy: PolicyEngine and
--     apps/api/app/auth/dependencies.py; Admission: lemmas; Shutout and Unchanged: the theorems.
--   Login: the tables of a login and OAuthStateRepository.consume_state. Start: initiate_login
--     (apps/api/app/services/identity_provider.py); Callback: handle_callback and its endpoint
--     (apps/api/app/api/auth/entra_router.py); History: requests one after another; States,
--     Kept and Spent: lemmas; Once: the theorem.
--   Backfill: EmbeddingBackfillWorker (apps/workers/src/mip_workers/backfill.py). Ordered, Next and
--     Settled: lemmas on batches and counters; Run: the theorem.
--   Graph: the adapter, from the HTTP response on. Folders: get_folders; Statuses and Links: the
--     theorems on statuses and pages.
--   Schedule: the queue as an interface. Polling: discover_outbox_events and outbox_polling_cron;
--     Discovery: mail_sync_discovery_cron, _is_sync_due and _discover_folders; Job:
--     sync_mailbox_job; Ticks and Due: the theorems.
--   Auth: the rows of packages/models/src/mip_models/auth.py and apps/api/app/repositories/auth.py.
--     Sessions: SessionService; Router: the endpoints with the transaction of get_db; Replay,
--     Rotation and Revocation: the theorems.
--   Gateway: execute_structured_request (packages/ai/src/mip_ai/gateway/core.py). Synthesis:
--     synthesize (packages/ai/src/mip_ai/synthesis/gateway.py); Citations: lemmas; Grounded: the
--     theorem.
--   Search: the requests, and ElasticsearchSearchAdapter. Clauses: what the filters ask, for the
--     hypothesis on Elasticsearch; Service: search_mail (apps/api/app/search/service.py); Allowed:
--     lemmas; Isolated: the theorem. Plan: MailQueryPlan and understand_query; Dates:
--     translate_date_range_intent; Ranges: its theorem; NaturalLanguage and Dispatch:
--     search_natural_language (apps/api/app/search/nl_service.py); Scoped: the theorem.
--   Examples: concrete runs.
--
-- How the state corresponds. A table is the list of its rows, a row a record of its columns;
-- identifiers, instants, hashes, and texts that are only stored and compared are natural numbers;
-- a null is `none`. `uuid4()` counts upwards from a number that no row has. An exception of the
-- page mutations is `none`, since the page is rolled back then; the exceptions of the sessions are
-- values of `Outcome`, with the tables of the open transaction. SQL statements are atomic; the
-- calls that other workers commit while a worker waits for the network are lists of calls that the
-- theorems quantify over, and what other transactions commit between the two statements of a
-- message insert is a function on the tables.
--
-- While a page is in its transaction, no other transaction is taken to commit to the mail tables;
-- what others commit during a call of the provider is a function on the tables, for every pass.
--
-- Bounds and fuel. The loop of sync_folder is recursion on the passes that are left of
-- max_pages_per_sync, which is 1000 as in the source. `while url` of get_folders has fuel, the
-- number of requests; as many as there are pages are enough. The backfill has fuel, the number of
-- passes; one more than the messages that are ahead are enough. All other loops run over lists.
-- Instants and counters are unbounded, as they are in Python; the delays of the
-- backoff are whole units.
--
-- Parameters. What Elasticsearch, Redis, the mail provider and the clock answer, SHA-256,
-- encryption, the verification of access tokens, the parsing of UUIDs, the test of public routes,
-- the random tokens and whether a tenant is active at a login are arguments. ARQ is an interface
-- with the documented behaviour of a job id. So are what validate_callback answers, and what
-- `identity.user.tenant_id` gives in a login: the class `User` maps no such attribute.
--
-- The language models, LiteLLM, the schemas of Pydantic, the embedding provider, ILIKE, the zones of
-- zoneinfo and the calendar of datetime, with its last day, are arguments too. So are the texts for
-- which the encryption raises, and whether the release after a failed synchronisation raises.
--
-- Not modelled: the embedding job and the providers of embeddings, the identity providers, the
-- lifecycle of mail accounts, the search endpoints, the email parser, the migrations, configuration,
-- logging and metrics.
pub mod Common
pub mod Sql
pub mod Text
pub mod Mail
pub mod Outbox
pub mod Worker
pub mod Transaction
pub mod Sync
pub mod Folder
pub mod Credential
pub mod Access
pub mod Login
pub mod Backfill
pub mod Graph
pub mod Schedule
pub mod Auth
pub mod Gateway
pub mod Search
mod Examples
