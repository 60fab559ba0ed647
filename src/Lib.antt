-- ===== src/Lib.antt =====
-- The client dashboard: the planning budgets that agencies keep for their clients, the commands that
-- change budgets at the advertising provider, and the synchronisation of the advertising accounts.
--
-- Parts of the program and the files that model them:
--
-- - Budget: the store of the planning budgets, `SqliteBudgetStore` of app/services/budgets.py with
--   the payloads of app/schemas.py and the tables of app/db.py. Budget/Types has the rows, payloads
--   and errors (one constructor for each `raise`); Budget/Money is `_q_money`; Budget/Table has the
--   SQL statements with the CHECKs of the table; Budget/Checks has `_validate_period`,
--   `_validate_scope`, `_assert_no_overlap` and `_assert_client_account_allocation_limit`;
--   Budget/Store has `create`, `patch` and `archive`; Budget/Transfer has `transfer`; Budget/Queries
--   has `list`, `get`, `history`, `list_transfers` and `resolve_effective`. Budget/Invariant says
--   when the table is consistent and what an admitted write keeps; Budget/Keeps has what each method
--   does (Budget/Keeps/Merge says what a patch makes of a budget, field by field, and
--   Budget/Keeps/Refusals why one is refused); Budget/Run has sequences of requests; Budget/Examples has runs.
-- - Command: app/services/provider_budget_commands.py. Command/Types has its data and exceptions;
--   Command/Validate is the construction of a `BudgetChangeRequest`, with a reference for the words of
--   its reason in Command/Validate/Words; Command/Authorize has
--   `authorize_budget_write`, `authorize_budget_reconciliation` and the snapshots of what they saw;
--   Command/Policy says who may write; Command/Store is `InMemoryBudgetCommandStore`; Command/Steps
--   is the store as a state machine; Command/Snapshots has the audit snapshots and the payloads that
--   are hashed; Command/Preview has `_b64encode`, `_b64decode`, `PreviewSigner` and the methods
--   `preview` and `submit` of the service, and Command/Preview/Documents that what is hashed tells two
--   contexts apart; Command/Provider has the adapter, the callbacks and the
--   `try` over them; Command/Sqlite has the tables and methods of `SqliteProviderBudgetCommandStore`
--   of app/db.py, with the locks of the targets and the offline recovery; Command/Service has
--   `execute` and `reconcile`, with the table of the provider's answers in Command/Service/Replies;
--   Command/Examples has runs.
-- - Sync: app/services/ad_account_sync.py. Sync/Leases has the leases of
--   `InMemoryAdAccountSyncJobStore` and of `SqliteAdAccountSyncJobStore`; Sync/Schedule has
--   `latest_by_account_ids`, `_next_retry_at`, `_resolve_date_range_for_account` and the selection of
--   `run_due_sync`; Sync/Failures is `_classify_error`, with phrases
--   and whole words of a text in Sync/Failures/Phrases; Sync/ProviderRows is
--   `_validated_provider_rows`; Sync/Run is the `try` of one account and Sync/Loop the loop of
--   `run_sync`, with the jobs and the metadata that it writes; Sync/Examples has runs.
-- - RateLimit: `InMemoryRateLimiter` of app/services/rate_limit.py, with the sliding window that it
--   implements (RateLimit/Windows).
-- - Dates: `date_chunks` of app/services/date_utils.py.
-- - Base: names of the libraries, Boolean tests, integers, texts, lists, a stable sort and fallible
--   results.
--
-- How the code is read. Ids (UUIDs) are natural numbers that are only compared, dates are ordinal
-- days, instants are numbers. A stored amount of a planning budget is an integer of hundredths, since
-- every write goes through `_q_money`; the amount of a payload is a decimal. An amount at the
-- provider is a natural number of minor units. `uuid4`, the clock, SHA-256, the provider's adapter
-- and its callbacks are arguments; so are HMAC and JSON, with what is used of them as laws (the
-- absence of a collision of two digests among them). Error
-- messages are left out, error codes are kept. A transaction is a function on the tables whose
-- changes an error discards; `BEGIN IMMEDIATE` serialises the transactions and a lock the methods of
-- the command store, so that concurrent callers are a sequence of calls. The loops of the code run
-- over lists and are structural recursions; only the loop of `date_chunks` takes fuel, one turn for
-- each date of the range, which is enough for chunks of a day or more.
--
-- In the synchronisation an instant is a number of seconds, and the resolver of credentials, the
-- fetchers of the providers, the ingest of metrics and the clock are arguments. What the parsers of
-- dates and numbers make of a field is part of a provider's row, and every row is an object.
--
-- Not modelled: the routes, the schema migrations and the translation of SQL to PostgreSQL, with the
-- exclusion constraint that also guards the overlaps there; the in-memory budget store and the
-- financial metrics; the `list` of the SQLite store of the commands and the JSON of its columns; the
-- heartbeat thread of `run_sync_exclusive`, the filter of eligible accounts and the storage of the
-- jobs; an explicit null for a required column of a patch, which ends in an unhandled exception
-- before the commit. The order of the client caps only chooses which one an error names. Of two
-- budgets of equal version and instant `transfer` takes the one that is read first.
pub mod Base
pub mod Budget
pub mod Command
pub mod Dates
pub mod RateLimit
pub mod Sync
