-- ===== src/Lib.antt =====
-- A model of the durable core of the backend: the transactional outbox and its delivery, the weekly
-- growth operator's commands on plan actions and prepared assets, the executions of language model
-- requests, the refresh sessions of browsers, the states of OAuth redirects, and the search for the
-- sitemaps of a website.
--
-- Parts of the program and their files:
--   app/db/idempotency.py: Idempotency (`insert_or_replay`).
--   app/db/outbox.py: Outbox (`enqueue_outbox_event`, `claim_outbox_events`,
--     `mark_outbox_event_published`, `release_outbox_event_for_retry`, `_sanitize_error_category`,
--     `OutboxMetadata`), with Outbox/Metadata, Outbox/Category, Outbox/Keys, Outbox/Leases,
--     Outbox/Rows, Outbox/Steps, Outbox/Kept and Outbox/Exclusive on them.
--   app/workflows/outbox.py: Delivery (`OutboxDeliveryWorkflow.deliver`), with Delivery/Loop,
--     Delivery/Totals and Delivery/Sent.
--   app/modules/operator/policies/weekly_growth_policy.py: Weekly/Policy and Weekly/Lifecycle.
--   app/modules/operator/models and repositories/weekly_growth_repository.py: Weekly/Store.
--   app/modules/operator/services/weekly_growth_service.py: Weekly/Commands (`_command_replay`,
--     `_record_command`), Weekly/Commands/Approve (`approve_action_revision_use_case`), Move
--     (`transition_action_use_case`, `schedule_measurement`), Revise (`revise_asset_use_case`) and
--     Reject (`reject_asset_use_case`), each with the files that prove things of it; Replay is about
--     repeated commands, Weekly/Frames about what the shared parts leave alone, and Weekly/Covered
--     about approvals and latest revisions under any order of commands.
--   app/modules/operator/services/x_asset_bridge_service.py and
--     app/modules/analytics/services/product_event_service.py: Weekly/Commands, as called by these
--     commands.
--   weekly_growth_service.py and weekly_growth_policy.py, `create_weekly_run` and
--     `scheduled_weekly_key`: Weekly/Runs.
--   app/modules/operator/policies/cooldown_policy.py: Cooldown, and risk_policy.py:
--     Weekly/Risk.
--   app/modules/llm/repositories/llm_execution_repository.py: Llm (one function per transaction), with
--     Llm/Rows, Llm/Steps, Llm/Frozen and Llm/Fencing on any order of them.
--   app/modules/llm/services/llm_execution_service.py: Llm/Execute (`execute`, `_create_or_replay`) and
--     Llm/Execute/Attempt (`_record_attempt`, `_finish_failed`), with Llm/Parts,
--     Llm/Loop, Llm/Completes, Llm/Once, Llm/Replays, Llm/Last and Llm/Decides on them.
--   app/modules/llm/policies/llm_route_policy.py: Llm/Route.
--   app/modules/identity/services/sessions.py and repositories/sessions.py: Sessions, with
--     Sessions/Rows, Sessions/Steps, Sessions/Single, Sessions/Spent and Sessions/Rotation; the updates
--     of services/browser_oauth.py to the table of sessions are there too.
--   app/modules/integrations/services/oauth_transaction_service.py and policies/return_paths.py:
--     OauthTransactions, with OauthTransactions/Steps and OauthTransactions/Trips.
--   app/modules/products/services/website_crawl_service.py, `_discover_sitemaps`: Crawl, with
--     Crawl/Shape, Crawl/Ends and Crawl/Bounds.
-- Prelude and Text hold the shared helpers, Examples the concrete runs.
--
-- How the state corresponds: a table is the list of its rows in insertion order, and a store is the
-- record of the tables that the commands read and write. A transaction is a function on it that
-- returns a result: an exception rolls back, so an error has no store. Where a row
-- is locked or written by one statement, transactions are atomic, so interleavings are sequences of
-- them (Outbox/Steps); `skip_locked` is the argument `locked`, the rows that other transactions hold.
-- Two places take no lock, and there the model says what a transaction sees: a publication and a
-- release read the row in the table `seen`, which may be older than the one they write, and the
-- update of a family of sessions passes over the rows `unseen`, which are not committed yet. What
-- other workers write while the publisher answers is the argument `meanwhile` of Delivery. A
-- transaction writes every column that it assigns. A query that returns one row is the first row
-- that passes its tests. Identifiers are natural numbers, and fresh ones are arguments; an insert
-- that repeats a primary or a unique key is refused. Times are microseconds, in Sessions seconds.
-- Where a transaction is committed before an exception (the reuse of a refresh token, an OAuth state
-- that does not decrypt, an attempt of an execution that fails) a function returns the result or the
-- exception beside the table. While a provider answers, other workers and the heartbeat may change
-- the tables of executions: the answer is an argument that carries the tables at its end.
--
-- Code that is not in the repository is an argument: whether the publisher accepts an event, the
-- lower-casing, folding and stripping of a text, the texts of times and of identifiers, and the
-- validation of documents by their schema; hashes, encryption, JSON, `urlsplit`, drawn tokens and the
-- answers of providers. So are the fingerprint of a request in Llm/Execute
-- (app/modules/llm/policies/llm_fingerprint_policy.py) and the normal form of a URL in Crawl
-- (app/modules/products/policies/website_url_policy.py), which mostly call such code. Priority scores
-- of recommendations are natural numbers; prices are counted in millionths, and costs in units of
-- 10 ^ -12.
--
-- Every loop is recursion over a list of rows, but for the search for sitemaps, whose queue grows: it
-- takes fuel, one unit a turn. A turn uses up one of the allowed fetches or shortens the queue.
--
-- Not modelled: the documents in columns that no command reads, the search figures
-- that a measurement starts from, and the parts of the backend that hold no state of these (API, drafts,
-- search, the clients of providers and integrations, logging).
pub mod Prelude
pub mod Text
pub mod Idempotency
pub mod Outbox
pub mod Delivery
pub mod Sessions
pub mod Crawl
pub mod Llm
pub mod OauthTransactions
pub mod Weekly
pub mod Cooldown
pub mod Examples
