-- ===== src/Lib.antt =====
-- Memoratum is a context store for agents: documents, memories and facts in SQLite, served by an
-- HTTP application and processed by background workers. This library models the parts of
-- src/memoratum that keep state and decide who may touch it, and proves what makes them correct.
--
-- A SQL table is a list of rows in rowid order, and a statement an operation on that list
-- (Table.antt): an UPDATE is an update under a Boolean test, a SELECT with ORDER BY and LIMIT 1
-- the first row of the stable order by the key. Rows that tie in the key stay in rowid order;
-- SQLite leaves that open. Each function commits once, or is called inside one transaction, so it
-- is one step. Readings of time.time() are arguments, in whole ticks of the clock, and so are the
-- fresh identifiers of uuid.uuid4() and secrets. JSON columns hold the values that json.dumps
-- stored (Json.antt), since json.loads gives them back. Hashes are parameters.
--
-- Jobs.antt is the durable job queue of src/memoratum/jobs.py, one function for each of the
-- module. Jobs/Steps.antt has the commits of these functions, by any number of callers, as a list
-- of operations in commit order; the theorems of Jobs over a history range over all such lists
-- and all clock readings. Writers.antt has every commit that writes the table: these, the
-- inserts, retries and replays of the outbox, the retention sweep, the purge of a project, and
-- scripts/recover_stuck_jobs.py, which ends leases by force; any other commit is one that leaves
-- the table as it is.
--
-- Keys.antt is the API-key tables of src/memoratum/db.py. Access.antt is the authorization of
-- src/memoratum/app.py: a request's Authorization header becomes a Scope, and Access/Gate.antt
-- has authorize, effective_project and the project guards, Access/Metering.antt the usage row of
-- db.record_usage. SHA-256 and the injected identity provider are fields of Server; constant-time
-- comparison is equality of texts. Operations count one unit, the default that every caller
-- keeps.
--
-- Outbox.antt and its modules are the transactional outbox of src/memoratum/webhooks.py: the
-- events and deliveries of record_event (Outbox.antt), one attempt at a delivery
-- (Outbox/Attempts.antt: deliver_delivery, _mark_delivery, _requeue_or_dead,
-- _schedule_delivery_retry, claim_due_deliveries) and replay_delivery (Outbox/Replay.antt). The
-- jobs of the outbox are rows of the job queue. What the network answers is an argument of an
-- attempt; a secret that cannot be decrypted, which raises before the request, is not modelled,
-- nor is the signature of the request.
--
-- Memory.antt and its modules are the canonical memories of src/memoratum/db.py and the temporal
-- facts of src/memoratum/facts.py: the tables (Memory/Tables.antt), the operations on one memory
-- (Memory/Operations.antt), the walk over superseded facts and the soft deletion
-- (Memory/Linked.antt), and add_fact, delete_fact and the listings of facts (Memory/Facts.antt).
-- An operation that raises returns an error and the store it was called on, as its caller rolls
-- back. The walk runs on fuel: one more step than there are memories, as a fact is pushed only
-- with a memory that is seen for the first time. Memory/Runs.antt has the operations that write
-- memories as a list in commit order.
--
-- Idempotency.antt is the idempotency keys of src/memoratum/db.py (claim_idempotency,
-- complete_idempotency, release_idempotency, get_idempotency) and the two closures of app.py that
-- the routes use, _begin_idempotency and _finish_idempotency. Retention.antt is the sweep of
-- src/memoratum/retention.py over the eight timed tables, which are those of the other parts.
-- Worker.antt is run_once of src/memoratum/worker.py, with the handler of a job's kind as an
-- argument.
--
-- Chunking.antt and Chunking/Markdown.antt are src/memoratum/chunking.py: split_text and
-- split_markdown, on texts of code points. A size below 0 is 0: the buffer is written whenever it
-- is not blank, either way. Documents.antt is the tables of documents and chunks in
-- src/memoratum/db.py (create_document, update_document, set_status, add_chunks),
-- Documents/Ingest.antt src/memoratum/ingest.py, with the embedder, the vector store and
-- struct.pack as arguments: each answers or raises. process_all runs on a list of draws of the
-- clock and uuids, one for each turn; one more than there are queued documents is enough.
-- Documents/Links.antt is the share links of db.py and the route GET /v1/share/{token} of
-- src/memoratum/app.py.
--
-- Purge.antt is purge_project of src/memoratum/db.py over all the tables that the project has
-- rows in, with what the schema's foreign keys do to the rows that refer to a deleted one;
-- Purge/Prune.antt is prune_expired. The project's ids stand in two places, as rows of projects
-- and as the texts that the outbox checks; a purge removes both.
--
-- Worker/Bulk.antt is the branch bulk_memories of _dispatch in src/memoratum/worker.py: an item
-- is a JSON object, as in the job's result; prior_item reads the items of an earlier attempt.
-- Targets.antt is the outbound policy of src/memoratum/webhooks.py, from _normalize_webhook_url
-- to _connect_pinned. IP addresses are numbers; 4 turns of unwrapping are more than enough, as
-- each turn ends at an IPv4 address.
--
-- Worker/Dispatch.antt is the branch delete_all_memories of _dispatch; its loop is
-- expire_memories of Purge/Prune.antt.
--
-- Not modelled: the HTTP routes of src/memoratum/app.py beyond the closures and the route named
-- above, search and ranking, the providers of models, vectors and embeddings, configuration,
-- migrations, backup, evaluation, the command line, the MCP server, the TypeScript clients and
-- the dashboard. They are input and output, calls of third-party services, or floating-point
-- scores. Where a text is stored as JSON the model holds the value that was dumped. Times are
-- whole numbers and a clock that is read several times in one operation is read once.
pub mod Base
pub mod Table
pub mod Json
pub mod Access
pub mod Chunking
pub mod Documents
pub mod Idempotency
pub mod Jobs
pub mod Keys
pub mod Memory
pub mod Outbox
pub mod Purge
pub mod Retention
pub mod Targets
pub mod Worker
pub mod Writers
