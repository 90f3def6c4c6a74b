-- ===== src/Lib.antt =====
-- Verification of the AI-powered GitHub PR reviewer: the path of a GitHub webhook from the HTTP
-- request to the review request that is handed to Inngest, and of the index: its runs, and the
-- resolution of imports and calls.
--
-- The program. apps/api is an Express server. GitHub posts deliveries to it
-- (apps/api/src/controllers/webhooks.controller.ts), which verifies the signature over the raw body,
-- tests the event type against an allow-list, limits the rate for each installation in Redis, and
-- hands the parsed payload to one of two services of apps/api/src/modules/webhooks/webhook.service.ts.
-- Both write an audit row for the delivery first, whose unique delivery id makes a redelivery a
-- duplicate. A pull request delivery is routed to the projects that have connected the repository
-- (event-router.ts); the events are saved in the row, sent to Inngest, and the row is marked. A send
-- that fails leaves the row pending, and a sweeper of apps/worker
-- (apps/worker/src/inngest/functions/webhook-sweeper.ts) sends it again. Installation and repository
-- events change the connection statuses of repositories (installation-sync.ts). Apart from that path,
-- the worker indexes repositories. A run (apps/worker/src/inngest/functions/repository-index.ts) takes
-- a lock on the repository, which is its indexStatus, creates a job, asks GitHub for the branch's
-- commit, fetches and indexes the tarball, waits out rate limits, and marks the repository and the job;
-- onFailure marks both when a run fails, with a code that it reads off the error's message. A sweeper
-- (stale-index-sweeper.ts) requests what has been pending for long. Of the indexing itself three
-- parts are modelled: the extraction of the archive with its limits
-- (apps/worker/src/indexing/fetcher/archive-extractor.ts), and, of apps/worker/src/indexing/graph, the
-- resolution of imports to files or packages (import-resolver.ts) and that of calls to symbols
-- (call-resolver.ts): by the calling file, by its imports, and by an index of all names.
-- packages/github keeps installation tokens in a cache over
-- Redis with a fallback in memory (client/token-cache.ts).
--
-- The files.
--   Prelude          tests, conditionals, lists, integers and equality that all files share
--   Database         Prisma, the database client, as a parameter with its documented behaviour, and a
--                    database in memory that meets it
--   Json             the values of JSON.parse, the infinities that a large literal becomes included
--   Store            the tables of packages/db/prisma/schema.prisma, what Inngest has accepted, and the
--                    monad of handlers: a handler takes the store to a store and a result or an error
--   Repositories     the queries of apps/api/src/modules/repositories/repository.repository.ts and
--                    installation.repository.ts, and of modules/webhooks/pull-request.repository.ts
--   Webhook          a child for each file of apps/api/src/modules/webhooks: Allowlist
--                    (event-allowlist.ts), Payload (webhook.schema.ts), Router (event-router.ts),
--                    Verification (webhook-verification.ts), Ledger (webhook-event.repository.ts), Sync
--                    (installation-sync.ts), Service and SyncService with Outcome (webhook.service.ts);
--                    Emit (apps/api/src/inngest/emit.ts), RateLimit (apps/api/src/lib/rate-limit.ts),
--                    Controller (the endpoint) and Sweeper (the worker's function)
--   Graph            CallResolver: the data, Index (buildNameIndex and candidatesForName), Rules (a call
--                    in its own file and through an import, and the narrowing of candidates) and Sites
--                    (the call sites and the loops over files, symbols and calls); RepoContext (the
--                    data and lookups of repo-context.ts), Paths and ImportResolver with Aliases, Specifier
--                    and Manifest (import-resolver.ts)
--   Github           Failure: the classification of errors and getHeadCommit of
--                    packages/github/src/services (github-result.ts, repository.github.ts);
--                    InMemoryTokenCache and TokenCache (packages/github/src/client/token-cache.ts)
--   Indexing         Store (the columns and events of indexing, and the monad of its steps), ErrorCode
--                    (withCode and parseCode), Jobs and Lock (index-job.repository.ts and
--                    repository.repository.ts of apps/worker/src/indexing/persistence), Send (step.sendEvent), Counts (the
--                    result of indexer.service.ts), Run with Failure (repository-index.ts) and Sweep
--                    (stale-index-sweeper.ts), Archive (fetcher/archive-extractor.ts); Lock.Refinement compares the lock with an abstract one,
--                    Lock.Exclusion interleaves runs
--   Tests            concrete outside functions, and each theorem at a concrete input
-- Functions have the source's names in snake case.
--
-- Choices. A table is the list of its rows; an update is a function on rows; a transaction is one step,
-- and handlers of different requests are not interleaved, but for the runs in Indexing.Lock.Exclusion,
-- whose steps on the lock are taken in any order. Identifiers and counts are integers (the range of a
-- column is not modelled), times are
-- milliseconds. The id of a new row and the clock are arguments of a handler, constant for its run. An
-- exception is a result, which ends the handler as throw does, with what it has written kept. Loops are
-- structural recursion on the list that they go through, so no fuel is needed. The loop of a run
-- that waits out rate limits is recursion on the sleeps that are left of MAX_RATE_LIMIT_SLEEPS. The
-- decimal text of an integer is computed with fuel one above the number, which has at most that many digits.
--
-- Outside the model, as parameters: Prisma, Redis, Inngest's answer to a send, the functions of
-- node:crypto and node:path, the entries that the tar library reads, GitHub's answers, Zod's safeParse, JSON.parse and Date parsing, each with the documented behaviour that
-- the code relies on, as laws of a record. Log lines are left out. rate-limit.ts holds both sides of
-- an unresolved merge; the side with a window is modelled, since its callers pass one. The database
-- always answers and takes the values it is given: of its errors the model has those for a unique column and for a missing row.
--
-- Not modelled: the web application (presentation), logging (I/O), generated code, the tree-sitter
-- and tar libraries; the GitHub client and the indexing of repositories apart from what is named above,
-- and the project service. Of a run one pass is modelled, in which every step executes: Inngest's
-- replay of finished steps, its retries and cancellations are not. The columns of a repository that
-- webhooks use and those that indexing uses are two records.
pub mod Prelude
pub mod Database
pub mod Json
pub mod Store
pub mod Repositories
pub mod Webhook
pub mod Graph
pub mod Github
pub mod Indexing
pub mod Tests
