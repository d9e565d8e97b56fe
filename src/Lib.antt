-- ===== src/Lib.antt =====
-- Verification of the Xygo AEC operating system: the domain packages (packages/), and the API
-- (apps/api) that serves them.
--
-- The program. A request comes to apps/api/src/handlers.js with a principal. It passes the
-- authorization gate (canPerform over the permission matrix), a write with a key of the client goes
-- through the idempotency store, lists go out in pages. The domain packages make records from
-- untrusted input, and change them: each such operation first asks the guards on the session for the
-- record's tenant and project, then its own conditions, and gives the new record with an audit event
-- and an outbox event. Audit events form a hash chain for each tenant. Outbox events become jobs of
-- the outbox, which workers claim, complete, fail and retry.
--
-- The files.
--   Base/*         what all others share: Result with bind for code that throws, the values of
--                  JavaScript that input carries (Dynamic), the String and Array methods in use.
--   Contracts      packages/shared-contracts/src/foundation.js: the constructors.
--   Access         packages/auth/src/synthetic-auth.js: sessions and their guards;
--                  Access/Policy packages/authorization/src/policy.js: the matrix, canPerform.
--   Audit          packages/audit/src/foundation.js: events, the chain, its verification;
--                  Audit/Json stable serialization, Audit/Chain appending as handlers.js does.
--   Emission       the pairs of events that the packages emit; Transitions tables of transitions.
--   Projects       packages/projects/src/index.js: packages, reviews, the project lifecycle.
--   Permits        packages/permits/src/index.js: the permit lifecycle and its submissions.
--   Construction   packages/construction/src/index.js; FieldReporting
--                  packages/field-reporting/src/index.js; AiReview packages/ai-review/src/index.js;
--                  Communication packages/communication/src/index.js.
--   Coordination   packages/coordination/src/index.js: issues, requests, approvals.
--   Blueprints     packages/platform-blueprint/src/index.js: the modules recommended to a business.
--   FileStorage    packages/file-storage/src/index.js: checks of uploads, records, storage keys.
--   Repositories   apps/api/src/repositories/memory.js: Maps with every operation over them
--                  (Memory, Mail), and what they promise (Specification, Refinement).
--   Documents      packages/documents/src/index.js: file records and what is done to them.
--   Email          packages/email-delivery/src/index.js: the state of a delivery, suppressions,
--                  and the health of deliveries and worker.
--   Outbox         apps/api/src/reliability/outbox.js: jobs, the store in memory with all its
--                  operations, its health, the worker's round.
--   Api            apps/api/src/http/rate-limit.js, apps/api/src/reliability/idempotency.js, and of
--                  apps/api/src/handlers.js withIdempotency, paginate, uniqueById, authorize and
--                  handleCollectionCreate over any resource; Api/Collections/Table has the
--                  resources of the code over the repository in memory, and
--                  Api/Files the routes that complete an upload and delete a file.
--   Tokens         apps/api/src/auth/jwt.js: the verification of signed tokens. What decodes a
--                  segment, imports a key and checks a signature is the argument `Platform`.
--   Examples       concrete inputs at which the theorems apply.
--
-- How code is modelled. A function that throws is one into Result, and a constructor of records takes
-- the untrusted input as a Value, with `??`, truthiness and missing members as JavaScript has them.
-- An object that the code changes in place is a record that the operation takes and gives back; a Map
-- is an association list in the order of insertion. Time is a parameter: a number of milliseconds, or
-- the text of a date where the code only stores it. Numbers that the program stores are naturals.
-- Where a field holds a list whose elements the code reads, the record has a list, and the input gives
-- it as one. Identifiers that the code draws at random are fields of `Ambient`, an argument. SHA-256
-- and HMAC are functions in `Crypto`, an argument; theorems about the chain say what they ask of them.
-- The asynchronous callbacks of one round of the worker each settle their own job, and are taken in
-- the order of the claim; calls of different workers are sequences of calls in any order. A handler of
-- jobs and a storage of files are arguments that read and change a world of their own, the storage also
-- where it throws; a handler does not call the outbox, as that of apps/worker/src/worker.js does not.
--
-- Bounds. Recursion is on the data, but for `Api.Pages.read_pages`, on a number of pages after which it
-- gives none, and as many as there are items, or one, is shown to be enough, and the decimal digits of a number n, on n + 1.
-- `toLowerCase` is that of ASCII.
--
-- The seeds of the repository are its state before the first call, an argument. A record that is put into
-- a Map or read from it is copied by JSON in the code, which is the same value here.
--
-- Not modelled: the stores in SQLite, PostgreSQL and files, which are statements to databases around
-- the same helpers, and the transactions that only they have; of apps/api/src/handlers.js the routes for
-- upload intents, content and downloads, for field reports and dispositions, and the composed views; of
-- packages/email-delivery the templates, the providers and the check of webhooks; of
-- packages/file-storage the configuration and the adapters, which the routes take as an argument; the
-- HTTP server and the fetching of keys; the worker's timers and handlers; packages that only build
-- records of the same form as the modelled ones (drawings, models, knowledge, finance-contracts,
-- integrations, client-portal, dashboards); the browser's code; scripts and configuration.
pub mod Base
pub mod Contracts
pub mod Access
pub mod Audit
pub mod Emission
pub mod Transitions
pub mod Projects
pub mod Outbox
pub mod Permits
pub mod Communication
pub mod Coordination
pub mod Blueprints
pub mod Construction
pub mod FieldReporting
pub mod Repositories
pub mod Api
pub mod AiReview
pub mod Email
pub mod Documents
pub mod FileStorage
pub mod Tokens
mod Examples
