-- ===== src/Lib.antt =====
-- The Sentinel backend: a service that validates uploaded files, stores them as digital assets,
-- and runs analyzers on them through a queue and a worker process.
--
-- The parts and their files. Paths are from the repository's root.
--
-- Analysis (backend/app/domain/entities/analysis.py) is the entity of an analysis job: its
--   record, `validate`, `start`, `complete`, `fail`, `cancel`, and `__setattr__` as
--   `set_attribute`. Analysis/Valid has its invariants, Analysis/Lifecycle the diagram of its
--   states.
-- Upload (backend/app/domain/entities/upload.py) is the entity of an upload, with `create`,
--   `start_processing`, `complete` and `fail`; Upload/Lifecycle is about its states.
-- Validation (backend/app/utils/file_validation.py) checks an upload's content. Utf8 has the
--   text policy, MediaType the normalization of content types and the allow-list, Signature the
--   table of magic bytes and the checks by it, Stream the chunked validator; Characters has
--   UTF-8 as the Unicode standard defines it; Spoofing, Exclusive and Boundary are about what is
--   accepted.
-- Repository (backend/app/infrastructure/database/repositories/base.py and analysis.py,
--   backend/app/models/analysis.py) is the analyses table inside a database session. Rows
--   converts between rows and entities (`_to_orm`, `_to_domain`), Session has `create`,
--   `get_by_id`, `update`, `delete`, `get_completed_analysis`, `commit` and `rollback`; Laws
--   has the lemmas on them.
-- Registry (backend/app/analyzers/registry/registry.py) holds the analyzers by key.
-- Queue (backend/app/domain/services/queue_adapter.py,
--   backend/app/infrastructure/queue/redis_queue.py) is the job queue: deliverable messages,
--   and claimed messages that wait for ack or nack.
-- Service (backend/app/application/services/analysis_service.py) requests, cancels and reads
--   analyses. Its state `World` joins session, assets, registry, queue and audit log.
--   Service/Requests, Refusals, Grants, Cancels and Audits are about its calls.
-- Worker (backend/app/workers/analysis_worker/worker.py and __main__.py) executes jobs on the
--   same state: Worker/Process has `process_once` and one `round` of the process's loop.
--   Holding and Settled follow the claimed job, Progress the way to the analyzer; Failures,
--   Attempts and Exhaustion are about analyzers that raise, Completion and Success about
--   results, Lost about early jobs.
-- Users (backend/app/domain/entities/user.py) and Tokens
--   (backend/app/domain/entities/refresh_token.py, backend/app/infrastructure/security/jwt.py)
--   are the entities of accounts and the token service.
-- Database (backend/app/infrastructure/database/repositories/user.py, refresh_token.py and
--   base.py, backend/app/infrastructure/database/session.py) has the tables of users, refresh
--   tokens and audit records inside a request's session; Lookups and Users have the lemmas on
--   rows.
-- Auth (backend/app/application/services/auth_service.py) has `register` and `log_in` over
--   these tables, its child Sessions `refresh` and `log_out`; Counting has lemmas on stored
--   tokens. Rotation is about one request that refreshes a token, Race about any number of them
--   at the same time, Registration and Login about accounts that are registered and then used,
--   Failures about refused logins.
-- Guard (backend/app/api/v1/dependencies/auth.py) finds the user of a request by its bearer
--   token.
-- Accounts (backend/app/application/services/user_service.py) changes and deactivates accounts;
--   Deactivation is about what a deactivated user can still do.
-- Asset (backend/app/domain/entities/digital_asset.py) is the entity of a digital asset;
--   Identity is about its equality and hashing.
-- Metadata (backend/app/analyzers/metadata_analyzer/analyzer.py) is the analyzer of file
--   metadata: Bytes, Pdf, Png and Jpeg read contents, Frames is about the loop over JPEG
--   segments.
-- Storage (backend/app/infrastructure/storage/s3_adapter.py, and `_HashingTee` of
--   backend/app/application/services/upload_service.py) sends a stream to object storage in
--   parts. Parts has the shape of the parts, Rounds the invariant of the loops, Multipart what
--   is sent, Returns when it returns, Limit what the size of the stream decides.
-- Intake (backend/app/application/services/upload_service.py) derives the object key of an
--   upload; Names is about the file name in it. Tables
--   (backend/app/infrastructure/database/repositories/upload.py, digital_asset.py and base.py) has
--   the tables of uploads and assets in a request's session, World the arguments of
--   `process_upload` and object storage, Process `process_upload` with `_resolve_asset` and
--   `_fail_upload`, Handle the end of the session (`get_db_session` of
--   backend/app/infrastructure/database/session.py). Contents has the map of contents by their
--   digest that uploads refine, and Lookups, Keeps, Resolving, Stages, Begin and Inserts the
--   lemmas on the look-ups, the tables, the assets, the later and the first steps, and on the map,
--   from which Refinement is proved. Tracking and Tracked follow the uploads through a request;
--   Rows and Remembered are about the row with an idempotency key, Retry about requests that are
--   repeated with it, Completed about the uploads that are committed. Cleanup
--   (backend/app/workers/scheduled/upload_cleanup.py) is the clean-up of abandoned uploads.
-- Listing (backend/app/infrastructure/database/repositories/base.py, and the queries of its
--   siblings) has the paginated lists. Orders has what the database leaves open of an order, Pages
--   the pages that a client asks for one after the other.
-- RateLimit (backend/app/api/v1/middleware/rate_limit.py) is the limit on the requests of a client
--   in a minute. Window has the counter of a minute, Order the ranks of requests, Ranks runs
--   of requests, Runs how often the handler of a request runs.
-- Value has the Python values in the records; Prelude the names and lemmas that all share, and
--   Prelude/Outcome the results of calls that may raise, Prelude/Case case changes, Prelude/Chars
--   texts from code points. Tests has a run of each theorem.
--
-- How the code is read. A method that may raise returns a `Result`, with one constructor of an
-- error type for each exception or message. A long method is a chain of functions `after_...`,
-- one for each statement that can raise, each taking the result of that statement. UUIDs and
-- times are natural numbers; `uuid4` and `datetime.now` are arguments. A confidence is a number
-- of millionths, a number below zero or `nan`. Retry counts are natural numbers: the code starts them
-- at 0 and only ever adds 1. A byte string is a list of numbers. JSON text is
-- represented by the value that it denotes. Case changes of text cover Latin-1 in content types
-- and ASCII in verdicts, emails and authentication schemes; texts with other letters there are outside
-- the model, and so are texts with the character NUL, which the database refuses.
--
-- What the outside decides is an argument: whether the broker accepts a message and what
-- becomes of an audit record (`Outside`), what an analyzer does with an asset (`Outcome`, the
-- time limit included), the storage keys of assets, the texts of exceptions, and the place among
-- the waiting messages where the broker puts one that is given back (`Env`). The order of rows in the
-- answer to a query with ORDER BY is the parameter `Sorting`, with `Sorts` for what the database
-- documents of it. The
-- signing of JWTs, password hashing and the digest of tokens are third-party code, the
-- parameters `Jwt` and `Crypto`; that a token is read back as it was signed, from the time it is
-- issued until before it expires, is the hypothesis `IsSound`. What the client of object storage answers to each request is the
-- argument `Replies`; what is stored, the interface `Bucket`, with the laws that PUT, DELETE and
-- GET of an object document; what counts requests, the interface `Redis`, with the laws of INCR and
-- EXPIRE. SHA-256 is a parameter, `sha256`; that no two contents that are
-- stored have the same digest is a hypothesis where it is needed. Concurrent requests see what is committed, and an UPDATE waits for the
-- transaction that has changed its row, as the database documents. The database is a list of
-- rows with the sizes of the VARCHAR columns of the analyses, the table's CHECK constraints and the
-- unique index on completed rows; a flush that
-- violates one undoes the transaction and leaves the session unusable until it is rolled back,
-- as the database toolkit documents. Loops over collections are recursions on lists. Two loops
-- take fuel: the one over JPEG segments as many rounds as the content has bytes, since each
-- round moves on by two bytes at least, and the one that cuts parts from the upload's buffer as
-- many as the buffer has bytes, since each round takes a whole part out.
--
-- Not modelled: the listings by other conditions, the clean-up of deleted assets and of expired
-- tokens, audit record
-- contents, HTTP routes, schemas, settings, logging and migrations. Connection failures of the
-- database and failures of the broker's calls that acknowledge a message or give it back are left
-- out.
pub mod Prelude
pub mod Value
pub mod Analysis
pub mod Upload
pub mod Asset
pub mod Metadata
pub mod Users
pub mod Tokens
pub mod Storage
pub mod Intake
pub mod Database
pub mod Auth
pub mod Guard
pub mod Accounts
pub mod Validation
pub mod Repository
pub mod RateLimit
pub mod Listing
pub mod Registry
pub mod Queue
pub mod Service
pub mod Worker
pub mod Tests
