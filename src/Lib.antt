-- ===== src/Lib.antt =====
-- Verification of clickman: product analytics whose clients queue events on the device and send them
-- in batches to an ingest server (rust/crates). Its four crates are modelled, from their Rust
-- sources.
--
-- The program. A client (`clickman`) records events into an SQLite queue, each with the actor and the
-- context of its moment, and sends them, when some are due or a flush asks for it, as gzipped JSON
-- batches, one at a time, with a growing wait after failures. The server (`clickman-ingest`) finds the
-- source of the write key, limits the rate per client, decodes the body, has `clickman-protocol`
-- normalize the batch (validate, correct the clock, flatten, sanitize), and inserts the accepted
-- events, each message id once.
--
-- The modules.
--   Base                shared names; texts as lists of scalar values, integers, decimal notation
--   Json                JSON values and the ordered map of serde_json
--   Protocol/Flatten    rust/crates/clickman-protocol/src/flatten.rs
--   Protocol/Merge      `deep_merge` of rust/crates/clickman-protocol/src/batch.rs
--   Protocol/Data, Batch
--                       rust/crates/clickman-protocol/src/batch.rs; Protocol/Outcome is its monad, in
--                       which a panic is a result of its own
--   Protocol/Sanitize   rust/crates/clickman-protocol/src/sanitize.rs
--   Client/Config, Clock, Error, Outcome, Backoff, Context, Identity, Event, Launch
--                       the files of these names in rust/crates/clickman/src
--   Client/Store        store.rs there, with queue.sql and queue-upgrade.sql: a table is the list of
--                       its rows, a transaction a function that commits only on success
--   Client/Queue        batch.rs there, and the queue's insertion and trimming of event.rs
--   Client/Sender       sender.rs and transport.rs there: an `Attempt` is what one send meets, the
--                       clock, the random number, the reply, and what other calls do to the store while
--                       the request is under way; `drain` takes the attempts one by one, and returns
--                       `none` where they are used up before it ends
--                       Sender/Threads has the calls of `send_next` as they interleave: a call posts, and
--                       others begin, write, are cancelled or are answered before its answer is there
--   Client/App          client.rs there; Client/App/Calls has histories of calls
--   Client/Refine       what the queue promises, apart from how it is kept: a relation of changes,
--                       which Writes, Sends and Calls show the calls of the client to follow
--   Ingest/Limiter      rust/crates/clickman-ingest/src/limiter.rs
--   Ingest/Body, Settings, Schema, Database, App
--                       the files of these names in rust/crates/clickman-ingest/src; Settings/Cell has
--                       the fetching and the reloading, Settings/Table the table they come from, App/Router
--                       the table of routes; Database/Drivers has how each database is given a batch, and
--                       Database/Times the text of times
--   Ingest/Configuration
--                       the environment that main.rs there reads
--   Ingest/Server       main.rs there: Start is the start up to listening, and Runs has the running
--                       server, in which requests arrive, are answered or dropped and the settings are
--                       refreshed in any order; a request is in two parts, and others come between;
--                       Origins has where the rows come from, and Shutdown what stops the server
--   Wire                an answer of the server as the client reads it, and the client's next request;
--                       Wire/Agree has an event of the client as the server normalizes it, Carriage what
--                       lies between the two, and Delivery, Removal, Arrival and Refusal a batch on
--                       its way from the queue to the table
--   Worker              rust/crates/clickman-e2e-worker/src/main.rs: commands as calls of the client;
--                       Network is its HTTP stack, and Main its output
--   */Tests             test data, and the theorems at concrete inputs
--
-- What stands for code outside the repository. Client/Platform has the JSON text, the calendar, UUIDs
-- and compression; Client/Backoff/Float has `f64` with the laws of its arithmetic that the bounds need;
-- `Externals` of Protocol/Batch has the reading of JSON, UUIDs and times, the sums of times, and what
-- the sanitizer calls (the email pattern and the Unicode tables), and the `f64` of the rate limiter, as
-- Base/Floats has it with the laws of IEEE 754. `Drivers` of Ingest/Schema and `Host`
-- of Ingest/Server/Start have what opening a database, the environment and the socket give, `Reading`
-- of Worker how lines are read, `Reqwest` of Worker/Network the HTTP library, and `FileSystem` of
-- Client/Store/Open the directories and the file of the queue. The gzip decoder, SHA-256, `serde` of the published settings,
-- `Duration::days` and the conversions to PostgreSQL's `timestamptz` and `jsonb` are arguments.
--
-- Bounds. Machine integers are written out where the source saturates (`i64` of SQLite, `u32` and `u64`
-- of the backoff) or refuses (the numbers of the environment). Loops are structural, but for `drain`,
-- whose bound is the list of attempts: what is said of it is said for every list. The insertion of a batch is one step, as its
-- statement is in the database, and so is a check of the limiter, which holds a lock.
--
-- Not modelled: failures of SQLite in the client but for the writes of a send, logging, the closing of
-- the database, how `axum` dispatches on the table of routes, the pruning of the events table by the Rails
-- engine, the HTTP stacks but for the worker's calls of its library, and the clients in other
-- languages.
pub mod Base
pub mod Json
pub mod Protocol
pub mod Client
pub mod Ingest
pub mod Worker
pub mod Wire
