-- ===== src/Lib.antt =====
-- A model of llmbus, the message bus between producers of LLM jobs and a worker that runs them, and
-- the theorems about it.
--
-- The program. A producer hands a job to `BusClient.submit` (src/llmbus/client.py), which chooses a
-- model, writes a waiting row to the SQLite store (src/llmbus/store.py) and puts the job on a topic.
-- The worker takes jobs off the topic and runs `process_job` (src/llmbus/processing.py): it routes
-- the model to a provider (src/llmbus/providers/base.py), reserves rate-limit budget
-- (src/llmbus/ratelimit.py), calls the provider under a timeout, retries what is worth it
-- (src/llmbus/retry.py), prices the answer (src/llmbus/cost.py), writes the one terminal result to
-- the store and posts a callback. The producer polls the store for the result. The messages are
-- those of src/llmbus/schema.py.
--
-- The files.
--   Shared      library names, Boolean tests, lists, dictionaries and signed integers
--   Python      what the code takes from its language: exceptions as values (Exc), actions on a
--               state that return, raise or run out of fuel (Action), total correctness of actions
--               (Hoare), JSON values (Json), and the runtime's floats, datetimes and texts (Platform)
--   Schema      src/llmbus/schema.py: the records, the field checks (Checks, and what
--               they accept in Checks/Strict) and resolve_model
--   Sql         the statements of the store on tables as lists of rows; Keyed has their lemmas
--   Store       src/llmbus/store.py: the tables jobs, model_policy and worker_policy, and the
--               methods of `Store` on them. Rows has the records, Jobs, Policies and Published
--               the theorems on one operation, History those on all sequences of writes,
--               Ledger the maps that the store refines, Costs the cost ledger, Connection
--               the opening and closing of the connection, and blocks that share a file
--   Retry       src/llmbus/retry.py; Delays has the bounds of its waits, Checks what a policy meets
--               that can be built
--   Ratelimit   src/llmbus/ratelimit.py; `reserve_units` is TokenBucket.reserve, `reserve_job` is
--               ProviderLimiter.reserve, `reserve` is RateLimiter.reserve. Exact and Conformance have the
--               theorem on a stretch of time, for arithmetic that does not round
--   Providers   src/llmbus/providers/base.py; Tables has the theorem on its two tables
--   Cost        src/llmbus/cost.py; Prices has the theorems
--   Processing  src/llmbus/processing.py. Effects has what `WorkerDeps` injects and the trace of a
--               run, Results the results that it builds, Trace what a trace says, Run the theorem
--               on the retry loop, Delivery the one on `process_job`, Once the one
--               on redelivery, Unpriced the one on a job dated before the price table,
--               Progress and Finishes the one on finishing a job
--   Worker      src/llmbus/worker.py: one message, the handshake with the broker (Handshake), and
--               the rest of a worker's life (Wiring), with the callback headers of processing.py;
--               Ensured has the theorem on the topology, Wiring/Boot, Consuming and Life the one on the
--               whole life of a worker
--   Client      src/llmbus/client.py: `submit` and the poll loop; Answer has the way back from the
--               worker to a producer that polls, Session construction, connect, close and the async with block,
--               Budget what a producer reads of the budget of a worker,
--               Journey the one on a job from its submit over the worker to the poll
--   Adapters    src/llmbus/providers/openai.py (Openai) and src/llmbus/providers/anthropic.py
--               (Anthropic) over an SDK client; Clean has the theorem on each
--   Config      src/llmbus/config.py; Checks has the theorems on what is read, Binding the addresses
--               of the cost server, with `resolve_bind` of src/llmbus/server.py
--   Webauth     src/llmbus/webauth.py; Credentials has the theorem
--   Html        escaping, with its theorem in Safe
--   Dashboard   src/llmbus/dashboard.py over the ledger of Store/Costs; Totals and Keys have the
--               theorems on the totals, Pages the text of the page
--   PolicyPage  src/llmbus/policy_page.py
--   Server      the handlers of src/llmbus/server.py. Admission has what a POST must bring, Refusals
--               what it stops with, Writes the theorem on `do_POST`, InForce what a write does to the
--               next submit, Views the blocks on the store behind the pages
--   Commands    `main` of src/llmbus/cli.py and of src/llmbus/server.py; Sockets has
--               `build_servers` and `serve_forever`, with their theorems in Release
--   Tests       a host on which every law holds, and the theorems at concrete inputs
--
-- State. A method that changes state is an action: a function from the state to a result and the new
-- state. The store is its tables; a method that raises commits nothing. A worker's run has a
-- world: the limiter, the store, a moment that counts the readings of the outside, and the trace of
-- what was done to it. Clocks, random draws, provider calls and callbacks are functions of the
-- moment, so they may answer anything at any time. An exception carries its class name, what
-- `is_retryable` asks of it, and whether it is an `Exception`, so a cancellation passes the handlers
-- as it does in Python.
--
-- Parameters. `Platform` stands for the Python runtime and its libraries: floats, json, datetimes,
-- uuid and repr. `Texts` stands for what else the standard library does with texts: numbers read from
-- them, base64, forms, percent encoding and bytes. `Amounts` stands for the sums of `Decimal` on the
-- cost page, which `AmountLaws` takes to be exact. `TextLaws` says that json and ISO texts are read
-- back as they were written, and `FloatLaws` what IEEE arithmetic gives away from NaN and
-- infinities; no law says that float addition is associative or that a division is exact. The
-- broker's `send_messages` and the providers' calls are functions that may return or raise; `Broker`
-- is what is asked of the broker on streams and topics, `BrokerLaws` what it documents of that. How
-- often a message is on the topic after `send_messages` is a parameter too, whether it raised or
-- not, and so is whether the consumer ends with an exception of its callback.
--
-- Bounds and fuel. Python's integers are unbounded, `max_attempts` is a natural number, as its check
-- asks for. A power of two is out of the range of a float from 2 ^ 1024 on and raises, as it does in
-- Python. `Decimal` arithmetic is exact, which it is up to 28 digits. The retry loop has
-- `max_attempts + 1` rounds of fuel: each round but the last raises `attempt`, which stays below
-- `max_attempts`. The handshake has as many for the same reason. The poll loop has its fuel as an
-- argument, and ends within it if the clock passes the deadline.
--
-- Not modelled: signals, threads and the process entries, argparse, the writing of files and of HTTP
-- responses, the SQL driver, and the decoding of messages, which is pydantic's.
-- Logging has no effect on the model. HMAC is a parameter. On an open connection the
-- database's own errors, such as a lock that outlives its timeout, and a cancellation in a sleep are
-- not modelled: in the model the store's methods and the sleeps succeed. The opening and closing of
-- a connection may fail at each of their calls.
pub mod Shared
pub mod Python
pub mod Schema
pub mod Sql
pub mod Store
pub mod Retry
pub mod Ratelimit
pub mod Providers
pub mod Cost
pub mod Processing
pub mod Client
pub mod Worker
pub mod Adapters
pub mod Config
pub mod Html
pub mod Dashboard
pub mod Commands
pub mod Webauth
pub mod PolicyPage
pub mod Server
pub mod Tests
