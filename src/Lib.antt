-- ===== src/Lib.antt =====
-- The inference platform: a gateway that serves chat completions from a fleet of GPU nodes, the
-- agent that runs on each node, and the planner that splits a model over nodes.
--
-- A request passes the API key middleware (Auth) and its rate limiter, is checked and cleaned
-- (Sanitize), and is given candidate plans (Coordinator) that the shard planner (Planner) makes for
-- the model's figures (Registry). The coordinator posts it to the first node of a plan, to Ollama
-- (Messages) or to the agent, which hands it to the next node (Agent). Three loops keep the nodes'
-- state: the agents' registration (Agent.Registration, Register), the health monitor and the sweep
-- of nodes without a heartbeat (Health). The counts of each answer (Chat) go to the log of Usage, from which
-- Billing charges the keys and pays the nodes, and which Pages shows.
--
-- Files and sources, from the root of the repository:
--   Planner        crates/shard-planner/src/planner.rs and lib.rs; the loop of `plan_shards` is
--                  `assign_layers`, its final check `finish_plan`
--   Registry       crates/shard-planner/src/registry.rs; the table `known_models`, `get`, `estimate`
--   Messages       the request types of crates/api-gateway/src/routes/chat.rs and the bodies for
--                  Ollama, also of shard_coordinator.rs
--   Nodes          crates/api-gateway/src/nodes.rs
--   Coordinator    crates/api-gateway/src/shard_coordinator.rs: `build_candidates` with its counter
--                  as state; Coordinator.Execution: `execute` and `execute_with_failover`
--   Sanitize       crates/api-gateway/src/sanitize.rs
--   License        crates/api-gateway/src/license.rs
--   Keys           crates/api-gateway/src/routes/keys.rs, on the table of API keys
--   Register       crates/api-gateway/src/routes/nodes.rs
--   Auth           crates/api-gateway/src/auth.rs and the rate limiter of cache.rs
--   Health         crates/api-gateway/src/health_monitor.rs and stale_nodes.rs
--   Chat           the handler of crates/api-gateway/src/routes/chat.rs; Chat.Stream: `stream_response`,
--                  whose task is `stream_events`, with `drain_lines` for its inner loop
--   Usage          the table usage_logs and crates/api-gateway/src/routes/usage.rs
--   Billing        the Stripe client of crates/api-gateway/src/billing.rs; Billing.Accounts and
--                  Billing.Webhook: routes/billing.rs; Billing.Meter and Billing.Payouts: the two
--                  jobs of billing_cron.rs
--   Pages          crates/api-gateway/src/routes/consumer.rs, provider.rs and models.rs
--   Hardware       crates/node-agent/src/hardware.rs on Linux
--   Settings       `from_env` of crates/api-gateway/src/state.rs
--   Agent          crates/node-agent/src/shard.rs; Agent.Registration: registration.rs
--   Base           numbers, text, lists, results and sorting that the others share
--
-- How code is represented. Numbers are natural numbers, with the wrap-around of release builds
-- written out where an operation can exceed its type (`wrap32`, `wrap64`); i32 and i64 that may be
-- negative are `ℤ`. Text is the list of its Unicode scalar values. An f64 is its bit pattern with
-- the order of `partial_cmp`; an f32 is only passed on. `Run` is code that may panic, `Result` code
-- that may fail. Shared state is an argument and a component of the result; a database table is the
-- list of its rows, and which queries fail is an argument of the handler, or in Billing a part of the
-- state.
--
-- Parameters, for code outside the repository: lower case of text beyond ASCII (`Casing`), the
-- regular expressions of the answer filter (`PiiPatterns`), SHA-256 (`hash_key`), Redis (`Redis`),
-- the aggregates of PostgreSQL (`compute_stats`, `percentile`, `average`), the HTTP calls (`post`,
-- `attempt`, `infer`, `ping`, and `send` for Stripe), the members of JSON bodies (`Reader`,
-- `StripeReader`, `EventReader`), the decoding of UTF-8 (`Decoding`), HMAC-SHA256 (`mac`), the
-- calendar (`Calendar`, `DateReader`), the environment (`Env`, `Connections`), and the arithmetic of
-- f64 (`FloatOps`). What is assumed of Redis is stated in Auth.Window: INCR counts up by one and
-- EXPIRE keeps the count. Of `Decoding` it is assumed that ASCII is read as it is.
--
-- Fuel: `digits_before` runs on `n + 1` rounds, one for each digit and more; `deliver` of
-- Agent.Pipeline runs on the number of hops after which a caller has given up; `drain_lines` runs on
-- the length of the buffer, since each round takes a newline off.
--
-- Not modelled: the start of the servers and routing, the command line, and the web front end, which
-- are input and output. Logging is left out everywhere.
pub mod Base
pub mod Planner
pub mod Registry
pub mod Messages
pub mod Nodes
pub mod Coordinator
pub mod License
pub mod Sanitize
pub mod Keys
pub mod Auth
pub mod Agent
pub mod Health
pub mod Register
pub mod Usage
pub mod Chat
pub mod Billing
pub mod Pages
pub mod Settings
pub mod Hardware
