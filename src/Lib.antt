-- ===== src/Lib.antt =====
-- AdaClaw is an agent runtime in Rust: messages from chat channels are routed to an agent, whose engine
-- calls a language model and runs tools for it, under a security layer. This library models the parts
-- of it that decide, and states what they promise. Paths are those of the repository.
--
-- A message first meets the emergency stop and the rate limiter, and the router gives it an agent. Its
-- engine compacts the history and asks a provider, which may be a reliability chain of providers; a tool
-- call that the model asks for meets the approval manager, and the URL of a request the SSRF check. A
-- client pairs by a one-time code, and the emergency stop can demand a one-time password. The heartbeat
-- sends its tasks to the last channel that the daemon's state holds.
--
-- The modules and the code they model:
--
-- - Prelude: maps (`HashMap`, as association lists), sets, texts as code points with the methods of
--   `str` that the code uses, results, and numbers.
-- - RateLimit: crates/adaclaw-security/src/ratelimit.rs. `WindowCounter` in RateLimit.Window,
--   `RateLimiter` with `check_message`, `record_action` and `record_cost` in RateLimit.Limiter.
-- - Approval: crates/adaclaw-security/src/approval.rs. The types and their texts in Approval.Types; the
--   lists, tokens and the audit log of `ApprovalManager` in Approval.Manager; the pending requests in
--   Approval.Pending; `approve_tool` and `approve_tool_supervised` in Approval.Decide, with one
--   definition for each step of `approve_tool_internal`; the runs of operations in Approval.History
--   and Approval.Tokens.
-- - Estop: crates/adaclaw-security/src/estop.rs, `EstopController` in Estop.Controller.
-- - Provider: crates/adaclaw-providers/src/error.rs in Provider.Errors; `CooldownTracker` and
--   `ReliabilityChain` of reliable.rs in Provider.Cooldown and Provider.Chain. `chat_inner` is
--   `has_available_provider` and `provider_loop`, which calls `attempts` for the inner loop.
-- - Bus: src/bus/router.rs. `glob_to_regex` in Bus.Glob, `AgentRouter` in Bus.Router.
-- - Agents: src/agents/compact.rs in Agents.Compact. A turn of src/agents/engine.rs:
--   `run_tool_loop_with_options` is Agents.Turn around the loop, which is Agents.Loop, with the tool
--   calls of an iteration in Agents.Dispatch and the history and the helpers in Agents.Engine. The
--   requests to the provider are counted in the state of the loop, those of a compaction by
--   `summary_requests`. The messages of crates/adaclaw-core/src/provider.rs in
--   Agents.Message. src/agents/parser.rs and `collect_text_tool_calls` in Agents.Parser, where a JSON
--   value is its compact text; the loop over a tag has as fuel one more than the length of the text,
--   and each turn takes at least a tag and its end from the text.
-- - Tools: `normalize_path` and `safe_path` of crates/adaclaw-tools/src/shell.rs in Tools.Paths, over the
--   components of a path and an interface of the file system.
-- - Pairing: crates/adaclaw-server/src/pairing.rs. `PairingState` and the codes in Pairing.State,
--   `constant_time_eq` in Pairing.Bytes.
-- - Ssrf: crates/adaclaw-security/src/ssrf.rs. The blocked addresses in Ssrf.Address, the check of a URL
--   in Ssrf.Check.
-- - Heartbeat: src/cron/scheduler.rs. The parsers of HEARTBEAT.md in Heartbeat.Tasks, `resolve_target` in
--   Heartbeat.Target, `HeartbeatScheduler` in Heartbeat.Scheduler: `tick` is the body of the loop of
--   `start`, and gives what is sent or spawned.
-- - State: src/state/mod.rs. `StateManager` in State.Manager, the file and the tasks that save to it in
--   State.Disk, and the messages that the loop of src/daemon/run.rs records in State.Tracking.
-- - Config: the structs of src/config/schema.rs in Config.Schema, `apply_env_overrides` in Config.Env, and
--   src/config/migration.rs in Config.Migration; `validate` of src/config/validation.rs in
--   Config.Validation and Config.Checks, a section each.
-- - Otp: crates/adaclaw-security/src/otp.rs. The base32 texts in Otp.Base32, `OtpProvider` in Otp.Totp,
--   the provisioning URI in Otp.Uri.
--
-- State is a record, and an operation returns the new record with its result. An operation is one step:
-- interleavings of operations are lists of them, and what happens between the locks that one operation
-- takes in turn is not modelled. The saves of State.Disk are the exception: their calls of the file
-- system are single steps, in any order. Where the code reads a clock, the
-- reading is an argument, one for each place that reads; the chain, which reads it in loops, has a
-- function from the number of readings. Times are numbers of nanoseconds. Machine integers wrap or
-- saturate where the code's do. `none` in the place of a result stands for a panic in Agents.Compact, and
-- `panicked` in Agents.Loop.
--
-- The bytes of the random generator are a list of draws, which bounds the two loops that draw again:
-- `fresh_id`, for which a draw for each pending request and one more are enough if the ids they give
-- differ, and `draw_code`, whose draws are rejected with a probability below one in ten thousand. The
-- loops of the provider chain are recursions on the list of providers and on the retries left. The inner
-- loop of `base32_encode` has its number of bits as fuel, of which a turn takes five; the digits of a
-- `u32` have fuel for ten, and its hexadecimal digits for eight.
--
-- Interfaces stand for code that is not in the repository, each a record of operations with the
-- documented behaviour that is used: `F64` for floating-point numbers, `Chrono` for the printing and
-- parsing of dates, `Json` for the text of a state (State) and for the values in a text (Agents), `Regex`
-- for the regular expressions, `Hmac` for HMAC-SHA1, `FileSystem` for the names of files. The replies
-- of the language models, the line that a user types and the outcome of writing a file are arguments.
--
-- Not modelled: logging and what a prompt prints, since nothing depends on them; the clients of
-- providers and chat services, the database, the sandbox, the running of tools, the HTTP server
-- and the command line, which are input and output around libraries; and the
-- memory. Of the engine, the streaming of a reply, the indexing into the memory and the session store
-- are left out.
pub mod Prelude
pub mod RateLimit
pub mod Approval
pub mod Estop
pub mod Provider
pub mod Bus
pub mod Agents
pub mod Pairing
pub mod Ssrf
pub mod State
pub mod Tools
pub mod Otp
pub mod Config
pub mod Heartbeat
