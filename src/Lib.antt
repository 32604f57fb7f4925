-- ===== src/Lib.antt =====
-- opsassist, an internal assistant of a company: questions are routed to its documents or to tools,
-- language models are called through a gateway, and every action of a tool is authorized, audited and,
-- where it is sensitive, approved by a second person.
--
-- How the parts interact. The agent's router (Agent) decides what to try: an answer from documents, a
-- tool, or a refusal. A tool runs through the executor (Tools), which asks the identity of the caller
-- (Policy.Auth), the scope of documents (Policy.Access) and the registry of tools, and appends to the
-- audit chain (Policy.Audit, Policy.Redact). The router, the answers and the summaries of conversations
-- (Memory) call models through the gateway (Gateway), which resolves a route in the catalogue, asks a
-- circuit breaker per model, retries and falls back. Documents become chunks in an index of versions,
-- which a worker keeps and a scoped search reads (Knowledge). A turn of a conversation (Chat,
-- Conversations) stores the question, takes the route, and answers from what the search finds, at once
-- or as a stream. Requests pass a limiter of rates (Ratelimit) first.
--
-- Where each part is modelled:
--   * Base: names of the libraries, tests, lists, results and texts.
--   * Gateway.Errors: src/opsassist/providers/base.py: the kinds of errors are the subclasses of
--     `ProviderError`.
--   * Gateway.Breaker: src/opsassist/gateway/resilience.py: `delay`, `state`, `allow`,
--     `record_success`, `record_failure`; the clock is an argument.
--   * Gateway.Catalog: src/opsassist/gateway/catalog.py: `validate` is `_validate_references`.
--   * Gateway.Records, Gateway.Run, Gateway.Calls: src/opsassist/gateway/gateway.py: `run` is `_run`,
--     one definition per block of its loop; `chat` and `embed` call it. A `World` holds the clock, the
--     breakers, the requests sent and the attempts recorded, and is passed from step to step.
--   * Gateway.Stream: `stream_chat` of the same file: `relay` is the loop over the items of one stream,
--     a finite list that ends where the provider's stream does.
--   * Policy.Redact, Policy.Audit: src/opsassist/policy/audit.py and the test of sensitive keys in
--     src/opsassist/logging_setup.py.
--   * Policy.Auth: src/opsassist/auth.py. Policy.Access: src/opsassist/policy/access.py.
--   * Tools.Registry: src/opsassist/tools/registry.py. Tools.Store: rows of
--     src/opsassist/db/models.py, in a `Db` that one transaction turns into the next.
--   * Tools.Handlers, Tools.Execute, Tools.Approve: src/opsassist/tools/executor.py: the handlers,
--     `run_tool`, `approve_pending` and `reject_pending`, one definition per stage.
--   * Tools.Moves: the executor as an abstract machine on pending actions and VPN profiles; each call
--     makes one move. Tools.System: calls, the passing of time and changes of users in any order.
--   * Agent.Intent, Agent.Route: src/opsassist/agent/intent.py, the checks of a message in the registry,
--     and `classify` of src/opsassist/agent/graph.py; Route.Triggers: what the identifiers in a question
--     call for. Agent.Nodes: `tool_node` of that file, where the answer
--     that langgraph resumes it with is an argument, since a resumed node runs again from its start.
--   * Ratelimit: src/opsassist/ratelimit.py: the script of the bucket, `check`, the middleware.
--   * Memory.Preferences, Memory.Window: src/opsassist/memory.py.
--   * Knowledge.Chunking: src/opsassist/knowledge/chunking.py. Knowledge.Index: the tables of documents
--     and chunks with the transactions of src/opsassist/knowledge/ingest.py (`swap`, `deactivate`) and
--     `touch_provenance` of src/opsassist/knowledge/upload.py; Refined is a library of publications, the
--     abstract view of them. Knowledge.Ingest: `ingest_file` of the same file. Knowledge.Worker:
--     src/opsassist/worker.py: `deliver` is the broker that retries `ingest_document`.
--   * Knowledge.Retrieval: src/opsassist/knowledge/retrieval.py: `gate` is the part of `retrieve` after
--     the searches.
--   * Config: the order of classifications and `allows_egress` of src/opsassist/config.py.
--   * Agent.Rag: src/opsassist/rag.py. Agent.Service, Agent.Answers: src/opsassist/agent/service.py.
--   * Conversations: src/opsassist/conversations.py. Chat: src/opsassist/api/chat.py: Chat.Turn is
--     `chat`, Chat.Stream is `chat_stream`, whose generator is a `Flow` of states that goes on or
--     leaves its body; the client reads as many events as an argument says.
--   * Gateway.Stream.Opened: `stream_chat` with its choice of targets, as its callers see it.
--
-- Conventions. Numbers are natural; times and durations are in one unit, prices are kept per million
-- tokens, tokens of a bucket in sixtieths, so that nothing is rounded: the script of the limiter
-- computes in doubles, where a request that waited as it was told can be refused again by a rounding.
-- The utilisation of a server, a float in the code, is a natural number. An exception that escapes a
-- transaction is `none` with the database as it was. A lock makes a call one step. What lies outside
-- the code is a parameter: providers, the clock, randomness, other requests (`Env`), pydantic, SHA-256,
-- `LIKE`, retrieval and Python's methods on texts, `repr` among them (`Externals`, `Reading`, `Texts`),
-- the digest of the audit chain (`Hashing`) and JSON Web Tokens. The loop over attempts runs on
-- `max_attempts`, the loops over targets, rows and units on their lists, and the digits of a number `n`
-- on `n + 1`, which no number of digits exceeds; batches of embeddings are counted before their loop.
-- Only `deliver` has a bound of its own, four deliveries, since the broker's retries end by the code's
-- test; the result on it says that four are enough. No other definition can run out of fuel. A
-- similarity is in millionths and counted from -1; a score of the rank fusion is in units of 10 ^ -18,
-- rounded down. The log of requests sent starts empty at each call of a model and is kept behind the
-- earlier ones. The world after a stream that the client leaves is not kept, nor are the metrics.
--
-- Not modelled: within the gateway, a client of `stream_chat` that goes away while it handles an event;
-- exceptions of the database inside a turn, and of the validation of what a turn or a stream answers
-- (`ToolOut`, `RetrievalOut`); the nodes that only name their route; `parse_file`,
-- `normalize_markers` and `repoint_citations`, which are arguments; uploads; the other HTTP routes and
-- the schemas; the adapters of the providers, the other settings and the metrics; the command line of
-- the ingestion, the evaluation, the migrations and the scripts.
pub mod Base
pub mod Config
pub mod Gateway
pub mod Policy
pub mod Tools
pub mod Memory
pub mod Ratelimit
pub mod Agent
pub mod Conversations
pub mod Chat
pub mod Knowledge
