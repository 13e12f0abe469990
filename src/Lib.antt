-- ===== src/Lib.antt =====
-- SyaRA is a Go service that answers questions on the Shariah rules of banking. A question comes in
-- over HTTP through the rate limiter (internal/api/middleware), the orchestrator (internal/agent)
-- retrieves chunks of the regulations (internal/rag, internal/storage), puts them and the
-- conversation's history into a request, and runs a language model (internal/llm) in a loop with the
-- tools of the registry (internal/tools). Documents reach the store through crawlers, a processor
-- and the chunker (internal/chunker); clients learn of new ones through a websocket hub
-- (internal/realtime).
--
-- The files, and what they model:
--   Base            what the modules share: tests, lists on native numbers, texts as lists of bytes,
--                   maps as association lists, the functions of package strings, sorting
--   Tools/Registry  internal/tools/registry.go: `Registry` with `register`, `unregister`, `execute`,
--                   `get_execution_stats` and the rest, each the method of that name; theorems in
--                   Tools/Names, Window, Recent and Stats
--   Llm/Provider    internal/llm/provider.go and anthropic.go: requests, replies and their readers
--   Llm/Fallback    internal/llm/fallback.go: `parse_tool_calls_from_text` and
--                   `process_fallback_response`
--   Agent/Loop      internal/agent/orchestrator.go: `execute_agentic_loop`; theorems below it
--   Agent/Prompt, Agent/Process
--                   internal/agent/orchestrator.go: `build_messages`,
--                   `extract_citations_from_chunks`, and `process` around the loop
--   Agent/Memory    internal/agent/memory.go: `Memory` with `get_history`, `save_message`, `save`,
--                   `clear`, `get_context_messages` and the topics of `Summarize`
--   Rag             internal/rag/context_builder.go: `build` and `deduplicate_chunks`, and in
--                   Rag/ContextBuilder/Prompt `build_prompt`, `build_citation_text` and
--                   `get_included_document_ids`; the fusion of retriever.go and, in
--                   Rag/Retriever/Search, `retrieve`; the metrics of
--                   evaluation/metrics.go in Rag/Evaluation; `process_query` of
--                   query_processor.go in Rag/Query; the retrieved chunk of
--                   internal/storage/vector_store.go
--   Api/RateLimit   internal/api/middleware/ratelimit.go: `middleware`, the in-memory and the Redis
--                   store behind one record of operations
--   Chunker         internal/chunker/chunker.go: `chunk_text` and `chunk_pages` with the sections,
--                   the splitting by paragraphs, sentences and words, and the overlap
--   Embedder        internal/embedder/embedder.go: the cache with `get` and `set`, and `embed_batch`
--                   with its batches and `embed_batch_with_retry`
--   Visual          internal/visual/citation_builder.go: `build_citations` with the grouping by
--                   pages, `build_single_citation`, the links and `create_snippet`
--   Storage/Cache   internal/storage/cache.go: the cache manager, over its interface of Redis
--   Realtime/Hub    internal/realtime/websocket.go: the hub as a step relation on its states
--   Realtime/Events, Realtime/Worker, Realtime/Invalidator, Realtime/Fetch, Realtime/Detector
--                   internal/realtime/nats.go, worker.go, cache.go and detector.go: the events,
--                   the handlers of the worker pool, the invalidation of cached answers, and
--                   the checks of the monitored sources
-- A module Tests holds runs at concrete inputs and the theorems at such inputs.
--
-- State is passed explicitly: a method takes the struct's record and gives it back, and what lies
-- outside (clock, random identifiers, database, Redis, tools, model) acts on an abstract world.
-- Each critical section under a mutex is one step. The database, Redis, the tokenizer, the model and
-- the matches of regular expressions are parameters; float64 is an abstract type with an
-- order. Errors are values. Loops over lists recurse on the list; the agentic loop recurses on the
-- rounds that MaxToolCalls leaves; the digits of a number recurse on fuel, its value and one, which
-- is more than it has digits. An int is a natural number where the code never makes it negative, and
-- the signed type of Base/Int where the code tests for a sign; counters of 64 bits wrap where they
-- are uint64 and are taken not to overflow where they are int64. White space and letters are ASCII.
--
-- Not modelled: the crawlers, the drawing of images and the cutting of PDFs, the SQL and object
-- stores, the HTTP handlers, the providers' clients, the configuration and the commands, which are
-- calls of libraries outside the repository; the benchmarks, the
-- search tools, and the start and stop of the workers of internal/realtime. The scan of Redis keys
-- takes fuel; its theorem asks for as many rounds as the cursor needs. The loop that collapses the
-- spaces of a snippet takes the text's length as fuel, since each round shortens it.
pub mod Base
pub mod Tools
pub mod Llm
pub mod Agent
pub mod Rag
pub mod Api
pub mod Chunker
pub mod Realtime
pub mod Embedder
pub mod Visual
pub mod Storage
