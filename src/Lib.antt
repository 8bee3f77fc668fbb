-- ===== src/Lib.antt =====
-- Verification library of the backend: models of its core logic and theorems on them. The backend
-- answers support requests. A message is analysed into an intent; the router picks a handler for it
-- by the analysis, the policy engine decides what of the handler's reply may be sent, and the
-- escalation service decides whether a person follows up; the assistant service runs these in order
-- and records the exchange in its conversation. A socket answers questions through the same service
-- and sends the answer in pieces. Handlers look things up through an agent loop or a workflow, both
-- of which call tools through one executor. Work that can wait goes to the job queue, whose worker
-- runs handlers of its own. Rate limits, realtime tickets and the context window guard what reaches
-- these parts.
--
-- Which file models which part, with paths from the repository's root:
--   Jobs/Base       backend/app/jobs/base.py, errors.py: jobs, their names and payloads
--   Jobs/Memory     backend/app/jobs/memory.py: the in-memory queue; each method of
--                   `InMemoryJobQueue` is a function from the queue to the queue and what it returns
--   Jobs/Handlers   backend/app/jobs/handlers.py: the registry of handlers
--   Jobs/Worker     backend/app/jobs/worker.py: `run_once` and `drain`
--   Jobs/Redis      backend/app/jobs/redis_queue.py: the queue on a server, which is a parameter, as
--                   a refinement of the queue in memory
--   RateLimit       backend/app/ratelimit: the in-memory limiter; `check` takes the time and the
--                   key and gives the decision and the counters
--   Tickets         backend/app/auth/tickets.py: the in-memory ticket store; Tickets/Redis the one of
--                   redis_tickets.py, as a refinement of it
--   Auth            backend/app/auth/identity.py, authorization.py, providers.py
--   Context         backend/app/services/context.py, and the estimate of conversation.py
--   Conversations   backend/app/services/conversation.py, models/conversation.py: turns and their
--                   positions, over a database session whose statements are a parameter with laws
--   Tools           backend/app/tools/results.py, registry.py, execution.py
--   Intent          backend/app/schemas/intent.py
--   Policy          backend/app/policy/rules.py, enforcement.py and library.py (Policy/Shipped
--                   and, for the patterns of its rules, Policy/Patterns)
--   Routing         backend/app/routing/handlers.py, registry.py, router.py
--   Escalation      backend/app/escalation/criteria.py and handoff.py
--   Assistant       backend/app/services/assistant.py: the pipeline; `respond` gives the state of
--                   the database beside the reply or the error
--   Realtime        backend/app/realtime (envelope.py, connection.py, answers.py, pipeline.py,
--                   conversations.py) and backend/app/api/v1/realtime.py: frames, the registry of
--                   connections, the streamed answers and the life of a socket
--   Agent           backend/app/agent/state.py and loop.py
--   Workflows       backend/app/workflows/definition.py, execution.py, library.py
--   Observability   backend/app/observability/metrics.py, cost.py, spans.py and tracer.py
--   Knowledge       backend/app/services/answer.py, backend/app/rag/chunking.py and
--                   backend/app/routing/intent_handlers.py
--   Evaluation      backend/app/evaluation/cases.py, checks.py, results.py, runner.py
-- Common, Dict, Names and Text hold what these share: Boolean tests on numbers, keys, lists,
-- results, Python's dict in insertion order, the characters of names, and operations on texts. In
-- each part the child modules hold the theorems and are named for what they prove; Tests has runs
-- on concrete inputs.
--
-- State is passed explicitly: an operation takes the state of its object and returns the new one.
-- An exception is an `err` of `Result`, or a value of the type that says how foreign code ended.
-- Foreign code is a parameter: the JSON codec, pydantic's validation, the work of handlers, tools
-- and rules, the language model, the search of documents, the review queue, the database session,
-- the streaming provider, the clock and random identifiers. What is sent to a client goes over a
-- line that takes some number of frames before the client is gone. Times are natural numbers of a
-- tick as fine as one likes, in place of floats; confidences are numbers on a scale of one's
-- choice, money is counted in microdollars.
--
-- Fuel: the drain of the worker is on the limit that the source has itself. The loop of the agent
-- has `max_tool_calls + 1` rounds, which is enough, since each round that does not return records a
-- tool call and a spent budget returns. All other loops recurse on the list they go through.
--
-- Not modelled: the Redis limiter, what a server that becomes unavailable in the middle of a call
-- is left with, the shipped evaluation suites, embeddings and vector search; the other database
-- services, the migrations, the HTTP API and the configuration, which are declarations and calls of
-- frameworks; the clients of language models; the frontend. Log lines, metrics and durations are
-- left out of the parts that are modelled.
pub mod Common
pub mod Dict
pub mod Names
pub mod Text
pub mod Auth
pub mod Conversations
pub mod Assistant
pub mod Realtime
pub mod Evaluation
pub mod Knowledge
pub mod Jobs
pub mod RateLimit
pub mod Tickets
pub mod Context
pub mod Tools
pub mod Intent
pub mod Policy
pub mod Routing
pub mod Escalation
pub mod Agent
pub mod Workflows
pub mod Observability
