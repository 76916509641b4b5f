-- ===== src/Lib.antt =====
-- Enterprise Agent (BoThesis): the backend that ingests a company's sources, indexes their content
-- and answers questions with an agent that cites what it found.
--
-- The parts and how they interact. A connector pipeline (backend/bothesis/connector) reads the
-- changes of a source and writes items and chunks to an index. A question reaches the index through
-- the authorization of the actor (backend/bothesis/services/identity_access/authorization.py),
-- which says which Collections may be read; the knowledge query service
-- (backend/bothesis/services/knowledge_query.py) joins it with the retriever of
-- backend/bothesis/knowledge, which filters, reranks and maps what the index answers; the context
-- builder renders the evidence for the model; the agent bounds the conversation that the model sees
-- and the tools it may call; and the citation stream of backend/bothesis/agent turns the markers of
-- the model's answer into numbers and annotations of that evidence. An approval request that is
-- approved grants a Collection role, which authorization then reads; the state of an OAuth
-- authorization travels encrypted through the provider that a source is connected to.
--
-- Which file models which part:
--   Access                      AuthContext, the tables and the tenant guard
--                               (backend/bothesis/services/__init__.py, backend/bothesis/db/models.py)
--   Access/Authorization        AuthorizationService: permissions_for_item, require_item,
--                               allowed_collection_ids, governing_collection_id, _ancestry,
--                               _principal_match. Grants, Inherited, Descent, Allowed and Required
--                               below it hold the proofs
--   Access/Approvals            ApprovalRequestService (backend/bothesis/services/approval_request.py):
--                               Targets and Requests hold the operations, Effects, Decided, Table and
--                               Pending the proofs
--   Access/KnowledgeQuery       KnowledgeQueryService.search and _result_payload; `search_knowledge`
--                               is `search`
--   Access/RoleAssignments      RoleAssignmentService
--                               (backend/bothesis/services/identity_access/role_assignments.py);
--                               Granted and Effective hold the proofs, the latter with the
--                               rows as authorization reads them
--   Agent/Citation              _process_citation_buffer and CitationReferences
--                               (backend/bothesis/agent/citation_stream.py, agent/models/__init__.py);
--                               Markers and Numbers hold the proofs
--   Agent/Citation/Projection   CitationProjection: project, _delta, _flush, _push,
--                               _citation_events, _message, _merged, _value
--   Agent/Context               ContextManager.window, relevant_window, relevant_resources
--                               (backend/bothesis/agent/context_manager.py)
--   Agent/Orchestrator          ToolOrchestrator.execute
--                               (backend/bothesis/agent/tools/core/orchestrator.py)
--   Agent/Protocol              items, responses and stream events (backend/bothesis/agent/protocol)
--   Agent/Reducer               ResponseReducer (backend/bothesis/agent/reducer.py): State, Writes and
--                               Apply hold it, the other children the proofs
--   Agent/Sampling              sample (backend/bothesis/agent/sampling.py)
--   Agent/Session               the tools of a step (backend/bothesis/agent/session.py), and the turn
--                               with them; Answers holds the proofs
--   Agent/Tools                 _matches_schema is Schema, ToolRegistry and ToolRouter are Registry
--                               (backend/bothesis/agent/tools/core); Typing, Sound and Exposed hold
--                               the typing rules and the proofs
--   Agent/Turn                  run_turn (backend/bothesis/agent/turn.py)
--   Connector/Pipeline/Checks   _deduplicate_changes, the checks of _load_item and _chunks_for
--                               (backend/bothesis/connector/pipeline.py)
--   Connector/Pipeline/Run      ConnectorPipeline.run_scope, its loops and its report; Accounting,
--                               Reported, Allowed and Sink hold the proofs
--   Integration/OauthState      OAuthStateCodec (backend/bothesis/integrations/oauth_state.py);
--                               RoundTrip holds the proofs
--   Knowledge/ContextBuilder    EvidenceContextBuilder (backend/bothesis/knowledge/context_builder.py)
--   Knowledge/Retriever         ItemKnowledgeRetriever (backend/bothesis/knowledge/retriever.py)
--   Knowledge/Reranker          SemanticReranker (backend/bothesis/knowledge/semantic_reranker.py)
--   Knowledge/SemanticSearch    the retriever with the semantic reranker, as runtime.py joins them
--   Base                        Python's str, dict and list operations, JSON values, exceptions as
--                               results, a state monad for calls with effects, stable sorting
--
-- State and operations. Mutable objects are records that an operation takes and returns; an
-- exception is the `err` of a result; calls into other systems are functions over a world, or
-- parameters. UUIDs are numbers, strings are lists of code points, scores have a type with a weak
-- order.
--
-- Bounds and fuel. The loop over citation markers has as many rounds as the buffer has characters,
-- and one more; a round that goes on has taken a marker off. A recursive query of authorization
-- runs `depth` rounds; the theorems ask for a tree of Items that is at most so deep, since the
-- query for the ancestors would not stop on a cycle. The loop of a turn stops itself at a limit of
-- model requests; its fuel is more than those that are left, or than the tool rounds that are left. The
-- retries of a sampling request have fuel for every attempt. Every other loop is structural. Sizes
-- are natural numbers, as Python's are unbounded.
--
-- Not modelled: the settings and the hosted execution of a session, and the part of the context
-- manager that selects tool interactions and renders instructions; workflows, uploads, integration
-- connections, conversations and the identity services besides role assignments; the list of
-- approval requests; the provider connectors, Qdrant, storage and transports, which are I/O; the
-- HTTP API and the user interfaces. Durations, logging and telemetry are left out where they occur
-- in modelled code, and the loads of one batch of the pipeline, which run concurrently, are taken
-- in the order of the changes.
pub mod Base
pub mod Access
pub mod Agent
pub mod Integration
pub mod Knowledge
pub mod Connector
