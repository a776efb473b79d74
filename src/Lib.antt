-- ===== src/Lib.antt =====
-- Search over the documents of a tenant that shows a subject only what the subject may see, and the
-- analysis of natural-language questions in front of it.
--
-- A request names a subject by its headers (internal/auth). An analyzer (internal/semantic) turns a
-- question into a query of filters, a sort and a page. The search service (internal/search)
-- canonicalizes and validates the fields of the query against the contracts (internal/contracts),
-- which read the schema registry (internal/schema), asks the store (internal/store) for candidates
-- of the tenant, asks the policy engine (internal/policy) about each candidate, and answers with the
-- documents that are allowed and with placeholders for the others. A question that is mostly an
-- identifier (internal/identifier) is answered by a plan of lookups instead. The handlers
-- (internal/http) choose between the two. The engine keeps the grants of a subject in a cache
-- (internal/cache) that goroutines share.
--
-- Which file models what:
--   Common, Strings, Json: what the program uses of the language and its library: results with
--     errors, maps as association lists, sets as lists of keys, texts, decimal numbers, JSON values
--     and their text.
--   Regex: Go's regexp package over the classes that the program writes: the syntax of an
--     expression, a matcher that answers the leftmost match with its groups, and the sets of texts
--     that it matches.
--   Cache: GrantsCache of internal/cache/grants_cache.go; Cache/Interleaving has the critical
--     sections as steps of one system.
--   Policy: SQLiteEngine of internal/policy/sqlite_engine.go, with the cache as state that Evaluate
--     passes on.
--   Schema: the types of internal/schema/types.go; Schema/Registry and Schema/Patterns are New and
--     the lookups of registry.go, Schema/Ecommerce the definition of ecommerce.go.
--   Contracts: ValidateField and NormalizeField of internal/contracts.
--   Store: the types of internal/store/types.go; Store/Sqlite and Store/Sqlite/Queries are the
--     adapter of internal/store/sqlite, Store/Mongo the stub of internal/store/mongo.
--   Search: Service of internal/search/service.go: canonical queries and reason codes in Search, the
--     operations in Search/Filtering, the request tokens in Search/Tokens.
--   Semantic: the types, the router and the gates of internal/semantic; Semantic/Merging is the
--     merge of two analyses and Semantic/Refined the analyzer that refines one by another,
--     Semantic/Remote the checks on a model's answer, Semantic/Chain the routed analyzer of
--     rewrite_intent_router.go.
--   Semantic/Framing, Semantic/Model, Semantic/Local: the framer and the rule analyzer
--     (intent_framer.go, analyzer_rule.go) and the analyzer on a local model with its guardrails
--     (analyzer_slm_local.go).
--   Semantic/Gateway, Semantic/Superlinked, Semantic/Mock: the gateway and the two analyzers on
--     candidates (superlinked_gateway.go, analyzer_superlinked.go, analyzer_superlinked_mock.go).
--   Parser: ParseNaturalLanguage of internal/semantic/parser.go and the slots of slots.go: Patterns
--     has the identifiers in a message, Cues the words it looks for, Normalize the clean-up, Slots,
--     Filters and Parse the rest.
--   Identifier: internal/identifier: Patterns and Detect find identifiers, Shape sorts queries by
--     shape, Resolve plans lookups.
--   Http: internal/http/server.go: Http/Interpret is handleQueryInterpret, Http/Responses its
--     responses, Http/Lookups the parallel lookups of tryIdentifierFastPath, Http/Flow the stages
--     told under debug, Http/Handlers the other handlers.
--   Observability: the metrics of internal/observability/metrics.go.
--   Auth: SubjectFromRequest of internal/auth/supertokens.go.
--   The other files hold the theorems of the module above them; Tests holds them at concrete inputs.
--
-- State and effects: time is an argument; the state of the engine is passed on, and by the handlers
-- the metrics too; the order in which parallel lookups arrive is an argument; a call that can fail
-- gives a Result whose error is the message. The order in which Go ranges over a map of phrases and
-- the text of a time some days ago are a Setting. What the databases answer to a statement, what a
-- model or a provider returns when it is told a deadline, base64, the keyed hash and the JSON text
-- of a token are parameters, with what is assumed of them in records (SameFor, Carries). A provider
-- is called synchronously, as callProviderWithTimeout does: one that never returns is not modelled.
-- SameFor speaks of the statements that Store/Sqlite/Statements.antt writes down by their text.
--
-- Numbers: counts are natural numbers; the page limit, the cursor and latencies are integers; a
-- cursor is read as strconv.Atoi does, with its range of 64 bits. An offset so near to 2^63 that
-- adding a count wraps around is not modelled. Confidences are in hundredths. The fuel of the
-- decimal digits of a number is one more than the number; a repetition in a regular expression has
-- as many rounds as the text has bytes, and so has the search for all matches, one more: every round
-- that counts takes a byte.
--
-- Not modelled: case folding outside ASCII, the text of a JSON number (held as it is written), the
-- expressions of the schema and of a configuration (held by their text), the order in which other
-- maps are ranged over, the sharing of slices between queries, the fusion of candidates by
-- HybridCandidateRetriever and the embeddings, both on floating-point numbers, the prompts, the text
-- of HTTP bodies and the routing of requests, trace ids, and the programs under cmd.

pub mod Common
pub mod Strings
pub mod Json
pub mod Cache
pub mod Policy
pub mod Schema
pub mod Contracts
pub mod Store
pub mod Search
pub mod Auth
pub mod Http
pub mod Identifier
pub mod Observability
pub mod Parser
pub mod Regex
pub mod Semantic
pub mod Tests
