-- ===== src/Lib.antt =====
-- DeepInsight: the deterministic core of the research system.
--
-- The repository is a point-in-time research system for listed assets. Providers' records are stored with
-- the times at which they became known; a research run at a cutoff may use only what was known by then;
-- the runs are jobs of a durable queue; and their results are frozen as research states, which a later
-- run compares with its own. This library models eight parts of it.
--
-- Temporal (src/schemas/temporal.py and src/temporal_mapping.py). Every stored object carries a TemporalMetadata.
--   Temporal/DateTime     datetimes: a wall-clock reading in microseconds and an optional offset;
--                         require_utc_aware and utc_from_storage, with their ValueError and OverflowError
--   Temporal/Metadata     the fields, their normalization and validate_order: temporal_metadata is the
--                         constructor TemporalMetadata(...)
--   Temporal/Access       decide_at is temporal_access_decision at a normalized cutoff;
--                         validate_temporal_access raises for what it does not admit
--   Temporal/Stored       the stored records that src/temporal_mapping.py maps
--   Temporal/Mapping      temporal_metadata_for, a function for each kind of record
--   Temporal/Visibility, Normalized, Guarded, Known, Readings and Sources hold the proofs, Temporal/Examples
--   the tests.
--
-- Jobs (src/repositories/report_jobs.py, src/orchestration/job_queue.py, src/orchestration/report_worker.py,
-- and the report task services of src/api/services.py). The API stores a job and publishes its identifier; the
-- Worker takes an identifier, claims the job, generates the report and ends the job; a restarted Worker
-- returns interrupted jobs to the queue.
--   Jobs/Records          the rows, the statuses, the requests and the answers
--   Jobs/Action           a computation over the shared state (the job table and the Redis list); a World
--                         answers for DuckDB, Redis, the clock, the identifiers and the generator
--   Jobs/Repository, Queue, Worker and Service   one function per method, each SQL statement a function of
--                         the table; a transaction commits or leaves the table as it was
--   Jobs/Events           a history of whole calls, one after another, in any order; calls whose
--                         transactions interleave are not in it
--   Jobs/Tasks            InProcessReportTaskService, its locked blocks as steps of concurrent runs
--   Jobs/Lifecycle        the steps that a job may take, as a relation
--   The other modules hold the proofs, Jobs/Examples and Jobs/TaskExamples the tests.
--
-- Transition (src/services/research_state_transition.py and the schemas that it reads,
-- src/schemas/research_state.py and src/schemas/research_state_transition.py). It uses the access rule of
-- Temporal on every feature, event and memory.
--   Transition/State, Collections      the states, and the Python collections that the builder uses
--   Transition/Validation              the model validators of the schemas
--   Transition/Select                  the point-in-time checks and select_predecessor
--   Transition/Compare, Changes        the comparisons of two states
--   Transition/Outcome                 the transition and its validator
--   Transition/Build                   build_transition
--   The other modules hold the proofs, Transition/Examples the tests.
--
-- Http (src/adapters/http.py). The transport of the public data providers.
--   Http/World            requests, responses, and the events of a client: sent, read a clock, slept; the
--                         outside world answers by the events so far
--   Http/Headers, Payload the checks of the caller's headers, _header, decode_http_payload
--   Http/Client           the constructor, the rate limiter and the sleep before a retry
--   Http/Fetch            get_text and its retry loop, by recursion on the attempts that are left
--   The other modules hold the proofs, Http/Examples the tests.
--
-- Ontology (src/services/sector_ontology.py and its models in src/schemas/sectors.py). The sectors, chains and
-- research scopes that the sector services read.
--   Ontology/Records, Checks   the models; checks that may raise, in sequence; _unique_by
--   Ontology/Scopes            validate_scope_hierarchy; the while loop has a round for each scope and one
--                              more, and is proved to end within them
--   Ontology/Validation, Seed  validate_sector_ontology_seed, and the seed that is installed
--   The other modules hold the proofs, Ontology/Examples the tests.
--
-- Memory (src/memory/retrieval.py and src/memory/contracts.py). The memories that a research run may read; it
-- uses the temporal mapping and the access rule of Temporal on every record.
--   Memory/Records, Matching   the request, the records, and the filters
--   Memory/Screening           the loop over the candidates, with its buckets and counters
--   Memory/Ranking, Bundle     the order of relevance, the sections, the bundle and its validator
--   The other modules hold the proofs, Memory/Examples the tests.
--
-- Clock (src/services/research_clock.py). The cutoff of a run and its market session.
--   Clock/Session         market_session_date; Clock/Latest holds the proof, Clock/Examples the tests
--
-- Episode (src/services/research_episode.py and src/schemas/research_episode.py). The record of one research run;
-- it reads sections as Transition has them.
--   Episode/Records            the traces of the agents, the state's lineage, the input and the episode
--   Episode/Building           ResearchEpisodeBuilder.build up to the construction of the episode
--   Episode/Validation         the validators of a trace and of an episode, and the call as a whole
--   The other modules hold the proofs, Episode/Examples the tests.
--
-- Conventions. A method that may raise returns a value of a result type that names the exceptions. Numbers
-- are natural numbers; datetimes in UTC are counts of microseconds and a date is a count of days, so that no
-- bound is needed. Every function is by structural recursion; the two while loops (of the scope hierarchy and
-- of the market session) are on fuel, with a proof that it is enough. The times of the HTTP client are
-- counts of ticks, a fraction of a second, and scores of memories are places in the order of the scores, so
-- that the rounding of floating-point numbers is not modelled, nor the overflow of a backoff beyond them,
-- nor NaN. A record has the fields that the
-- modelled code reads.
--
-- Parameters. DuckDB, Redis, the clock, the identifier factory and the report generator are answers of a
-- World, as any functions. A command of Redis answers, or raises an error before or after the server has
-- run it, since a RedisError does not tell which; a transaction of DuckDB commits, or raises and is rolled
-- back; an identifier is the primary key of the job table, as src/repositories/schema.py declares it. The digest of a transition, which the code makes with SHA-256 of JSON text, is
-- any function of its content, and the fingerprint of an episode any function of the builder's input.
-- The end of a New York session, from the time zone database, is any function of the date. A number in a feature stands as a code, since the builder only compares
-- values for equality.
--
-- The HTTP transport, the clocks, decompression, UTF-8 and float() are answers of the client's world; the
-- similarity search and the reading of a record are answers of a Backend; the New York reading of an
-- instant is a number that the market session takes.
--
-- Not modelled: the adapters of single providers, the agents and their prompts, the LLM gateway, the numeric operators
-- on floating-point values, the vector store, the HTTP routes and the scripts, which do input and output,
-- depend on services or compute with floating-point numbers; the Timing observations of build_timing; the
-- validators of a memory's retrieval trace; and the patterns and ranges of single schema fields.
mod Prelude
pub mod Temporal
pub mod Jobs
pub mod Transition
pub mod Http
pub mod Ontology
pub mod Memory
pub mod Clock
pub mod Episode
