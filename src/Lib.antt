-- ===== src/Lib.antt =====
-- AI Data Quality Platform: which customer records are one customer, the review by people that stands
-- between a doubtful pair and a merge, and who may take part in it.
--
-- The program is a pipeline. Entity resolution (entity_resolution/) compares records pairwise, decides
-- each pair AUTO_MATCH, REVIEW or NO_MATCH, and clusters the automatic matches. Human review
-- (human_review/) turns each REVIEW pair into a case, lets a reviewer resolve it once, and refuses a
-- MATCH that contradicts an earlier NO_MATCH or would join records with a severe conflict; the clusters
-- are then built again from both kinds of decision. A reviewer works through an API (review_api/)
-- that knows him by a session (identity/) and grants him one queue of his organization; the queue and
-- its history are stored (review_persistence/), and a service (review_application/) lets the workflow
-- decide on what is stored and writes what it returned. On a pending case a language model may be
-- asked for an advisory suggestion (semantic_review/), within a budget. The
-- components of records are kept in a union-find dictionary that four modules share.
--
-- Files, and the code that they are about:
--   Base: tests, the order of texts by code points, lists used as sets, dictionaries as association
--     lists in insertion order, AllOf, decimal numbers, exceptions as a result type, and floats as
--     IEEE 754 bit patterns, which are only compared.
--   UnionFind: `_UnionFind` of entity_resolution/clustering.py and human_review/constraints.py (a
--     recursive search that compresses the path), and the closures of human_review/integration.py
--     and human_review/authorization.py (a loop that halves the path). Forest, Find, Halving,
--     Union, Collect and Partition prove them against a partition of the ids.
--   EntityResolution: Models (models.py), Conflicts (similarity.py, `collect_pair_conflicts`),
--     Decisions (decisions.py), Severity, Components and Clustering (clustering.py). Grouping and
--     Severity/Totality hold proofs.
--   HumanReview: Models (models.py), Errors, Constraints and MatchComponents (constraints.py),
--     Authorization (authorization.py), Integration (integration.py) and Workflow (workflow.py). Linked
--     says without union-find what the decisions mean: records are linked by a chain of pairs. Guard,
--     Merging, Allowed, Proposal and the modules below these hold proofs.
--   Identity: Clock (clock.py), Sessions (sessions.py), Store
--     (review_persistence/sqlite/session_repository.py with the constraints of
--     review_persistence/identity_schema.py) and SessionService (session_service.py).
--     SessionService/Lifecycle is the state machine of the session table.
--   ReviewApi: Tenancy (review_api/tenancy.py).
--   ReviewApplication: Payload, Models and Bundle (review_application/models.py), History (history.py)
--     and Service (service.py).
--   ReviewPersistence: Rows (review_persistence/sqlite/mapper.py, event_mapper.py), Tables
--     (review_persistence/schema.py and the statements), Context (context_mapper.py), Repository and
--     Registration (review_repository.py). Service/Runs is the step relation of both on one store.
--   SemanticReview: Models (semantic_review/models.py, errors.py), Request (request_builder.py), Policy
--     (policy.py), Budget (budget.py), Attempts (the loop of service.py) and Service
--     (`suggest_for_case`). Attempts/Tries is the loop as a relation, and Service/Spending runs it.
--   Samples: small runs, and each theorem that has hypotheses at one of them.
--
-- State is passed: a method takes the state and returns the new one or the exception, and an
-- exception leaves the old state. Loops over lists are structural. The two searches run on fuel, the
-- number of stored ids and one, and return on every forest, since the parent of an id that is not a root comes
-- before it in the order of texts; an id that is not stored raises KeyError.
--
-- Taken as an argument: what Python computes by tables or by hashing (TextTools: strip, NFC, casefold,
-- the digits of a text and the ratio of difflib; IdentityTools: strip, isspace and SHA-256), the
-- readings of the clock, drawn ids and tokens, the text of a prompt, the sums of costs, and the provider of
-- suggestions, a function of its own state that may raise anything. The loop over the attempts recurs on the
-- attempts left, one more than the configured retries. An instant is its number of microseconds and a
-- stored stamp the second that its text names. Not modelled: the texts of exceptions, Python's
-- limit on recursion, rows that are validated again when they are read (but sessions are), SQLite
-- itself (a transaction is one step), reports, files, the HTTP layer, and the arithmetic of
-- scores, since a decision only compares a score with its thresholds.
pub mod Base
pub mod UnionFind
pub mod EntityResolution
pub mod HumanReview
pub mod Identity
pub mod ReviewApi
pub mod ReviewApplication
pub mod ReviewPersistence
pub mod SemanticReview
mod Samples
