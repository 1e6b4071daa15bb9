-- ===== src/Lib.antt =====
-- Verification of the Keyhole SDK for Python (packages/python/keyhole-sdk/keyhole_sdk): the parts
-- that decide how a governed call is made, how a user is logged in and out, whether the identities
-- of a workstation agree, which commands a server allows, how a run is asked for, waited for,
-- followed and resumed, which runs may be dispatched, how ready a repository is, which names of
-- capabilities are accepted, how a capability is resolved and written down, how a gap is closed, which
-- files are taken in, and what limits an answer reports. Paths below start in that directory.
--
-- Base has what the parts share: Boolean tests on the native numbers and texts, lists, Python's
-- dict as an association list in insertion order, parsed JSON, integers, slices of texts and what
-- stands within them, sorted lists of texts, and texts as lists of code points.
--
-- Transport models transport/*.py. Registry is operation_registry.py (the module's dict, and the
-- built-in operations), Retry is retry.py, Proof is proof_metadata.py, Errors is errors.py. Client
-- has the data of client.py, the headers of a request, and what one attempt makes of its reply
-- (`judge`, for the body of the loop of `GovernedTransport.execute`); Call has the loop
-- (`attempts_from`), the key that is minted and `execute`. A call passes on a `Run`: the world that
-- answers requests, the number of UUIDs drawn, the proof trail, and the requests, replies and sleeps
-- so far. The loop is structural on the attempts that are left, which `max_attempts` gives, so it
-- needs no fuel. Call.Loop is the induction that the results share, and Call.Allowed says case by case
-- what the configuration and the operation allow.
--
-- Auth models sdk_client_25/*.py. Attempts is the registry of login attempts of auth_state.py: each
-- operation holds the lock, so a history is a list of requests; `serve_all` runs it. SignOut is the
-- sign-out of the same file, which cancels the attempts of the registry. FlowSelection is
-- flow_selection.py, Identity is identity_match.py. Device is device_flow.py: the answer that opens
-- a flow and the classification of a poll, and, in Device.Poll, the loop of `poll_for_token`, which
-- asks the registry's `is_superseded` through its callback. A round of that loop takes a unit of
-- fuel; each round that goes on sleeps at least a second or up to the deadline, so that one more
-- unit than the seconds the code lives is enough on a monotonic clock.
--
-- Auth.Refresh is auth_bootstrap/token_refresh.py: the credentials file is a part of the state, so that
-- reading a token gives the file as it is left. It has no loop.
--
-- Host models host/coherence_engine.py with the attestations of doctor/models.py (Coherence),
-- host/reconciler.py (Reconciler), and the diagnoses and the summary of doctor/diagnostics.py and
-- doctor/reconciliation.py (Doctor, with the guidance in Doctor.Guidance). Negotiation models
-- negotiation/*.py: Surfaces is classifier.py and negotiator.py, Commands is evaluator.py, Repair is
-- repair.py.
--
-- Runs models run_lifecycle/*.py. Runs itself is models.py and wait.py: the families of run statuses,
-- and the wait for a terminal one. Runs.Status is status.py, the query that a wait, a tail and a resume
-- take as a parameter; Runs.Repair is repair.py. Runs.Tail is tail.py. Both loops are structural on
-- the polls that are left, so they need no fuel. Runs.Record is record.py, with the directory as a list
-- of files, and Runs.Resume is resume.py over it.
--
-- Alignment models alignment/ranker.py and the items of alignment/models.py: the ranking of guidance
-- and the posture of a repository.
--
-- Dispatch models dispatch/*.py. Models is models.py; Names has the run types and the known mistakes of
-- validator.py, Schemas the table of schema.py. Operations is discovery/operations.py: the registry
-- compares objects by identity, so an operation stands beside its identity. Validator is validator.py;
-- the table of known mistakes is a part of its state, since a validator that is made from an answer
-- appends to the lists of the table. Schema is schema.py, Preflight is preflight.py. RunDispatch models
-- run_dispatch/*.py over it: the request, the checks, and the outcome of an answer or an exception.
--
-- Capability models capability/*.py. Namespace is namespace.py: a name is a list of code points, and the
-- patterns of the parts are their automata. Outcomes and Resolver are resolver.py, Repair is repair.py,
-- and Materializer is materializer.py, where dependencies.yaml and the artifacts are the state.
--
-- Gaps models gap_closure.py: the checks of the answers, Gaps.Payload, and Gaps.Client over a session
-- that threads a world. Ingest models ingest/filter.py, and Validation models
-- validation/compatibility.py. The loops of these parts are structural on lists.
--
-- Budget models budget/*.py: Outcomes has the classes of limits and the class of an answer, Parser the
-- result that is made of it, Repair the guidance. Registration.Readiness models
-- registration/readiness.py.
--
-- Parameters stand for what is not in the repository or is Python's: the requests session, UUIDs,
-- random draws, clocks and sleeping, the parsing of numbers and dates, `str.lower`, `str.isupper` and
-- `str.isalnum`, `str` and `int` of a value, `repr`, the decimal value of a character, the decoding of
-- base64 and JSON, the validation of a token by pydantic, fnmatch and pathlib, git, the credential
-- store and the file system. Times are whole milliseconds, in Auth.Refresh seconds.
--
-- Not modelled: texts of most errors and of fix steps, most projections to dicts, redacted summaries,
-- thread primitives, the listing of recent run records by time, and the parts that only call a server,
-- print, or read and write files: the command line (packages/python/keyhole-cli), the demos, the
-- artifacts, the explain, passport and onboarding parts, and the test runtime (services). The
-- submission of a registration and the reading of a repository's declarations are left out so far.
pub mod Base
pub mod Transport
pub mod Auth
pub mod Host
pub mod Negotiation
pub mod Runs
pub mod Alignment
pub mod Capability
pub mod Budget
pub mod Registration
pub mod Gaps
pub mod Dispatch
pub mod Ingest
pub mod RunDispatch
pub mod Validation
