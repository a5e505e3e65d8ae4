-- ===== src/Lib.antt =====
-- SightStalker: browser sessions with persisted state, run one at a time per profile.
--
-- A caller opens a session context of the lifecycle layer, which takes the profile lock, prepares the
-- directories, restores the browser state, launches an engine and creates a context; on exit it captures
-- the state, closes everything and builds the records that the persistence layer stores. Diagnostics are
-- captured from an open context. What goes wrong is classified for the operator by the resilience layer,
-- whose messages go through the redaction layer.
--
-- * Models and its children are `src/sightstalker/models/`: records for the pydantic models, data types for
--   the literals, and the identifier patterns. A Python value that holds JSON is `Json`; `secret` is a
--   `SecretStr`. A `str` is the list of its code points, a time is a number of ticks.
-- * Errors are the exception classes of all layers, as far as the code tells them apart: the taxonomy of
--   `src/sightstalker/resilience/errors.py`, `CliError`, and the rest by class. Prelude.Raising and Exec hold the
--   result of code that may raise, without and with a state.
-- * Ids is `src/sightstalker/ids.py` and `src/sightstalker/sessions/ids.py`.
-- * Sessions is `src/sightstalker/sessions/manager.py`. Sessions.Collaborators are what the constructor is
--   given (engine, state store, lock manager, paths) with the clock: each call may raise, and answers from an
--   unknown world. Sessions.Manager.State holds the attributes of `ManagedSessionContext` with the list of
--   the calls made; Enter is `__aenter__`, Exit is `__aexit__`, a definition for each private method or
--   numbered step. Trace says what of the calls the theorems count: what is open, and under which lock.
--   Sessions.Paths is `src/sightstalker/sessions/paths.py` and Sessions.StateStore `state_store.py`, over Artifacts.
-- * Security.Redaction is `src/sightstalker/security/redaction.py` and Security.Operator is
--   `src/sightstalker/resilience/operator_redaction.py`. What the `re` module substitutes and `str.lower`
--   returns are the fields of a parameter, `TextLibrary`.
-- * Resilience is `src/sightstalker/resilience/`: Operator is `models.py` and `operator.py`, Native the
--   constructor of `errors.py`, Classification `classification.py`, and Retry `retry.py`, with the retrying of
--   tenacity as a parameter that has the laws of its documentation.
-- * Diagnostics is `src/sightstalker/diagnostics/`: Suffix is `paths.py`, Recorder the persistence step of
--   `recorder.py`, and Tracing the trace handle of `tracing.py`; the number of its calls of `stop_tracing` is
--   kept in the state.
-- * Environment is `src/sightstalker/environment/`: Services holds the default selector, store and applicator,
--   Resolver the default resolver over any services.
-- * Ops is `src/sightstalker/ops/runs.py`: Modes the effective session of a run, with and without a resolver,
--   Extra the check of a plan's extra output, and Failures what `execute_managed_run` and `_persist_run` raise
--   when a phase fails.
-- * Artifacts is `src/sightstalker/artifacts/`: FileSystem is what the package relies on of the operating system,
--   calls over an unknown world with their laws; Mime, Paths and Manager are the files of those names.
--   `ArtifactPaths._root`, resolved once in the constructor, is a parameter. A read is one call with the four
--   outcomes that the code tells apart.
-- * Persistence is `src/sightstalker/persistence/`: Stored, Config and Rows are `serialization.py` with the columns of
--   `models.py` (Config the projection of a session's configuration, Rows.Write and Rows.Read the rows), and
--   Repositories is `repositories.py`, a module for each of its classes. The `json` module and SQLAlchemy's session are
--   parameters with laws: a stored text and a database are of unknown types.
--
-- No definition runs on fuel: the only loops go over a text or a list, and that of tenacity is a parameter.
-- Numbers are natural numbers; the code's are Python's and do not overflow. An await is a call: what other
-- tasks do meanwhile is in the unknown world. Cancellation is an exception like the others, raised by the
-- call that is awaited; an acquisition of the lock that is cancelled counts as not made.
--
-- Not modelled: pydantic's validation apart from the identifiers, exit codes and attempt bounds, and
-- with it the stripping of white space off the texts of the records; delays between attempts; what
-- SQLAlchemy, the file system and the engines do; the migrations; the locks of profiles, which the
-- lifecycle takes as a collaborator; the command line; the order of the phases of
-- `execute_managed_run`.
mod Prelude
pub mod Models
pub mod Errors
pub mod Ids
pub mod Exec
pub mod Security
pub mod Sessions
pub mod Diagnostics
pub mod Resilience
pub mod Environment
pub mod Ops
pub mod Artifacts
pub mod Persistence
