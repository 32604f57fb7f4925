-- ===== src/Knowledge/Worker.antt =====
-- src/opsassist/worker.py: the row of a job under the attempts of `ingest_document`. The broker delivers a
-- message whose actor raised again, with one more retry, while `_should_retry` says so.
pub mod Attempts
use novax_ai_assignment.Base.{
  ℕ, zero, suc, ◌+◌, String, Bool, true, false, not, ◌&&◌, Option, none, some, ltb, leb, join, show,
  take_chars, Result, ok, err, if◌then◌else◌,
}
use novax_ai_assignment.Knowledge.Index.{IngestOutcome, IngestResult}
use novax_ai_assignment.Knowledge.Ingest.{FailureKind, Failure}

abbrev pub max_retries : ℕ
max_retries = 3

pub data JobStatus : Type 0 where
  queued running succeeded unchanged failed dead : JobStatus

-- A row of `IngestionJob`.
pub record Job : Type 0 where
  pub id : ℕ
  pub source_path : String
  pub status : JobStatus
  pub attempts : ℕ
  pub doc_key : Option String
  pub version : Option ℕ
  pub detail : Option String

-- The row that `enqueue_ingestion` writes.
unfoldable pub enqueued : ℕ → String → Job
enqueued id path = record {
  id = id;
  source_path = path;
  status = JobStatus.queued;
  attempts = 0;
  doc_key = none;
  version = none;
  detail = none;
}

-- `isinstance(exc, PERMANENT_ERRORS)`
unfoldable pub is_permanent : FailureKind → Bool
is_permanent FailureKind.policy = true
is_permanent FailureKind.parse = true
is_permanent FailureKind.not_found = true
is_permanent _ = false

-- `_should_retry`
unfoldable pub should_retry : ℕ → FailureKind → Bool
unfolding is_permanent
should_retry retries kind = ltb retries max_retries && not (is_permanent kind)

unfoldable pub failure_status : ℕ → FailureKind → JobStatus
unfolding is_permanent
failure_status retries kind =
    if is_permanent kind
    then JobStatus.failed
    else if leb max_retries retries
    then JobStatus.dead
    else JobStatus.queued

-- The `except Exception` clause, which an interruption passes by.
unfoldable pub note_failure : ℕ → Failure → Job → Job
unfolding failure_status
note_failure retries f job = elim f.kind [
  | FailureKind.interrupted ↦ job
  | _ ↦ record job {
    status = failure_status retries f.kind;
    detail = some (take_chars 500 (join f.name (join ": " f.message)));
  }
]

unfoldable pub success_status : IngestOutcome → JobStatus
success_status IngestOutcome.indexed = JobStatus.succeeded
success_status IngestOutcome.unchanged = JobStatus.unchanged

unfoldable pub note_success : IngestResult → Job → Job
unfolding success_status
note_success r job = record job {
  status = success_status r.outcome;
  doc_key = some r.doc_key;
  version = some r.version;
  detail = some (join (show r.chunks) " chunks");
}

-- `ingest_document`, where the message was retried so often: the row, and whether it is tried again.
unfoldable pub ingest_document : ℕ → Result Failure IngestResult → Job → Job × Bool
unfolding note_failure note_success should_retry
ingest_document retries (err f) job =
    let started = record job { status = JobStatus.running; attempts = retries + 1 } in
    (note_failure retries f started, should_retry retries f.kind)
ingest_document retries (ok r) job =
    let started = record job { status = JobStatus.running; attempts = retries + 1 } in
    (note_success r started, false)

-- The deliveries of a message; `answers` gives what each attempt's ingestion does. None is that the
-- bound on the deliveries is used up.
unfoldable pub deliver : ℕ → ℕ → (ℕ → Result Failure IngestResult) → Job → Option Job
unfolding ingest_document
deliver zero retries answers job = none
deliver (suc bound) retries answers job =
    let (job', again) = ingest_document retries (answers retries) job in
    let rest = deliver bound (retries + 1) answers job' in if again then rest else some job'
