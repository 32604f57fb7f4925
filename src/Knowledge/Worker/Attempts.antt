-- ===== src/Knowledge/Worker/Attempts.antt =====
-- How the job of src/opsassist/worker.py ends.
use native.Mathlib.Decide.{dec_lt}
use novax_ai_assignment.Base.{
  ℕ, zero, suc, ◌+◌, ◌≤◌, ◌<◌, ◌≡◌, refl, true, false, some, Result, ok, err, arith, String, inl,
  inr, Bool-cases, subst,
}
use novax_ai_assignment.Knowledge.Index.{IngestResult}
use novax_ai_assignment.Knowledge.Ingest.{FailureKind, Failure}
use novax_ai_assignment.Knowledge.Worker.{
  JobStatus, Job, is_permanent, success_status, ingest_document, deliver,
}

abbrev pub IsTransient : Result Failure IngestResult → Type 0
IsTransient (ok r) = ⊥
IsTransient (err f) = is_permanent f.kind ≡ false

-- The status that a last attempt leaves that raised, with the number of attempts.
abbrev pub EndsBy : FailureKind → ℕ → JobStatus → Type 0
EndsBy FailureKind.interrupted attempts status = (attempts ≡ 4) × (status ≡ JobStatus.running)
EndsBy FailureKind.other attempts status = (attempts ≡ 4) × (status ≡ JobStatus.dead)
EndsBy _ attempts status = status ≡ JobStatus.failed

abbrev pub EndsAs : Result Failure IngestResult → ℕ → JobStatus → Type 0
EndsAs (ok r) attempts status = status ≡ success_status r.outcome
EndsAs (err f) attempts status = EndsBy f.kind attempts status

pub record Ends (first : ℕ) (answers : ℕ → Result Failure IngestResult) (job : Job) : Type 0 where
  -- The last attempt, counted from zero.
  pub last : ℕ
  pub attempts : job.attempts ≡ last + 1
  pub at_most : job.attempts ≤ 4
  pub from : first ≤ last
  pub retried : (i : ℕ) → first ≤ i → i < last → IsTransient (answers i)
  pub status : EndsAs (answers last) job.attempts job.status

-- An attempt that is tried again.
attempt-again :
    (retries : ℕ) (a : Result Failure IngestResult) (job : Job)
    → (ingest_document retries a job).1 ≡ true
    → IsTransient a × (retries < 3)
unfolding ingest_document
attempt-again retries (ok r) job h = cc
attempt-again retries (err f) job h = ground arith

failure-last :
    (retries : ℕ) (kind : FailureKind) (name message : String) (job : Job)
    → retries ≤ 3
    → let f : Failure = record { kind = kind; name = name; message = message } in
      (ingest_document retries (err f) job).1 ≡ false
      → let job' = (ingest_document retries (err f) job).0 in
        (job'.attempts ≡ retries + 1) × EndsBy kind job'.attempts job'.status
unfolding ingest_document
failure-last retries FailureKind.policy name message job le h = (refl, refl)
failure-last retries FailureKind.parse name message job le h = (refl, refl)
failure-last retries FailureKind.not_found name message job le h = (refl, refl)
failure-last retries FailureKind.other name message job le h = (refl, (ground arith, ground arith))
failure-last retries FailureKind.interrupted name message job le h = (refl, (ground arith, refl))

-- An attempt that is the last one.
attempt-last :
    (retries : ℕ) (a : Result Failure IngestResult) (job : Job)
    → retries ≤ 3
    → (ingest_document retries a job).1 ≡ false
    → let job' = (ingest_document retries a job).0 in
      (job'.attempts ≡ retries + 1) × EndsAs a job'.attempts job'.status
attempt-last retries (ok r) job le h = unfold ingest_document in (refl, refl)
attempt-last retries (err f) job le h = failure-last retries f.kind f.name f.message job le h

Ends-earlier :
    (retries : ℕ) (answers : ℕ → Result Failure IngestResult) (j : Job)
    → IsTransient (answers retries)
    → Ends (retries + 1) answers j
    → Ends retries answers j
Ends-earlier retries answers j t ends = record {
  last = ends.last;
  attempts = ends.attempts;
  at_most = ends.at_most;
  from = omega (arith, ends.from);
  retried = λ i le lt. earlier i le lt (dec_lt retries i);
  status = ends.status;
}
  where
    earlier : (i : ℕ) → retries ≤ i → i < ends.last → Dec (retries < i) → IsTransient (answers i)
    earlier i le lt (yes h) = ends.retried i (omega arith) lt
    earlier i le lt (no h) =
        subst (λ n. IsTransient (answers n)) {x = retries} {y = i} (omega arith) t

module _ (answers : ℕ → Result Failure IngestResult) where
  deliver_from-Ends :
      (bound retries : ℕ) (job : Job)
      → bound + retries ≡ 4
      → 0 < bound
      → (j : Job) × (deliver bound retries answers job ≡ some j) × Ends retries answers j
  unfolding deliver
  deliver_from-Ends zero retries job e h = absurd (omega arith)
  deliver_from-Ends (suc bound) retries job e h =
      elim (Bool-cases (ingest_document retries (answers retries) job).1) [
        | inl again ↦
            let t = attempt-again retries (answers retries) job again in
            let (j, found, ends) =
              deliver_from-Ends bound (retries + 1)
                (ingest_document retries (answers retries) job).0 (omega arith)
                (omega (arith, t.1)) in
            (j, rw again found, Ends-earlier retries answers j t.0 ends)
        | inr last ↦
            let l = attempt-last retries (answers retries) job (omega arith) last in
            (
              (ingest_document retries (answers retries) job).0,
              rw last refl,
              record {
                last = retries;
                attempts = l.0;
                at_most = omega (arith, l.0);
                from = omega arith;
                retried = λ i le lt. absurd (omega arith);
                status = l.1;
              },
            )
      ]

  -- Whatever the ingestions do, a job is attempted at most four times and then rests. Every attempt but
  -- the last met an error that is not permanent. The last one decides the status: succeeded or unchanged,
  -- as its ingestion answers; failed at a permanent error, at whichever attempt it comes; dead at
  -- another error, and only after the fourth attempt; and running, if the fourth attempt was
  -- interrupted by what is no `Exception`.
  pub deliver-Ends : (job : Job) → (j : Job) × (deliver 4 0 answers job ≡ some j) × Ends 0 answers j
  deliver-Ends job = deliver_from-Ends 4 0 job refl (omega arith)
