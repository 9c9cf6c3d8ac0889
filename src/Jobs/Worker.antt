-- ===== src/Jobs/Worker.antt =====
-- `run_once` of src/sub2api_mcp/jobs.py: a claimed job, its handler, and how the job ends. The
-- argument `handler` is the registered handler's result, none where no handler is registered, and
-- `meanwhile` is what others do to the table while the handler runs.
use sub2_ddq.Prelude.{
  ℕ, ◌≡◌, refl, Bool, true, false, Option, none, some, List, [], ◌∷◌, map, Text, codes, elem, count,
  ◌==◌, if◌then◌else◌, Bool-cases, inl, inr, arith, subst, ==_iff,
}
use sub2_ddq.Jobs.{
  Job, JobError, JobStatus, JobType, Reply, claim_next_job, complete_job, fail_job, get_job,
  is_running, mark_running_job_cancelled, runs, update_running, update_where, finished,
  cancel_running,
}
use sub2_ddq.Jobs.Trace.{IsTable, JobOp, run_ops, table_after}

pub data HandlerResult : Type 0 where
  returned : (result : Text) → HandlerResult
  service_error : (code message : Text) → HandlerResult
  crashed : HandlerResult

abbrev internal_error : ℕ → ℕ → List Job → Reply
internal_error id now jobs =
    fail_job id (codes "INTERNAL_ERROR") (codes "The job failed unexpectedly") now jobs

-- The `except` clauses behind the result's own update.
abbrev recover : ℕ → ℕ → List Job → Reply → Reply
recover id now jobs (Reply.done after j) = Reply.done after j
recover id now jobs (Reply.raised JobError.invalid_job_state) =
    fail_job id (codes "INVALID_JOB_STATE") (codes "The job is not running") now jobs
recover id now jobs (Reply.raised JobError.job_not_found) = internal_error id now jobs
recover id now jobs (Reply.raised JobError.rejected_statement) = internal_error id now jobs

abbrev asks_to_cancel : Option Job → Bool
asks_to_cancel none = false
asks_to_cancel (some j) = j.cancel_requested

-- The `try` statement behind the handler.
unfoldable pub settle_job : Bool → ℕ → HandlerResult → ℕ → List Job → Reply
settle_job takes_one id (HandlerResult.returned result) now jobs = recover id now jobs (
    if asks_to_cancel (get_job id jobs)
    then mark_running_job_cancelled takes_one id now jobs
    else complete_job id result now jobs)
settle_job takes_one id (HandlerResult.service_error code message) now jobs =
    fail_job id code message now jobs
settle_job takes_one id HandlerResult.crashed now jobs = internal_error id now jobs

abbrev no_handler : ℕ → ℕ → List Job → Reply
no_handler id now jobs =
    fail_job id (codes "JOB_HANDLER_MISSING") (codes "No handler is registered for this job type")
      now jobs

abbrev pub run_claimed :
    Bool
    → (JobType → Option (Job → HandlerResult))
    → List JobOp
    → ℕ
    → List Job
    → Option Job
    → List Job × Bool
run_claimed takes_one handlers meanwhile now jobs none = (jobs, false)
run_claimed takes_one handlers meanwhile now jobs (some j) = elim (handlers j.job_type) [
  | none ↦ (table_after jobs (no_handler j.job_id now jobs), true)
  | some handler ↦
      let later = run_ops takes_one meanwhile jobs in
      (table_after later (settle_job takes_one j.job_id (handler j) now later), true)
]

-- `run_once`; what `fail_job` raises leaves the table as it is.
unfoldable pub run_once :
    Bool
    → (JobType → Option (Job → HandlerResult))
    → List JobOp
    → (Job → Bool)
    → List JobType
    → Text
    → ℕ
    → List Job
    → List Job × Bool
run_once takes_one handlers meanwhile visible types worker now jobs =
    let (claimed, j) = claim_next_job visible types worker now jobs in
    run_claimed takes_one handlers meanwhile now claimed j

none_runs :
    (id : ℕ) (jobs : List Job)
    → elem id (map (λ j. j.job_id) jobs) ≡ false
    → count (runs id) jobs ≡ 0
none_runs id [] h = refl
none_runs id (j ∷ jobs) h = ground (arith, h, none_runs id jobs)

one_runs :
    (id : ℕ) (jobs : List Job) (j : Job)
    → IsTable jobs
    → get_job id jobs ≡ some j
    → is_running j.status ≡ true
    → count (runs id) jobs ≡ 1
one_runs id [] j u g r = cc
one_runs id (k ∷ jobs) j u g r = elim (Bool-cases (k.job_id == id)) [
  | inl e ↦
      let absent : elem id (map (λ j. j.job_id) jobs) ≡ false =
        subst (λ i. elem i (map (λ j. j.job_id) jobs) ≡ false) ((==_iff k.job_id id).0 e)
          (ground (arith, u)) in
      ground (arith, g, e, r, none_runs id jobs absent)
  | inr e ↦ ground (arith, g, e, one_runs id jobs j (ground (arith, u)) (ground (arith, g, e)) r)
]

get_job-update_running :
    (id : ℕ) (f : Job → Job) (jobs : List Job) (j : Job)
    → ((k : Job) → (f k).job_id ≡ k.job_id)
    → get_job id jobs ≡ some j
    → is_running j.status ≡ true
    → get_job id (update_where (runs id) f jobs) ≡ some (f j)
get_job-update_running id f [] j i g r = cc
get_job-update_running id f (k ∷ jobs) j i g r = elim (Bool-cases (k.job_id == id)) [
  | inl e ↦ ground (arith, g, e, r, i k)
  | inr e ↦ ground (arith, g, e, get_job-update_running id f jobs j i (ground (arith, g, e)) r)
]

-- An update of the job that runs finds its row and answers with it.
update_running-done :
    (id : ℕ) (f : Job → Job) (jobs : List Job) (j : Job)
    → ((k : Job) → (f k).job_id ≡ k.job_id)
    → IsTable jobs
    → get_job id jobs ≡ some j
    → is_running j.status ≡ true
    → update_running id f jobs ≡ Reply.done (update_where (runs id) f jobs) (f j)
update_running-done id f jobs j i u g r =
    let one = one_runs id jobs j u g r in
    let got = get_job-update_running id f jobs j i g r in ground (arith, one, got)

-- The status in which a job that still runs ends.
abbrev pub final_status : Bool → HandlerResult → Bool → JobStatus
final_status takes_one (HandlerResult.returned result) false = JobStatus.succeeded
final_status true (HandlerResult.returned result) true = JobStatus.cancelled
final_status false (HandlerResult.returned result) true = JobStatus.failed
final_status takes_one (HandlerResult.service_error code message) cancel = JobStatus.failed
final_status takes_one HandlerResult.crashed cancel = JobStatus.failed

-- The job ends with an update of its row that keeps the ID.
abbrev pub Ends : ℕ → Reply → JobStatus → Type 0
Ends id r s =
    (after : List Job) × (k : Job) × (r ≡ Reply.done after k)
    × (get_job id after ≡ some k)
    × (k.status ≡ s)

module _ (id now : ℕ) (jobs : List Job) (j : Job) (u : IsTable jobs) (g : get_job id jobs ≡ some j)
    (r : is_running j.status ≡ true) where
  update_running-Ends :
      (f : Job → Job)
      → ((k : Job) → (f k).job_id ≡ k.job_id)
      → Ends id (update_running id f jobs) (f j).status
  update_running-Ends f i = (
    update_where (runs id) f jobs,
    f j,
    update_running-done id f jobs j i u g r,
    get_job-update_running id f jobs j i g r,
    refl,
  )

  complete_job-Ends :
      (result : Text) → Ends id (complete_job id result now jobs) JobStatus.succeeded
  unfolding complete_job
  complete_job-Ends result =
      update_running-Ends (finished JobStatus.succeeded (some result) none none now) (λ k. refl)

  fail_job-Ends :
      (code message : Text) → Ends id (fail_job id code message now jobs) JobStatus.failed
  unfolding fail_job
  fail_job-Ends code message =
      update_running-Ends (finished JobStatus.failed none (some code) (some message) now)
        (λ k. refl)

  mark_running_job_cancelled-Ends :
      Ends id (mark_running_job_cancelled true id now jobs) JobStatus.cancelled
  unfolding mark_running_job_cancelled
  mark_running_job_cancelled-Ends = update_running-Ends (cancel_running now) (λ k. refl)

  -- What has ended needs no recovery.
  recover-Ends : (x : Reply) (s : JobStatus) → Ends id x s → Ends id (recover id now jobs x) s
  recover-Ends (Reply.done after k) s e = e
  recover-Ends (Reply.raised x) s e = cc

  mark_rejected-Ends :
      Ends id (recover id now jobs (mark_running_job_cancelled false id now jobs)) JobStatus.failed
  unfolding mark_running_job_cancelled
  mark_rejected-Ends = fail_job-Ends (codes "INTERNAL_ERROR") (codes "The job failed unexpectedly")

mark_settle-Ends :
    (takes_one : Bool) (result : Text) (id now : ℕ) (jobs : List Job) (j : Job)
    → IsTable jobs
    → get_job id jobs ≡ some j
    → is_running j.status ≡ true
    → Ends id
        (recover id now jobs (mark_running_job_cancelled takes_one id now jobs))
        (final_status takes_one (HandlerResult.returned result) true)
mark_settle-Ends true result id now jobs j u g r =
    recover-Ends id now jobs j u g r _ JobStatus.cancelled
      (mark_running_job_cancelled-Ends id now jobs j u g r)
mark_settle-Ends false result id now jobs j u g r = mark_rejected-Ends id now jobs j u g r

-- A job that is running still when its handler comes back is finished by the worker: it ends as
-- succeeded if the handler returned and no one asked to cancel it, as cancelled if the handler
-- returned, someone asked to, and the database takes the statement that cancels it, and as failed
-- otherwise.
pub settle_job-final_status :
    (takes_one : Bool) (outcome : HandlerResult) (id now : ℕ) (jobs : List Job) (j : Job)
    → IsTable jobs
    → get_job id jobs ≡ some j
    → is_running j.status ≡ true
    → Ends id
        (settle_job takes_one id outcome now jobs)
        (final_status takes_one outcome j.cancel_requested)
unfolding settle_job
settle_job-final_status takes_one (HandlerResult.returned result) id now jobs j u g r =
    elim (Bool-cases j.cancel_requested) [
      | inr c ↦
          rw (settle_job, g, c)
            (recover-Ends id now jobs j u g r _ JobStatus.succeeded
              (complete_job-Ends id now jobs j u g r result))
      | inl c ↦ rw (settle_job, g, c) (mark_settle-Ends takes_one result id now jobs j u g r)
    ]
settle_job-final_status takes_one (HandlerResult.service_error code message) id now jobs j u g r =
    fail_job-Ends id now jobs j u g r code message
settle_job-final_status takes_one HandlerResult.crashed id now jobs j u g r =
    fail_job-Ends id now jobs j u g r (codes "INTERNAL_ERROR") (codes "The job failed unexpectedly")
