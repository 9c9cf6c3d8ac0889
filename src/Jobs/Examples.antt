-- ===== src/Jobs/Examples.antt =====
-- Operations on concrete job tables.
use sub2_ddq.Prelude.{
  Memᴰ, ℕ, ◌≤◌, ◌≡◌, ◌⊎◌, none, refl, max, Bool, true, false, some, List, [], ◌∷◌, codes, All,
}
use sub2_ddq.Jobs.{
  Job, JobError, JobStatus, JobType, Reply, active_job_count, cancel_job, cancel_now, cancel_read,
  create_job_with_capacity, first_claimable, insert_below, new_job, active_job_count,
}
use sub2_ddq.Jobs.Trace.{Advances, IsTable, JobOp, run_ops, table_after_bounded}
use sub2_ddq.Jobs.Lifecycle.{run_ops-Follows}
use sub2_ddq.Jobs.Claims.{Waits, IsBefore, first_claimable-first}
use sub2_ddq.Jobs.Races.{create_job_with_capacity_bounded, insert_below_twice}
use sub2_ddq.Jobs.Worker.{Ends, HandlerResult, final_status, settle_job, settle_job-final_status}

abbrev queued_job : ℕ → ℕ → Job
queued_job id created = new_job id created JobType.probe (codes "{}")

abbrev running_job : ℕ → Job
running_job id = record (queued_job id 5) {
  status = JobStatus.running;
  worker_id = some (codes "control-1");
}

abbrev succeeded_job : ℕ → Job
succeeded_job id = record (queued_job id 5) {
  status = JobStatus.succeeded;
  result_json = some (codes "{}");
}

abbrev visible : Job → Bool
visible j = true

abbrev ops : List JobOp
ops =
    JobOp.create 3 30 JobType.probe (codes "{}")
    ∷ JobOp.claim visible (JobType.probe ∷ []) (codes "control-1") 40
    ∷ JobOp.complete 2 (codes "{}") 50
    ∷ JobOp.cancel 1 60
    ∷ JobOp.restart 70
    ∷ []

abbrev waiting : List Job
waiting = queued_job 1 20 ∷ queued_job 2 10 ∷ []

abbrev waiting_two : List Job
waiting_two = queued_job 2 10 ∷ []

waiting-IsTable : IsTable waiting
waiting-IsTable = refl

run_ops-Follows_example :
    Advances waiting (run_ops true ops waiting) × IsTable (run_ops true ops waiting)
run_ops-Follows_example = run_ops-Follows true ops waiting waiting-IsTable

claims_the_older : first_claimable visible (JobType.probe ∷ []) waiting ≡ some (queued_job 2 10)
unfolding first_claimable
claims_the_older = refl

first_claimable-first_example :
    ((j : Job) × (first_claimable visible (JobType.probe ∷ []) waiting ≡ some j)
      × Memᴰ j waiting
      × Waits visible (JobType.probe ∷ []) j
      × All (λ k. Waits visible (JobType.probe ∷ []) k → IsBefore j k) waiting)
    ⊎ ((first_claimable visible (JobType.probe ∷ []) waiting ≡ none)
        × All (λ k. Waits visible (JobType.probe ∷ []) k → ⊥) waiting)
first_claimable-first_example = first_claimable-first visible (JobType.probe ∷ []) waiting

settle_job-final_status_example :
    Ends 1
      (settle_job true 1 (HandlerResult.returned (codes "{}")) 60 (running_job 1 ∷ waiting_two))
      (final_status true (HandlerResult.returned (codes "{}")) false)
settle_job-final_status_example =
    settle_job-final_status true (HandlerResult.returned (codes "{}")) 1 60
      (running_job 1 ∷ waiting_two) (running_job 1) refl refl refl

create_job_with_capacity_bounded_example :
    active_job_count JobType.probe (
      table_after_bounded waiting
        (create_job_with_capacity 2 9 60 JobType.probe (codes "{}") waiting))
    ≤ max 2 (active_job_count JobType.probe waiting)
create_job_with_capacity_bounded_example =
    create_job_with_capacity_bounded 2 9 60 JobType.probe (codes "{}") waiting

-- A database that does not take the integer 1 for a Boolean column refuses the cancellation.
cancel_is_refused : cancel_job false 1 60 waiting ≡ Reply.raised JobError.rejected_statement
unfolding cancel_job cancel_read
cancel_is_refused = refl

-- One that takes it overwrites a job that has ended since its status was read.
cancel_overwrites :
    cancel_read true JobStatus.queued 1 60 (succeeded_job 1 ∷ [])
    ≡ Reply.done (cancel_now 60 (succeeded_job 1) ∷ []) (cancel_now 60 (succeeded_job 1))
unfolding cancel_read
cancel_overwrites = refl

two_active : active_job_count JobType.probe waiting ≡ 2
unfolding active_job_count
two_active = refl

insert_below_twice_example :
    let once =
      table_after_bounded waiting (insert_below 2 3 8 60 JobType.probe (codes "{}") waiting) in
    active_job_count JobType.probe
      (table_after_bounded once (insert_below 2 3 9 60 JobType.probe (codes "{}") once))
    ≡ 4
insert_below_twice_example =
    insert_below_twice 2 3 8 9 60 JobType.probe (codes "{}") waiting two_active refl refl refl
