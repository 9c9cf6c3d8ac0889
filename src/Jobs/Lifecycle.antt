-- ===== src/Jobs/Lifecycle.antt =====
-- The life of a job: queued, then running, then one final status.
use sub2_ddq.Prelude.{
  ℕ, ◌≡◌, refl, Bool, true, false, ◌&&◌, Option, none, some, List, [], ◌∷◌, map, Text, elem, count,
  leb, ◌==◌, All, All-imp, Bool-cases, Option-cases, inl, inr, subst, arith, ==_iff,
}
use sub2_ddq.Jobs.{
  Job, JobStatus, JobType, cancel_job, claim_next_job, complete_job, create_job,
  create_job_with_capacity, fail_job, get_job, initialize, is_running, mark_running_job_cancelled,
  new_job, update_where, is_queued, runs, update_running, insert_below, cancel_read,
  first_claimable, answer_with, claim_found, start_job, interrupt, remove_video, is_active_job,
  active_job_count, cancel_now, ask_to_cancel, cancel_running,
}
use sub2_ddq.Jobs.Trace.{
  Advances, Follows, Follows-append, Follows-refl, Follows-trans, Follows-update_where, All-any,
  IsTable, JobAdvances, JobOp, run_op, run_ops, Advances-trans, table_after, table_after_bounded,
  leads_to_refl,
}

Follows-answer_with :
    (id : ℕ) (jobs after : List Job)
    → Follows jobs after
    → Follows jobs (table_after jobs (answer_with id after))
Follows-answer_with id jobs after h = elim (Option-cases (get_job id after)) [
  | inl e ↦ rw (table_after, e) (Follows-refl jobs)
  | inr (j, e) ↦ rw (table_after, e) h
]

Follows-update_running :
    (id : ℕ) (f : Job → Job) (jobs : List Job)
    → ((j : Job) → runs id j ≡ true → JobAdvances j (f j))
    → Follows jobs (table_after jobs (update_running id f jobs))
Follows-update_running id f jobs h =
    let up = Follows-update_where (runs id) f jobs (All-any jobs h) in
    elim (Bool-cases (count (runs id) jobs == 1)) [
      | inr e ↦ rw e (Follows-refl jobs)
      | inl e ↦ rw e (Follows-answer_with id jobs (update_where (runs id) f jobs) up)
    ]

Follows-initialize : (now : ℕ) (jobs : List Job) → Follows jobs (initialize now jobs)
unfolding initialize
Follows-initialize now jobs =
    let stopped = update_where (λ j. is_running j.status) (interrupt now) jobs in
    Follows-trans jobs stopped _
      (Follows-update_where (λ j. is_running j.status) (interrupt now) jobs
        (All-any jobs (λ j h. ground (arith, h))))
      (Follows-update_where (is_active_job JobType.video) (remove_video now) stopped
        (All-any stopped (λ j h. ground (arith, h))))

Follows-create_job :
    (id now : ℕ) (type : JobType) (payload : Text) (jobs : List Job)
    → Follows jobs (table_after jobs (create_job id now type payload jobs))
unfolding create_job
Follows-create_job id now type payload jobs =
    elim (Bool-cases (elem id (map (λ r. r.job_id) jobs))) [
      | inl e ↦ rw e (Follows-refl jobs)
      | inr e ↦ rw e (Follows-append jobs (new_job id now type payload) e)
    ]

Follows-create_bounded :
    (n id now : ℕ) (type : JobType) (payload : Text) (jobs : List Job)
    → Follows jobs (table_after_bounded jobs (create_job_with_capacity n id now type payload jobs))
unfolding create_job_with_capacity insert_below
Follows-create_bounded n id now type payload jobs =
    elim (Bool-cases (leb n (active_job_count type jobs))) [
      | inl e ↦ rw e (Follows-refl jobs)
      | inr e ↦ rw e (Follows-create_job id now type payload jobs)
    ]

Follows-claim_found :
    (worker : Text) (now : ℕ) (jobs : List Job) (o : Option Job)
    → Follows jobs (claim_found worker now jobs o).0
Follows-claim_found worker now jobs none = Follows-refl jobs
Follows-claim_found worker now jobs (some j) =
    Follows-update_where (λ r. r.job_id == j.job_id && is_queued r.status) (start_job worker now)
      jobs (All-any jobs (λ k h. ground (arith, h)))

other_rows :
    (id : ℕ) (jobs : List Job)
    → elem id (map (λ j. j.job_id) jobs) ≡ false
    → All (λ k. (k.job_id == id) ≡ false) jobs
other_rows id [] h = tt
other_rows id (j ∷ jobs) h = (ground (arith, h), other_rows id jobs (ground (arith, h)))

-- With unique IDs, the row that has the ID is the one that the query finds.
only_row :
    (id : ℕ) (j : Job) (jobs : List Job)
    → IsTable jobs
    → get_job id jobs ≡ some j
    → All (λ k. (k.job_id == id) ≡ true → k.status ≡ j.status) jobs
only_row id j [] u g = tt
only_row id j (k ∷ jobs) u g = elim (Bool-cases (k.job_id == id)) [
  | inl e ↦
      let absent : elem id (map (λ j. j.job_id) jobs) ≡ false =
        subst (λ i. elem i (map (λ j. j.job_id) jobs) ≡ false) ((==_iff k.job_id id).0 e)
          (ground (arith, u)) in
      (
        λ _. ground (arith, g, e),
        All-imp _ _ jobs (λ r n y. ground (arith, n, y)) (other_rows id jobs absent),
      )
  | inr e ↦
      (λ y. ground (arith, e, y), only_row id j jobs (ground (arith, u)) (ground (arith, g, e)))
]

Follows-cancel_read :
    (takes_one : Bool) (s : JobStatus) (id now : ℕ) (jobs : List Job)
    → All (λ k. (k.job_id == id) ≡ true → k.status ≡ s) jobs
    → Follows jobs (table_after jobs (cancel_read takes_one s id now jobs))
unfolding cancel_read
Follows-cancel_read false JobStatus.queued id now jobs h = Follows-refl jobs
Follows-cancel_read true JobStatus.queued id now jobs h = Follows-answer_with id jobs _ (
    Follows-update_where (λ j. j.job_id == id) (cancel_now now) jobs
      (All-imp _ _ jobs (λ k s e. ground (arith, s, e)) h))
Follows-cancel_read false JobStatus.running id now jobs h = Follows-refl jobs
Follows-cancel_read true JobStatus.running id now jobs h = Follows-answer_with id jobs _ (
    Follows-update_where (λ j. j.job_id == id) (ask_to_cancel now) jobs
      (All-imp _ _ jobs (λ k s e. (refl, leads_to_refl k.status)) h))
Follows-cancel_read takes_one JobStatus.succeeded id now jobs h =
    Follows-answer_with id jobs jobs (Follows-refl jobs)
Follows-cancel_read takes_one JobStatus.failed id now jobs h =
    Follows-answer_with id jobs jobs (Follows-refl jobs)
Follows-cancel_read takes_one JobStatus.cancelled id now jobs h =
    Follows-answer_with id jobs jobs (Follows-refl jobs)
Follows-cancel_read takes_one JobStatus.interrupted id now jobs h =
    Follows-answer_with id jobs jobs (Follows-refl jobs)

Follows-cancel_job :
    (takes_one : Bool) (id now : ℕ) (jobs : List Job)
    → IsTable jobs
    → Follows jobs (table_after jobs (cancel_job takes_one id now jobs))
unfolding cancel_job
Follows-cancel_job takes_one id now jobs u = elim (Option-cases (get_job id jobs)) [
  | inl e ↦ rw (table_after, cancel_job, e) (Follows-refl jobs)
  | inr (j, e) ↦
      rw (table_after, cancel_job, e)
        (Follows-cancel_read takes_one j.status id now jobs (only_row id j jobs u e))
]

-- One operation on a table with unique IDs: every row keeps its place and its ID and goes on to a
-- status that its own leads to, a final one staying as it is, new rows come last, and the IDs stay
-- unique.
run_op-Follows :
    (takes_one : Bool) (op : JobOp) (jobs : List Job)
    → IsTable jobs
    → Follows jobs (run_op takes_one op jobs)
unfolding run_op claim_next_job complete_job fail_job cancel_job mark_running_job_cancelled
run_op-Follows takes_one (JobOp.restart now) jobs u = Follows-initialize now jobs
run_op-Follows takes_one (JobOp.create id now type payload) jobs u =
    Follows-create_job id now type payload jobs
run_op-Follows takes_one (JobOp.create_bounded n id now type payload) jobs u =
    Follows-create_bounded n id now type payload jobs
run_op-Follows takes_one (JobOp.claim visible types worker now) jobs u =
    Follows-claim_found worker now jobs (first_claimable visible types jobs)
run_op-Follows takes_one (JobOp.complete id result now) jobs u =
    Follows-update_running id _ jobs (λ j h. ground (arith, h))
run_op-Follows takes_one (JobOp.fail id error_code message now) jobs u =
    Follows-update_running id _ jobs (λ j h. ground (arith, h))
run_op-Follows takes_one (JobOp.cancel id now) jobs u = Follows-cancel_job takes_one id now jobs u
run_op-Follows false (JobOp.mark_cancelled id now) jobs u = Follows-refl jobs
run_op-Follows true (JobOp.mark_cancelled id now) jobs u =
    Follows-update_running id (cancel_running now) jobs (λ j h. ground (arith, h))

-- Any number of restarts, creations, claims, completions, failures and cancellations, each run
-- alone, on a table with unique IDs and with no deletion of old jobs in between: every job keeps its
-- row and its ID, its status goes only where a job may go, a final status is never left, and the IDs
-- stay unique.
pub run_ops-Follows :
    (takes_one : Bool) (ops : List JobOp) (jobs : List Job)
    → IsTable jobs
    → Advances jobs (run_ops takes_one ops jobs) × IsTable (run_ops takes_one ops jobs)
unfolding run_ops
run_ops-Follows takes_one [] jobs u = ((Follows-refl jobs).0, u)
run_ops-Follows takes_one (op ∷ ops) jobs u =
    let one = run_op-Follows takes_one op jobs u in
    let rest = run_ops-Follows takes_one ops (run_op takes_one op jobs) (one.1 u) in
    (Advances-trans jobs (run_op takes_one op jobs) _ one.0 rest.0, rest.1)
