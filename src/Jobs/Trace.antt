-- ===== src/Jobs/Trace.antt =====
-- Operations on the job table as steps, and what it is for a table to be further on.
use sub2_ddq.Prelude.{
  has_duplicates, elem, ◌==◌, ◌||◌, ap, subst, sym, arith, ℕ, ◌≡◌, refl, Bool, true, false, not,
  Option, none, some, List, [], ◌∷◌, ◌++◌, map, Text, All, Bool-cases, inl, inr, ◌∙◌,
}
use sub2_ddq.Jobs.{
  Job, JobStatus, JobType, Reply, cancel_job, claim_next_job, complete_job, create_job,
  create_job_with_capacity, fail_job, initialize, mark_running_job_cancelled, update_where,
  is_queued,
}

-- One operation on the table, with its arguments; the deletion of old jobs is none of them.
pub data JobOp : Type 0 where
  restart : (now : ℕ) → JobOp
  create : (id now : ℕ) (type : JobType) (payload : Text) → JobOp
  create_bounded : (max_active id now : ℕ) (type : JobType) (payload : Text) → JobOp
  claim : (visible : Job → Bool) (types : List JobType) (worker : Text) (now : ℕ) → JobOp
  complete : (id : ℕ) (result : Text) (now : ℕ) → JobOp
  fail : (id : ℕ) (error_code message : Text) (now : ℕ) → JobOp
  cancel : (id now : ℕ) → JobOp
  mark_cancelled : (id now : ℕ) → JobOp

-- The table behind an answer; what raises keeps the table.
abbrev pub table_after : List Job → Reply → List Job
table_after jobs (Reply.done after j) = after
table_after jobs (Reply.raised e) = jobs

abbrev pub table_after_bounded : List Job → Option Reply → List Job
table_after_bounded jobs none = jobs
table_after_bounded jobs (some r) = table_after jobs r

unfoldable pub run_op : Bool → JobOp → List Job → List Job
run_op takes_one (JobOp.restart now) jobs = initialize now jobs
run_op takes_one (JobOp.create id now type payload) jobs =
    table_after jobs (create_job id now type payload jobs)
run_op takes_one (JobOp.create_bounded max_active id now type payload) jobs =
    table_after_bounded jobs (create_job_with_capacity max_active id now type payload jobs)
run_op takes_one (JobOp.claim visible types worker now) jobs =
    (claim_next_job visible types worker now jobs).0
run_op takes_one (JobOp.complete id result now) jobs =
    table_after jobs (complete_job id result now jobs)
run_op takes_one (JobOp.fail id error_code message now) jobs =
    table_after jobs (fail_job id error_code message now jobs)
run_op takes_one (JobOp.cancel id now) jobs = table_after jobs (cancel_job takes_one id now jobs)
run_op takes_one (JobOp.mark_cancelled id now) jobs =
    table_after jobs (mark_running_job_cancelled takes_one id now jobs)

unfoldable pub run_ops : Bool → List JobOp → List Job → List Job
run_ops takes_one [] jobs = jobs
run_ops takes_one (op ∷ ops) jobs = run_ops takes_one ops (run_op takes_one op jobs)

-- From which status to which a job may go, in any number of steps: a final one is kept.
abbrev pub leads_to : JobStatus → JobStatus → Bool
leads_to JobStatus.queued t = true
leads_to JobStatus.running t = not (is_queued t)
leads_to JobStatus.succeeded JobStatus.succeeded = true
leads_to JobStatus.failed JobStatus.failed = true
leads_to JobStatus.cancelled JobStatus.cancelled = true
leads_to JobStatus.interrupted JobStatus.interrupted = true
leads_to _ _ = false

-- The same job, further on.
abbrev pub JobAdvances : Job → Job → Type 0
JobAdvances j k = (k.job_id ≡ j.job_id) × (leads_to j.status k.status ≡ true)

-- Every row is still in its place, further on; new rows come behind.
abbrev pub Advances : List Job → List Job → Type 0
Advances [] ks = Unit
Advances (j ∷ js) [] = ⊥
Advances (j ∷ js) (k ∷ ks) = JobAdvances j k × Advances js ks

-- No two rows have one ID.
abbrev pub IsTable : List Job → Type 0
IsTable jobs = has_duplicates (map (λ j. j.job_id) jobs) ≡ false

pub leads_to_refl : (s : JobStatus) → leads_to s s ≡ true
leads_to_refl s = ground arith

leads_to_trans :
    (s t u : JobStatus) → leads_to s t ≡ true → leads_to t u ≡ true → leads_to s u ≡ true
leads_to_trans s t u h k = ground arith

Advances-refl : (jobs : List Job) → Advances jobs jobs
Advances-refl [] = tt
Advances-refl (j ∷ jobs) = ((refl, leads_to_refl j.status), Advances-refl jobs)

pub Advances-trans : (js ks ls : List Job) → Advances js ks → Advances ks ls → Advances js ls
Advances-trans [] ks ls h k = tt
Advances-trans (a ∷ js) [] ls h k = elim h [ ]
Advances-trans (a ∷ js) (b ∷ ks) [] h k = elim k [ ]
Advances-trans (a ∷ js) (b ∷ ks) (c ∷ ls) h k = (
  (k.0.0 ∙ h.0.0, leads_to_trans a.status b.status c.status h.0.1 k.0.1),
  Advances-trans js ks ls h.1 k.1,
)

Advances-append : (jobs more : List Job) → Advances jobs (jobs ++ more)
Advances-append [] more = tt
Advances-append (j ∷ jobs) more = ((refl, leads_to_refl j.status), Advances-append jobs more)

-- An update whose rows advance.
Advances-update_where :
    (p : Job → Bool) (f : Job → Job) (jobs : List Job)
    → All (λ j. p j ≡ true → JobAdvances j (f j)) jobs
    → Advances jobs (update_where p f jobs)
Advances-update_where p f [] h = tt
Advances-update_where p f (j ∷ jobs) h =
    let rest = Advances-update_where p f jobs h.1 in
    elim (Bool-cases (p j)) [
      | inl e ↦ rw e (h.0 e, rest)
      | inr e ↦ rw e ((refl, leads_to_refl j.status), rest)
    ]

pub All-any : {P : Job → Type 0} (jobs : List Job) → ((j : Job) → P j) → All P jobs
All-any [] h = tt
All-any (j ∷ jobs) h = (h j, All-any jobs h)

ids-update_where :
    (p : Job → Bool) (f : Job → Job) (jobs : List Job)
    → All (λ j. p j ≡ true → JobAdvances j (f j)) jobs
    → map (λ j. j.job_id) (update_where p f jobs) ≡ map (λ j. j.job_id) jobs
ids-update_where p f [] h = refl
ids-update_where p f (j ∷ jobs) h =
    let rest = ids-update_where p f jobs h.1 in
    elim (Bool-cases (p j)) [
      | inl e ↦ ground (arith, e, (h.0 e).0, rest)
      | inr e ↦ ground (arith, e, rest)
    ]

elem-append : (i id : ℕ) (ids : List ℕ) → elem i (ids ++ id ∷ []) ≡ (i == id || elem i ids)
elem-append i id [] = ground arith
elem-append i id (k ∷ ids) = ground (arith, elem-append i id ids)

has_duplicates-append :
    (id : ℕ) (ids : List ℕ)
    → elem id ids ≡ false
    → has_duplicates ids ≡ false
    → has_duplicates (ids ++ id ∷ []) ≡ false
has_duplicates-append id [] h u = refl
has_duplicates-append id (k ∷ ids) h u =
    ground (arith, h, u, elem-append k id ids, has_duplicates-append id ids)

ids-append :
    (jobs : List Job) (j : Job)
    → map (λ j. j.job_id) (jobs ++ j ∷ []) ≡ map (λ j. j.job_id) jobs ++ j.job_id ∷ []
ids-append [] j = refl
ids-append (k ∷ jobs) j = ap (◌∷◌ k.job_id) (ids-append jobs j)

-- The rows are further on, and the IDs are still unique.
abbrev pub Follows : List Job → List Job → Type 0
Follows jobs after = Advances jobs after × (IsTable jobs → IsTable after)

pub Follows-refl : (jobs : List Job) → Follows jobs jobs
Follows-refl jobs = (Advances-refl jobs, λ u. u)

pub Follows-trans : (js ks ls : List Job) → Follows js ks → Follows ks ls → Follows js ls
Follows-trans js ks ls h k = (Advances-trans js ks ls h.0 k.0, λ u. k.1 (h.1 u))

pub Follows-append :
    (jobs : List Job) (j : Job)
    → elem j.job_id (map (λ j. j.job_id) jobs) ≡ false
    → Follows jobs (jobs ++ j ∷ [])
Follows-append jobs j h = (
  Advances-append jobs (j ∷ []),
  λ u.
      subst (λ ids. has_duplicates ids ≡ false) (sym (ids-append jobs j))
        (has_duplicates-append j.job_id (map (λ j. j.job_id) jobs) h u),
)

pub Follows-update_where :
    (p : Job → Bool) (f : Job → Job) (jobs : List Job)
    → All (λ j. p j ≡ true → JobAdvances j (f j)) jobs
    → Follows jobs (update_where p f jobs)
Follows-update_where p f jobs h = (
  Advances-update_where p f jobs h,
  λ u. subst (λ ids. has_duplicates ids ≡ false) (sym (ids-update_where p f jobs h)) u,
)
