-- ===== src/Jobs.antt =====
-- The job queue: src/sub2api_mcp/repository.py on the table `jobs`, and `run_once` of
-- src/sub2api_mcp/jobs.py. A job ID is the 128-bit number that its UUID spells, which has the order
-- of the spelling, times are microseconds, and a JSON text or a worker is a list of code points.
-- The argument `takes_one` says whether the database takes the integer 1 for a Boolean column.
pub mod Trace
pub mod Lifecycle
pub mod Claims
pub mod Races
pub mod Worker
mod Examples
use sub2_ddq.Prelude.{
  ℕ, ◌+◌, Bool, true, false, ◌&&◌, ◌||◌, not, Option, none, some, List, [], ◌∷◌, ◌++◌, map, Text,
  codes, elem, any, count, keep_if, find_first, sort_by, ltb, leb, ◌==◌, if◌then◌else◌,
}

pub data JobType : Type 0 where
  probe recovery maintenance video : JobType

pub data JobStatus : Type 0 where
  queued running succeeded failed cancelled interrupted : JobStatus

-- A row of the table.
pub record Job : Type 0 where
  pub job_id : ℕ
  pub job_type : JobType
  pub status : JobStatus
  pub payload_json : Text
  pub result_json : Option Text
  pub error_code : Option Text
  pub error_message : Option Text
  pub cancel_requested : Bool
  pub worker_id : Option Text
  pub created_at : ℕ
  pub updated_at : ℕ
  pub started_at : Option ℕ
  pub finished_at : Option ℕ

-- What an operation raises; `rejected_statement` is an error of the database.
pub data JobError : Type 0 where
  job_not_found invalid_job_state rejected_statement : JobError

-- The table that an operation leaves with its answer, or what it raises, the table kept.
pub data Reply : Type 0 where
  done : List Job → Job → Reply
  raised : JobError → Reply

-- `status in TERMINAL_JOB_STATUSES`
abbrev pub is_terminal : JobStatus → Bool
is_terminal JobStatus.queued = false
is_terminal JobStatus.running = false
is_terminal _ = true

abbrev pub is_queued : JobStatus → Bool
is_queued JobStatus.queued = true
is_queued _ = false

abbrev pub is_running : JobStatus → Bool
is_running JobStatus.running = true
is_running _ = false

abbrev pub same_type : JobType → JobType → Bool
same_type JobType.probe JobType.probe = true
same_type JobType.recovery JobType.recovery = true
same_type JobType.maintenance JobType.maintenance = true
same_type JobType.video JobType.video = true
same_type _ _ = false

-- `UPDATE jobs SET ... WHERE ...`
abbrev pub update_where : (Job → Bool) → (Job → Job) → List Job → List Job
update_where p f jobs = map (λ j. if p j then f j else j) jobs

abbrev pub get_job : ℕ → List Job → Option Job
get_job id jobs = find_first (λ j. j.job_id == id) jobs

-- `SELECT * FROM jobs WHERE job_id = ...` behind an update that found the row.
abbrev pub answer_with : ℕ → List Job → Reply
answer_with id jobs = elim (get_job id jobs) [
  | none ↦ Reply.raised JobError.job_not_found
  | some j ↦ Reply.done jobs j
]

abbrev pub interrupt : ℕ → Job → Job
interrupt now j = record j {
  status = JobStatus.interrupted;
  error_code = some (codes "SERVICE_RESTARTED");
  error_message = some (codes "The service restarted while this job was running");
  updated_at = now;
  finished_at = some now;
  worker_id = none;
}

abbrev pub remove_video : ℕ → Job → Job
remove_video now j = record j {
  status = JobStatus.failed;
  error_code = some (codes "VIDEO_REMOVED");
  error_message = some (codes "Video generation is no longer supported");
  updated_at = now;
  finished_at = some now;
  worker_id = none;
}

abbrev pub is_active_job : JobType → Job → Bool
is_active_job t j = same_type j.job_type t && (is_queued j.status || is_running j.status)

-- The reconciliation in `initialize`.
unfoldable pub initialize : ℕ → List Job → List Job
initialize now jobs =
    update_where (is_active_job JobType.video) (remove_video now)
      (update_where (λ j. is_running j.status) (interrupt now) jobs)

-- The row that `create_job` inserts.
abbrev pub new_job : ℕ → ℕ → JobType → Text → Job
new_job id now type payload = record {
  job_id = id;
  job_type = type;
  status = JobStatus.queued;
  payload_json = payload;
  result_json = none;
  error_code = none;
  error_message = none;
  cancel_requested = false;
  worker_id = none;
  created_at = now;
  updated_at = now;
  started_at = none;
  finished_at = none;
}

-- `create_job`; `id` is the new UUID. The primary key refuses one that the table has.
unfoldable pub create_job : ℕ → ℕ → JobType → Text → List Job → Reply
create_job id now type payload jobs =
    let j = new_job id now type payload in
    if elem id (map (λ r. r.job_id) jobs)
    then Reply.raised JobError.rejected_statement
    else Reply.done (jobs ++ j ∷ []) j

-- `active_job_count`
unfoldable pub active_job_count : JobType → List Job → ℕ
active_job_count type jobs = count (is_active_job type) jobs

-- `create_job_with_capacity` behind its count: no job at the capacity, else the insert.
unfoldable pub insert_below :
    (active max_active : ℕ) → ℕ → ℕ → JobType → Text → List Job → Option Reply
insert_below active max_active id now type payload jobs =
    if leb max_active active then none else some (create_job id now type payload jobs)

-- `create_job_with_capacity` with no other insert between its count and its own.
unfoldable pub create_job_with_capacity :
    (max_active : ℕ) → ℕ → ℕ → JobType → Text → List Job → Option Reply
create_job_with_capacity max_active id now type payload jobs =
    insert_below (active_job_count type jobs) max_active id now type payload jobs

-- `ORDER BY created_at, job_id`
abbrev pub claim_order : Job → Job → Bool
claim_order a b =
    ltb a.created_at b.created_at || (a.created_at == b.created_at && leb a.job_id b.job_id)

abbrev pub claimable : List JobType → Job → Bool
claimable types j = is_queued j.status && any (same_type j.job_type) types

abbrev pub start_job : Text → ℕ → Job → Job
start_job worker now j = record j {
  status = JobStatus.running;
  worker_id = some worker;
  started_at = some now;
  updated_at = now;
}

-- `claim_next_job`; the rows that other transactions have locked are skipped, so `visible` tells
-- which rows the query sees.
unfoldable pub first_claimable : (Job → Bool) → List JobType → List Job → Option Job
first_claimable visible types jobs =
    find_first (λ j. true)
      (sort_by claim_order (keep_if (λ j. visible j && claimable types j) jobs))

abbrev pub start_claimed : ℕ → Text → ℕ → List Job → List Job
start_claimed id worker now jobs =
    update_where (λ r. r.job_id == id && is_queued r.status) (start_job worker now) jobs

abbrev pub claim_found : Text → ℕ → List Job → Option Job → List Job × Option Job
claim_found worker now jobs none = (jobs, none)
claim_found worker now jobs (some j) =
    let after = start_claimed j.job_id worker now jobs in (after, get_job j.job_id after)

unfoldable pub claim_next_job :
    (Job → Bool) → List JobType → Text → ℕ → List Job → List Job × Option Job
claim_next_job visible types worker now jobs =
    claim_found worker now jobs (first_claimable visible types jobs)

abbrev pub runs : ℕ → Job → Bool
runs id j = j.job_id == id && is_running j.status

-- An update of one running job, refused unless it finds exactly one row.
abbrev pub update_running : ℕ → (Job → Job) → List Job → Reply
update_running id f jobs =
    if not (count (runs id) jobs == 1)
    then Reply.raised JobError.invalid_job_state
    else answer_with id (update_where (runs id) f jobs)

abbrev pub finished : JobStatus → Option Text → Option Text → Option Text → ℕ → Job → Job
finished status result error_code error_message now j = record j {
  status = status;
  result_json = result;
  error_code = error_code;
  error_message = error_message;
  updated_at = now;
  finished_at = some now;
  worker_id = none;
}

unfoldable pub complete_job : ℕ → Text → ℕ → List Job → Reply
complete_job id result now jobs =
    update_running id (finished JobStatus.succeeded (some result) none none now) jobs

unfoldable pub fail_job : ℕ → Text → Text → ℕ → List Job → Reply
fail_job id error_code message now jobs =
    update_running id (finished JobStatus.failed none (some error_code) (some message) now) jobs

abbrev pub cancel_now : ℕ → Job → Job
cancel_now now j = record j {
  status = JobStatus.cancelled;
  cancel_requested = true;
  updated_at = now;
  finished_at = some now;
}

abbrev pub ask_to_cancel : ℕ → Job → Job
ask_to_cancel now j = record j { cancel_requested = true; updated_at = now }

-- The second half of `cancel_job`, by the status that the first half read.
unfoldable pub cancel_read : Bool → JobStatus → ℕ → ℕ → List Job → Reply
cancel_read takes_one JobStatus.queued id now jobs =
    if takes_one
    then answer_with id (update_where (λ j. j.job_id == id) (cancel_now now) jobs)
    else Reply.raised JobError.rejected_statement
cancel_read takes_one JobStatus.running id now jobs =
    if takes_one
    then answer_with id (update_where (λ j. j.job_id == id) (ask_to_cancel now) jobs)
    else Reply.raised JobError.rejected_statement
cancel_read takes_one _ id now jobs = answer_with id jobs

-- `cancel_job` with no other statement between its two halves.
unfoldable pub cancel_job : Bool → ℕ → ℕ → List Job → Reply
cancel_job takes_one id now jobs = elim (get_job id jobs) [
  | none ↦ Reply.raised JobError.job_not_found
  | some j ↦ cancel_read takes_one j.status id now jobs
]

abbrev pub cancel_running : ℕ → Job → Job
cancel_running now j = record j {
  status = JobStatus.cancelled;
  cancel_requested = true;
  updated_at = now;
  finished_at = some now;
  worker_id = none;
}

unfoldable pub mark_running_job_cancelled : Bool → ℕ → ℕ → List Job → Reply
mark_running_job_cancelled takes_one id now jobs =
    if takes_one
    then update_running id (cancel_running now) jobs
    else Reply.raised JobError.rejected_statement
