-- ===== src/Jobs/Races.antt =====
-- What two transactions of PostgreSQL at READ COMMITTED can do to each other in the job table.
use sub2_ddq.Prelude.{
  ℕ, ◌+◌, ◌≤◌, ◌<◌, ◌≡◌, max, true, false, List, [], ◌∷◌, ◌++◌, map, Text, elem, if◌then◌else◌,
  subst, sym, arith,
}
use sub2_ddq.Jobs.{
  Job, JobType, active_job_count, create_job, create_job_with_capacity, insert_below, is_active_job,
  new_job,
}
use sub2_ddq.Jobs.Trace.{table_after_bounded}

active_job_count-append :
    (type : JobType) (jobs : List Job) (j : Job)
    → active_job_count type (jobs ++ j ∷ [])
      ≡ active_job_count type jobs + (if is_active_job type j then 1 else 0)
unfolding active_job_count
active_job_count-append type [] j = ground arith
active_job_count-append type (k ∷ jobs) j = ground (arith, active_job_count-append type jobs j)

is_active_job-new_job :
    (t : JobType) (id now : ℕ) (payload : Text) → is_active_job t (new_job id now t payload) ≡ true
is_active_job-new_job t id now payload = ground arith

-- An insert with its count does not take the active jobs of the type past the capacity.
pub create_job_with_capacity_bounded :
    (n id now : ℕ) (type : JobType) (payload : Text) (jobs : List Job)
    → active_job_count type
        (table_after_bounded jobs (create_job_with_capacity n id now type payload jobs))
      ≤ max n (active_job_count type jobs)
unfolding create_job_with_capacity insert_below create_job
create_job_with_capacity_bounded n id now type payload jobs =
    let added = active_job_count-append type jobs (new_job id now type payload) in
    ground (arith, added)

insert_below-room :
    (active n id now : ℕ) (type : JobType) (payload : Text) (jobs : List Job)
    → active < n
    → elem id (map (λ j. j.job_id) jobs) ≡ false
    → table_after_bounded jobs (insert_below active n id now type payload jobs)
      ≡ jobs ++ new_job id now type payload ∷ []
unfolding insert_below create_job
insert_below-room active n id now type payload jobs a f = ground (arith, a, f)

-- Two transactions that both count before either inserts: with one place left and two new IDs, both
-- insert, and one job more is active than the capacity allows.
pub insert_below_twice :
    (active n id other now : ℕ) (type : JobType) (payload : Text) (jobs : List Job)
    → active_job_count type jobs ≡ active
    → n ≡ active + 1
    → elem id (map (λ j. j.job_id) jobs) ≡ false
    → elem other (map (λ j. j.job_id) (jobs ++ new_job id now type payload ∷ [])) ≡ false
    → let once = table_after_bounded jobs (insert_below active n id now type payload jobs) in
      active_job_count type
        (table_after_bounded once (insert_below active n other now type payload once))
      ≡ n + 1
insert_below_twice active n id other now type payload jobs c b f g =
    let one = jobs ++ new_job id now type payload ∷ [] in
    let room : active < n = omega (arith, b) in
    let first = insert_below-room active n id now type payload jobs room f in
    let second = insert_below-room active n other now type payload one room g in
    let count_one = active_job_count-append type jobs (new_job id now type payload) in
    let added = is_active_job-new_job type id now payload in
    let added_other = is_active_job-new_job type other now payload in
    subst
      (λ once.
        active_job_count type
          (table_after_bounded once (insert_below active n other now type payload once))
        ≡ n + 1)
      (sym first)
      (ground (
        arith,
        second,
        active_job_count-append type one (new_job other now type payload),
        count_one,
        added,
        added_other,
        b,
        c,
      ))
