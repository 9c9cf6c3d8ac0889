-- ===== src/Guardian/Engine/Cycle.antt =====
-- `GuardianEngine.run_once` of src/sub2api_mcp/guardian/engine.py with the table `guardian_runs` of
-- src/sub2api_mcp/guardian/repository.py: one cycle takes the lease, claims an input snapshot,
-- evaluates it and gives everything back. What other workers do while the evaluation waits is an
-- argument, and so is the outcome of reading and evaluating the snapshot; an exception of the
-- database itself is not modelled.
mod Claims
pub mod Settles
mod Examples
use sub2_ddq.Prelude.{
  ℕ, ◌*◌, ◌-◌, Bool, true, false, not, ◌&&◌, Option, none, some, List, [], ◌∷◌, Text, text_eq,
  if◌then◌else◌, is_some, Dict, get, put, max, take, strip,
}
use sub2_ddq.Guardian.Contracts.{seconds}
use sub2_ddq.Storage.Leases.{Lease, acquire_lease, release_lease}
use sub2_ddq.Storage.Snapshots.{
  Snapshot, supersede_expired_input_snapshots, claim_input_snapshot, consume_input_snapshot,
  release_input_snapshot,
}

pub data RunStatus : Type 0 where
  running succeeded failed cancelled interrupted : RunStatus

pub data RunError : Type 0 where
  guardian_busy guardian_run_failed : RunError

-- A row of `guardian_runs`, without its times and the numbers of its result.
pub record Run : Type 0 where
  pub idempotency_key : Option Text
  pub dry_run : Bool
  pub status : RunStatus
  pub error_code : Option RunError

abbrev pub is_running : RunStatus → Bool
is_running RunStatus.running = true
is_running _ = false

pub record CycleState : Type 0 where
  pub runs : Dict Run
  pub lease : Option Lease
  pub snapshots : List Snapshot

-- The key of a request, stripped and cut; a key of blanks is the empty text.
unfoldable pub run_key : Option Text → Option Text
run_key none = none
run_key (some []) = none
run_key (some (c ∷ s)) = some (take 128 (strip (c ∷ s)))

abbrev pub has_key : Text → Run → Bool
has_key key r = elim r.idempotency_key [ none ↦ false | some k ↦ text_eq k key ]

abbrev pub find_run : Text → Dict Run → Option Run
find_run key [] = none
find_run key (e ∷ runs) = let rest = find_run key runs in if has_key key e.1 then some e.1 else rest

unfoldable pub existing_run : Option Text → Dict Run → Option Run
existing_run none runs = none
existing_run (some []) runs = none
existing_run (some (c ∷ key)) runs = find_run (c ∷ key) runs

-- The unique constraint on keys.
unfoldable pub is_taken : Option Text → Dict Run → Bool
is_taken none runs = false
is_taken (some key) runs = is_some (find_run key runs)

-- `finish_run` of a run that is there; `none` is INVALID_RUN_STATE.
abbrev pub finish_found :
    ℕ → RunStatus → Option RunError → Dict Run → Option Run → Option (Dict Run)
finish_found id status error runs none = none
finish_found id status error runs (some r) =
    if is_running r.status
    then some (put id (record r { status = status; error_code = error }) runs)
    else none

unfoldable pub finish_run : ℕ → RunStatus → Option RunError → Dict Run → Option (Dict Run)
finish_run id status error runs = finish_found id status error runs (get id runs)

-- What the cycle answers: the old run of its key, the status that it wrote, or an exception.
pub data CycleReply : Type 0 where
  replayed : Run → CycleReply
  finished : RunStatus → CycleReply
  raised : CycleReply

-- The outcome of reading and evaluating the snapshot.
pub data Evaluation : Type 0 where
  evaluated cancelled raised : Evaluation

-- One call, with its policy, its clock and what it meets.
pub record Cycle : Type 0 where
  pub run_id : ℕ
  pub key : Option Text
  pub dry_run : Bool
  pub owner : Text
  pub now : ℕ
  pub scan_interval_seconds : ℕ
  pub expire_seconds : ℕ
  pub shared_sampling : Bool
  pub visible : Snapshot → Bool
  pub evaluation : Evaluation
  pub meanwhile : CycleState → CycleState

abbrev pub lease_seconds : Cycle → ℕ
lease_seconds c = max (c.scan_interval_seconds * 2) 30

abbrev pub with_runs : CycleState → Option (Dict Run) → CycleState
with_runs s none = s
with_runs s (some runs) = record s { runs = runs }

abbrev pub release_claim : Text → Option Text → List Snapshot → List Snapshot
release_claim owner none rows = rows
release_claim owner (some id) rows = release_input_snapshot id owner rows

-- The handler of exceptions: the claim is released, and a run that still runs has failed.
abbrev pub fail_cycle : Cycle → Option Text → CycleState → CycleState × CycleReply
fail_cycle c claim s = (
  with_runs (record s { snapshots = release_claim c.owner claim s.snapshots })
      (finish_run c.run_id RunStatus.failed (some RunError.guardian_run_failed) s.runs),
  CycleReply.raised,
)

-- `finish_run` at the end of the block, whose error the handler takes.
abbrev pub finish_cycle :
    Cycle → Option Text → RunStatus → CycleState → Option (Dict Run) → CycleState × CycleReply
finish_cycle c claim status s none = fail_cycle c claim s
finish_cycle c claim status s (some runs) = (record s { runs = runs }, CycleReply.finished status)

-- An evaluation that came to its end, with the claim that it consumes.
abbrev pub consume_claim : Cycle → Option Text → CycleState → CycleState × CycleReply
consume_claim c none s =
    finish_cycle c none RunStatus.succeeded s (finish_run c.run_id RunStatus.succeeded none s.runs)
consume_claim c (some id) s =
    let (rows, done) = consume_input_snapshot id c.owner c.now s.snapshots in
    let t : CycleState = record s { snapshots = rows } in
    if done
    then finish_cycle c (some id) RunStatus.succeeded t
        (finish_run c.run_id RunStatus.succeeded none t.runs)
    else fail_cycle c (some id) t

-- A cancelled evaluation gives its claim back, and the handler has none to release.
abbrev pub cancel_claim : Cycle → Option Text → CycleState → CycleState × CycleReply
cancel_claim c none s =
    finish_cycle c none RunStatus.cancelled s (finish_run c.run_id RunStatus.cancelled none s.runs)
cancel_claim c (some id) s =
    let t : CycleState = record s { snapshots = release_input_snapshot id c.owner s.snapshots } in
    finish_cycle c none RunStatus.cancelled t (finish_run c.run_id RunStatus.cancelled none t.runs)

abbrev pub after_evaluation :
    Cycle → Option Text → Evaluation → CycleState → CycleState × CycleReply
after_evaluation c claim Evaluation.raised s = fail_cycle c claim s
after_evaluation c claim Evaluation.cancelled s = cancel_claim c claim s
after_evaluation c claim Evaluation.evaluated s = consume_claim c claim s

-- A claim that found no snapshot ends the cycle at once.
abbrev pub with_claim :
    Cycle → CycleState → List Snapshot × Option Snapshot → CycleState × CycleReply
with_claim c s (rows, none) =
    let t : CycleState = record s { snapshots = rows } in
    finish_cycle c none RunStatus.succeeded t (finish_run c.run_id RunStatus.succeeded none t.runs)
with_claim c s (rows, some r) =
    after_evaluation c (some r.snapshot_id) c.evaluation
      (c.meanwhile (record s { snapshots = rows }))

-- The block behind the lease.
abbrev pub leased_cycle : Cycle → CycleState → CycleState × CycleReply
leased_cycle c s =
    if c.shared_sampling
    then with_claim c s (
        claim_input_snapshot c.visible c.owner c.now (lease_seconds c)
          (supersede_expired_input_snapshots c.now (c.now - seconds c.expire_seconds)
            s.snapshots).0)
    else after_evaluation c none c.evaluation (c.meanwhile s)

-- The `finally` block.
abbrev pub released : Cycle → CycleState × CycleReply → CycleState × CycleReply
released c (s, reply) = (record s { lease = release_lease c.owner s.lease }, reply)

abbrev pub with_lease : Cycle → CycleState → Option Lease × Bool → CycleState × CycleReply
with_lease c s (row, true) = released c (leased_cycle c (record s { lease = row }))
with_lease c s (row, false) =
    finish_cycle c none RunStatus.failed s
      (finish_run c.run_id RunStatus.failed (some RunError.guardian_busy) s.runs)

abbrev pub created_cycle : Cycle → CycleState → CycleState × CycleReply
created_cycle c s =
    let r : Run = record {
      idempotency_key = run_key c.key;
      dry_run = c.dry_run;
      status = RunStatus.running;
      error_code = none;
    } in
    let t : CycleState = record s { runs = put c.run_id r s.runs } in
    with_lease c t (acquire_lease c.owner c.now (lease_seconds c) t.lease)

-- `run_once`, with `create_run`; the run's ID is fresh. The insert of a run whose key is taken raises.
unfoldable pub run_once : Cycle → CycleState → CycleState × CycleReply
run_once c s = elim (existing_run (run_key c.key) s.runs) [
  | some r ↦ (s, CycleReply.replayed r)
  | none ↦ if is_taken (run_key c.key) s.runs then (s, CycleReply.raised) else created_cycle c s
]
