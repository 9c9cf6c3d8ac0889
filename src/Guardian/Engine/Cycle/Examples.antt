-- ===== src/Guardian/Engine/Cycle/Examples.antt =====
-- A cycle that claims a snapshot, and loses the claim while it evaluates.
use sub2_ddq.Prelude.{true, false, Option, none, some, [], ◌∷◌, codes, Text, ◌≡◌, refl}
use sub2_ddq.Guardian.Contracts.{seconds}
use sub2_ddq.Storage.Snapshots.{
  Snapshot, is_free, is_claimable, supersede_expired_input_snapshots, is_superseded,
  claim_input_snapshot, consume_input_snapshot, is_claim_of,
}
use sub2_ddq.Storage.Leases.{acquire_lease, acquire_read, is_held}
use sub2_ddq.Guardian.Engine.Cycle.{
  Cycle, CycleState, CycleReply, Evaluation, RunStatus, run_once, existing_run, is_taken, run_key,
  finish_run,
}
use sub2_ddq.Guardian.Engine.Cycle.Settles.{CleanedUp, Holds, run_once_settles}
use sub2_ddq.Guardian.Engine.Cycle.Claims.{owns_lease}

abbrev snapshot : Snapshot
snapshot = record {
  snapshot_id = codes "s1";
  captured_at = seconds 900;
  claim_owner = none;
  claim_expires_at = none;
  consumed_at = none;
}

abbrev start : CycleState
start = record { runs = []; lease = none; snapshots = snapshot ∷ [] }

-- The lease expires and goes to another worker while the cycle evaluates.
abbrev takes_lease : CycleState → CycleState
takes_lease s = record s { lease = some (record { owner = codes "b"; expires_at = seconds 2000 }) }

abbrev cycle : Cycle
cycle = record {
  run_id = 5;
  key = none;
  dry_run = true;
  owner = codes "run:5";
  now = seconds 1000;
  scan_interval_seconds = 60;
  expire_seconds = 600;
  shared_sampling = true;
  visible = λ r. true;
  evaluation = Evaluation.evaluated;
  meanwhile = takes_lease;
}

kept :
    (claim : Option Text) (s : CycleState) → Holds cycle claim s → Holds cycle claim (takes_lease s)
kept claim s h = h

no_run : is_taken (run_key none) [] ≡ false
unfolding is_taken run_key
no_run = refl

run_once_settles_example :
    (owns_lease (codes "run:5") (run_once cycle start).0.lease ≡ false)
    × CleanedUp cycle (run_once cycle start).0
run_once_settles_example = run_once_settles cycle kept start no_run refl

-- The snapshot is consumed, and the other worker keeps the lease.
cycle_succeeds : (run_once cycle start).1 ≡ CycleReply.finished RunStatus.succeeded
unfolding run_once is_taken existing_run run_key finish_run is_free is_claimable
    supersede_expired_input_snapshots is_superseded claim_input_snapshot consume_input_snapshot
    is_claim_of acquire_lease acquire_read is_held
cycle_succeeds = refl
