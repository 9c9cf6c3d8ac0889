-- ===== src/Storage/Snapshots/Examples.antt =====
-- Operations on concrete snapshots.
use sub2_ddq.Prelude.{◌≡◌, refl, Bool, true, none, some, List, [], ◌∷◌, codes, arith}
use sub2_ddq.Guardian.Contracts.{seconds}
use sub2_ddq.Storage.Snapshots.{Snapshot, claim_input_snapshot, is_claimable, is_free}
use sub2_ddq.Storage.Snapshots.Claims.{run_ops-KeepsClaims}
use sub2_ddq.Storage.Snapshots.Steps.{KeepsClaims, SnapshotOp, run_ops}

abbrev claimed : Snapshot
claimed = record {
  snapshot_id = codes "s1";
  captured_at = seconds 10;
  claim_owner = some (codes "a");
  claim_expires_at = some (seconds 100);
  consumed_at = none;
}

abbrev waiting : Snapshot
waiting = record {
  snapshot_id = codes "s2";
  captured_at = seconds 20;
  claim_owner = none;
  claim_expires_at = none;
  consumed_at = none;
}

abbrev rows : List Snapshot
rows = claimed ∷ waiting ∷ []

abbrev visible : Snapshot → Bool
visible r = true

-- The other owner gets the second snapshot, although the first is older.
claims_the_free : (claim_input_snapshot visible (codes "b") (seconds 50) 30 rows).1 ≡ some waiting
unfolding claim_input_snapshot is_claimable is_free
claims_the_free = refl

abbrev ops : List SnapshotOp
ops =
    SnapshotOp.claim visible (codes "b") (seconds 50) 30
    ∷ SnapshotOp.consume (codes "s1") (codes "b") (seconds 60)
    ∷ SnapshotOp.supersede (seconds 70) (seconds 60)
    ∷ []

run_ops-KeepsClaims_example : KeepsClaims (codes "a") (seconds 100) rows (run_ops ops rows)
run_ops-KeepsClaims_example =
    run_ops-KeepsClaims (codes "a") (seconds 100) ops rows refl
      (omega arith, (refl, (omega arith, tt)))
