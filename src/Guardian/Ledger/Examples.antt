-- ===== src/Guardian/Ledger/Examples.antt =====
-- A ledger with one running run and one recorded result, and what a later worker tries on it.
use sub2_ddq.Prelude.{true, false, none, some, List, [], ◌∷◌, codes, ◌≡◌, refl}
use sub2_ddq.Guardian.Contracts.{
  Moment, AccountRecoveryRunTrigger, AccountRecoveryClassification, AccountRecoveryResult,
}
use sub2_ddq.Guardian.Ledger.{
  AccountRecoveryRunStatus, RunCounts, RecoveryRun, RecoveryRecord, Ledger, find_run, find_record,
  create_account_recovery_run, finish_account_recovery_run, finished_run,
  record_account_recovery_result, same_record,
}
use sub2_ddq.Guardian.Ledger.Stable.{
  LedgerOp, FindsRun, runs_with, run_ops, exec, run_ops_finds, run_ops_keeps_record,
}

abbrev run_1 : RecoveryRun
run_1 = record {
  run_id = 1;
  dedup_key = codes "k";
  trigger = AccountRecoveryRunTrigger.manual;
  snapshot_id = none;
  episode_id = none;
  policy_revision = 1;
  status = AccountRecoveryRunStatus.running;
  result = none;
  started_at = 100;
  finished_at = none;
}

abbrev record_1 : RecoveryRecord
record_1 = record {
  ledger_id = 7;
  run_id = 1;
  dedup_key = codes "k:5";
  account_id = 5;
  channel_id = none;
  group_id = none;
  classification = AccountRecoveryClassification.available;
  result = AccountRecoveryResult.skipped;
  reason = [];
  tested = false;
  occurred_at = 110;
}

abbrev ledger : Ledger
ledger = record { runs = (1, run_1) ∷ []; records = record_1 ∷ [] }

abbrev counts : RunCounts
counts = record {
  selected = 1;
  counts = record { tested = 0; enabled = 0; disabled = 0; indeterminate = 0; skipped = 1 };
}

-- A second creation with the key, the end of the run, and a record that differs from the first.
abbrev later : List LedgerOp
later =
    LedgerOp.create 2 (codes "k") AccountRecoveryRunTrigger.manual none none 1 (Moment.aware 120)
    ∷ LedgerOp.finish 1 AccountRecoveryRunStatus.succeeded counts (Moment.aware 130)
    ∷ LedgerOp.record_result (record record_1 { tested = true })
    ∷ []

run_found : find_run (codes "k") ledger.runs ≡ some run_1
unfolding find_run
run_found = refl

run_ops_finds_example :
    FindsRun (codes "k") run_1 (run_ops later ledger).runs
    × (runs_with (codes "k") (run_ops later ledger).runs ≡ runs_with (codes "k") ledger.runs)
run_ops_finds_example = run_ops_finds later ledger (codes "k") run_1 run_found

run_ops_keeps_record_example :
    find_record (codes "k:5") (run_ops later ledger).records ≡ some record_1
run_ops_keeps_record_example = run_ops_keeps_record later ledger (codes "k:5") record_1 refl

-- The second creation made no run, and the first has ended.
later_runs :
    (run_ops later ledger).runs
    ≡ (1, finished_run AccountRecoveryRunStatus.succeeded counts 130 run_1) ∷ []
unfolding run_ops exec create_account_recovery_run finish_account_recovery_run
    record_account_recovery_result find_run finished_run same_record
later_runs = refl
