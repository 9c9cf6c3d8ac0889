-- ===== src/Guardian/Ledger.antt =====
-- The account recovery runs and their ledger in src/sub2api_mcp/guardian/repository.py, and the keys
-- by which src/sub2api_mcp/guardian/account_recovery.py repeats neither. A table of runs is a
-- dictionary by run IDs, and a generated ID is an argument.
pub mod Stable
mod Examples
use sub2_ddq.Prelude.{
  ℕ, Bool, true, false, not, ◌&&◌, Option, none, some, List, [], ◌∷◌, ◌++◌, Text, text_eq, codes,
  leb, ◌==◌, if◌then◌else◌, is_some, length, find_first, Dict, get, put,
}
use sub2_ddq.Guardian.Contracts.{
  Moment, AccountRecoveryRunTrigger, AccountRecoveryClassification, AccountRecoveryResult,
}
use sub2_ddq.Guardian.Executor.{Counts}

pub data AccountRecoveryRunStatus : Type 0 where
  running succeeded failed interrupted : AccountRecoveryRunStatus

abbrev pub is_running : AccountRecoveryRunStatus → Bool
is_running AccountRecoveryRunStatus.running = true
is_running _ = false

abbrev pub same_status : AccountRecoveryRunStatus → AccountRecoveryRunStatus → Bool
same_status AccountRecoveryRunStatus.running AccountRecoveryRunStatus.running = true
same_status AccountRecoveryRunStatus.succeeded AccountRecoveryRunStatus.succeeded = true
same_status AccountRecoveryRunStatus.failed AccountRecoveryRunStatus.failed = true
same_status AccountRecoveryRunStatus.interrupted AccountRecoveryRunStatus.interrupted = true
same_status _ _ = false

-- The dictionary of counts that the executor finishes a run with.
pub record RunCounts : Type 0 where
  pub selected : ℕ
  pub counts : Counts

-- `GuardianAccountRecoveryRun`; `result` holds the counts that the executor passes.
pub record RecoveryRun : Type 0 where
  pub run_id : ℕ
  pub dedup_key : Text
  pub trigger : AccountRecoveryRunTrigger
  pub snapshot_id : Option Text
  pub episode_id : Option Text
  pub policy_revision : ℕ
  pub status : AccountRecoveryRunStatus
  pub result : Option RunCounts
  pub started_at : ℕ
  pub finished_at : Option ℕ

-- `GuardianAccountRecoveryRecord`
pub record RecoveryRecord : Type 0 where
  pub ledger_id : ℕ
  pub run_id : ℕ
  pub dedup_key : Text
  pub account_id : ℕ
  pub channel_id : Option Text
  pub group_id : Option ℕ
  pub classification : AccountRecoveryClassification
  pub result : AccountRecoveryResult
  pub reason : Text
  pub tested : Bool
  pub occurred_at : ℕ

pub record Ledger : Type 0 where
  pub runs : Dict RecoveryRun
  pub records : List RecoveryRecord

pub data LedgerReply : Type 0 where
  run : RecoveryRun → LedgerReply
  recorded : Bool → LedgerReply
  not_found conflict value_error unique_violation : LedgerReply

-- `SELECT ... WHERE dedup_key = ...`
unfoldable pub find_run : Text → Dict RecoveryRun → Option RecoveryRun
find_run key [] = none
find_run key (e ∷ runs) =
    let rest = find_run key runs in if text_eq e.1.dedup_key key then some e.1 else rest

-- `_dedup_key`; `none` is its ValueError. `group` is the text of `group_id or 'all'`.
unfoldable pub dedup_key : Text → AccountRecoveryRunTrigger → Option Text → Text → Option Text
dedup_key snapshot AccountRecoveryRunTrigger.channel_error none group = none
dedup_key snapshot AccountRecoveryRunTrigger.channel_error (some episode) group =
    some (
      codes "snapshot:" ++ (snapshot ++ (codes ":episode:" ++ (episode ++ codes ":channel-error"))))
dedup_key snapshot AccountRecoveryRunTrigger.manual episode group =
    some (codes "snapshot:" ++ (snapshot ++ (codes ":manual:" ++ group)))
dedup_key snapshot AccountRecoveryRunTrigger.hourly_active_check episode group =
    some (codes "snapshot:" ++ (snapshot ++ codes ":hourly-active-check"))
dedup_key snapshot AccountRecoveryRunTrigger.bad_account_state episode group =
    some (codes "snapshot:" ++ (snapshot ++ codes ":bad-account-state"))

abbrev pub is_sized : ℕ → Text → Bool
is_sized limit s = leb 1 (length s) && leb (length s) limit

abbrev pub is_sized_option : ℕ → Option Text → Bool
is_sized_option limit none = true
is_sized_option limit (some s) = is_sized limit s

abbrev pub is_aware : Moment → Bool
is_aware (Moment.naive t) = false
is_aware (Moment.aware t) = true

abbrev pub time_of : Moment → ℕ
time_of (Moment.naive t) = t
time_of (Moment.aware t) = t

-- The insert that does nothing on a conflict of dedup keys; a used run ID is a conflict of its own.
abbrev pub insert_run :
    RecoveryRun
    → Dict RecoveryRun
    → Option RecoveryRun
    → Option RecoveryRun
    → Dict RecoveryRun × LedgerReply
insert_run r runs (some old) same_id = (runs, LedgerReply.run old)
insert_run r runs none (some other) = (runs, LedgerReply.unique_violation)
insert_run r runs none none = (put r.run_id r runs, LedgerReply.run r)

abbrev pub with_runs : Ledger → Dict RecoveryRun × LedgerReply → Ledger × LedgerReply
with_runs l (runs, reply) = (record l { runs = runs }, reply)

-- `create_account_recovery_run`, of a normalised snapshot ID.
unfoldable pub create_account_recovery_run :
    ℕ
    → Text
    → AccountRecoveryRunTrigger
    → Option Text
    → Option Text
    → ℕ
    → Moment
    → Ledger
    → Ledger × LedgerReply
create_account_recovery_run id key trigger snapshot episode revision started l =
    if is_sized 512 key && is_sized_option 128 episode && leb 1 revision && is_aware started
    then with_runs l (
        insert_run
          (record {
            run_id = id;
            dedup_key = key;
            trigger = trigger;
            snapshot_id = snapshot;
            episode_id = episode;
            policy_revision = revision;
            status = AccountRecoveryRunStatus.running;
            result = none;
            started_at = time_of started;
            finished_at = none;
          })
          l.runs (find_run key l.runs) (get id l.runs))
    else (l, LedgerReply.value_error)

abbrev pub same_counts : Option RunCounts → RunCounts → Bool
same_counts none b = false
same_counts (some a) b =
    a.selected == b.selected
    && a.counts.tested == b.counts.tested
    && a.counts.enabled == b.counts.enabled
    && a.counts.disabled == b.counts.disabled
    && a.counts.indeterminate == b.counts.indeterminate
    && a.counts.skipped == b.counts.skipped

unfoldable pub finished_run : AccountRecoveryRunStatus → RunCounts → ℕ → RecoveryRun → RecoveryRun
finished_run status counts at r = record r {
  status = status;
  result = some counts;
  finished_at = some at;
}

abbrev pub finish_found :
    ℕ
    → AccountRecoveryRunStatus
    → RunCounts
    → ℕ
    → Ledger
    → Option RecoveryRun
    → Ledger × LedgerReply
finish_found id status counts at l none = (l, LedgerReply.not_found)
finish_found id status counts at l (some r) =
    if is_running r.status
    then (
      record l { runs = put id (finished_run status counts at r) l.runs },
      LedgerReply.run (finished_run status counts at r),
    )
    else if same_status r.status status && same_counts r.result counts
    then (l, LedgerReply.run r)
    else (l, LedgerReply.conflict)

-- `finish_account_recovery_run`
unfoldable pub finish_account_recovery_run :
    ℕ → AccountRecoveryRunStatus → RunCounts → Moment → Ledger → Ledger × LedgerReply
finish_account_recovery_run id status counts finished l =
    if not (is_running status) && is_aware finished
    then finish_found id status counts (time_of finished) l (get id l.runs)
    else (l, LedgerReply.value_error)

abbrev pub find_record : Text → List RecoveryRecord → Option RecoveryRecord
find_record key records = find_first (λ r. text_eq r.dedup_key key) records

abbrev pub classification_code : AccountRecoveryClassification → ℕ
classification_code AccountRecoveryClassification.available = 0
classification_code AccountRecoveryClassification.manual_pause = 1
classification_code AccountRecoveryClassification.upstream_error = 2
classification_code AccountRecoveryClassification.disabled = 3
classification_code AccountRecoveryClassification.system_quarantine = 4
classification_code AccountRecoveryClassification.excluded = 5

abbrev pub result_code : AccountRecoveryResult → ℕ
result_code AccountRecoveryResult.enabled = 0
result_code AccountRecoveryResult.disabled = 1
result_code AccountRecoveryResult.indeterminate = 2
result_code AccountRecoveryResult.skipped = 3

abbrev pub same_text : Option Text → Option Text → Bool
same_text none none = true
same_text (some s) (some t) = text_eq s t
same_text _ _ = false

abbrev pub same_number : Option ℕ → Option ℕ → Bool
same_number none none = true
same_number (some m) (some n) = m == n
same_number _ _ = false

abbrev pub same_bool : Bool → Bool → Bool
same_bool true b = b
same_bool false b = not b

-- Equality of two records without their ledger IDs.
unfoldable pub same_record : RecoveryRecord → RecoveryRecord → Bool
same_record a b =
    a.run_id == b.run_id
    && text_eq a.dedup_key b.dedup_key
    && a.account_id == b.account_id
    && same_text a.channel_id b.channel_id
    && same_number a.group_id b.group_id
    && classification_code a.classification == classification_code b.classification
    && result_code a.result == result_code b.result
    && text_eq a.reason b.reason
    && same_bool a.tested b.tested
    && a.occurred_at == b.occurred_at

abbrev pub record_found : RecoveryRecord → Ledger → Option RecoveryRecord → Ledger × LedgerReply
record_found r l (some stored) =
    if same_record stored r then (l, LedgerReply.recorded false) else (l, LedgerReply.conflict)
record_found r l none =
    if is_some (get r.run_id l.runs)
    then (record l { records = l.records ++ (r ∷ []) }, LedgerReply.recorded true)
    else (l, LedgerReply.not_found)

-- `record_account_recovery_result`, of a valid record
unfoldable pub record_account_recovery_result : RecoveryRecord → Ledger → Ledger × LedgerReply
record_account_recovery_result r l = record_found r l (find_record r.dedup_key l.records)
