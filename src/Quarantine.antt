-- ===== src/Quarantine.antt =====
-- The account quarantine registry of src/sub2api_mcp/repository.py: the tables
-- `account_quarantines`, `account_quarantine_intents` and `account_quarantine_restore_intents`, and
-- every operation on them. A table is a dictionary by its primary key, and an operation is one
-- transaction: what raises inside it writes nothing.
pub mod Records
pub mod Probe
pub mod Stages
pub mod Sound
pub mod Listing
mod Ordered
pub mod Scan
pub mod Excluded
mod Examples
mod Entry
mod Restore
pub mod Refinement
pub mod ProbeLaws
use sub2_ddq.Prelude.{
  ℕ, ◌+◌, Bool, true, false, Option, none, some, List, Dict, get, put, remove, is_some, ltb, leb,
  ◌==◌, if◌then◌else◌, length,
}
use sub2_ddq.Guardian.Contracts.{Moment, seconds}
use sub2_ddq.Quarantine.Records.{
  AccountQuarantineRecord, AccountQuarantineIntent, AccountQuarantineReason, QuarantineProbeResult,
  is_valid_record, is_valid_intent, is_slow_first_token, is_within,
}

-- A restore intent is the time at which it was made.
pub record Registry : Type 0 where
  pub quarantines : Dict AccountQuarantineRecord
  pub intents : Dict AccountQuarantineIntent
  pub restores : Dict ℕ

pub data QuarantineError : Type 0 where
  data_invalid transition_conflict capacity_reached not_found value_error : QuarantineError

-- What an operation returns or raises.
pub data Reply : Type 0 where
  quarantine : AccountQuarantineRecord → Reply
  intent : AccountQuarantineIntent → Reply
  restore : ℕ → Reply
  nothing : Reply
  removed : Bool → Reply
  raised : QuarantineError → Reply

abbrev pub max_account_quarantines : ℕ
max_account_quarantines = 10000

-- `_quarantine_from_row`
unfoldable pub quarantine_from_row : AccountQuarantineRecord → Reply
quarantine_from_row r =
    if is_valid_record r then Reply.quarantine r else Reply.raised QuarantineError.data_invalid

-- `_quarantine_intent_from_row`
unfoldable pub quarantine_intent_from_row : AccountQuarantineIntent → Reply
quarantine_intent_from_row i =
    if is_valid_intent i then Reply.intent i else Reply.raised QuarantineError.data_invalid

-- The sum of the two counts.
unfoldable pub registry_count : Registry → ℕ
registry_count g = length g.quarantines + length g.intents

unfoldable pub is_full : Registry → Bool
is_full g = leb max_account_quarantines (registry_count g)

-- `upsert_account_quarantine`, by the rows that its two queries find.
abbrev pub upsert_quarantine_found :
    AccountQuarantineRecord
    → Registry
    → Option AccountQuarantineRecord
    → Option AccountQuarantineIntent
    → Registry × Reply
upsert_quarantine_found r g (some row) (some i) = (g, Reply.raised QuarantineError.data_invalid)
upsert_quarantine_found r g none (some i) = (g, Reply.raised QuarantineError.transition_conflict)
upsert_quarantine_found r g (some row) none = (g, quarantine_from_row row)
upsert_quarantine_found r g none none =
    if is_full g
    then (g, Reply.raised QuarantineError.capacity_reached)
    else (record g { quarantines = put r.account_id r g.quarantines }, quarantine_from_row r)

unfoldable pub upsert_account_quarantine : AccountQuarantineRecord → Registry → Registry × Reply
upsert_account_quarantine r g =
    upsert_quarantine_found r g (get r.account_id g.quarantines) (get r.account_id g.intents)

-- `upsert_account_quarantine_intent`, by the rows that its two queries find.
abbrev pub upsert_intent_found :
    AccountQuarantineIntent
    → Registry
    → Option AccountQuarantineIntent
    → Option AccountQuarantineRecord
    → Registry × Reply
upsert_intent_found i g (some old) (some row) = (g, Reply.raised QuarantineError.data_invalid)
upsert_intent_found i g none (some row) = (g, Reply.raised QuarantineError.transition_conflict)
upsert_intent_found i g (some old) none = (g, quarantine_intent_from_row old)
upsert_intent_found i g none none =
    if is_full g
    then (g, Reply.raised QuarantineError.capacity_reached)
    else (record g { intents = put i.account_id i g.intents }, quarantine_intent_from_row i)

unfoldable pub upsert_account_quarantine_intent :
    AccountQuarantineIntent → Registry → Registry × Reply
upsert_account_quarantine_intent i g =
    upsert_intent_found i g (get i.account_id g.intents) (get i.account_id g.quarantines)

-- The row that a promotion inserts.
unfoldable pub marker_of : AccountQuarantineIntent → AccountQuarantineRecord
marker_of i = record {
  account_id = i.account_id;
  reason = i.reason;
  group_ids = i.group_ids;
  threshold_ms = i.threshold_ms;
  observed_count = i.observed_count;
  quarantined_at = i.created_at;
  last_probe_at = none;
  last_probe_latency_ms = none;
  last_probe_result = QuarantineProbeResult.never;
  recovery_success_streak = 0;
}

-- The answer is the row that the table then holds, the old one where the insertion did nothing.
abbrev pub promote_found :
    ℕ
    → Registry
    → Option AccountQuarantineIntent
    → Option AccountQuarantineRecord
    → Registry × Reply
promote_found id g none old = (g, Reply.nothing)
promote_found id g (some i) (some old) =
    (record g { intents = remove id g.intents }, quarantine_from_row old)
promote_found id g (some i) none = (
  record g { quarantines = put id (marker_of i) g.quarantines; intents = remove id g.intents },
  quarantine_from_row (marker_of i),
)

unfoldable pub promote_account_quarantine_intent : ℕ → Registry → Registry × Reply
promote_account_quarantine_intent id g =
    promote_found id g (get id g.intents) (get id g.quarantines)

unfoldable pub remove_account_quarantine_intent : ℕ → Registry → Registry × Reply
remove_account_quarantine_intent id g =
    (record g { intents = remove id g.intents }, Reply.removed (is_some (get id g.intents)))

abbrev pub begin_restore_found :
    ℕ → ℕ → Registry → Option AccountQuarantineRecord → Option ℕ → Registry × Reply
begin_restore_found id now g none old = (g, Reply.raised QuarantineError.not_found)
begin_restore_found id now g (some row) (some made) = (g, Reply.restore made)
begin_restore_found id now g (some row) none =
    (record g { restores = put id now g.restores }, Reply.restore now)

unfoldable pub begin_account_quarantine_restore : ℕ → ℕ → Registry → Registry × Reply
begin_account_quarantine_restore id now g =
    begin_restore_found id now g (get id g.quarantines) (get id g.restores)

-- `DELETE FROM account_quarantines`, which deletes the restore intent with it.
unfoldable pub delete_quarantine : ℕ → Registry → Registry
delete_quarantine id g = record g {
  quarantines = remove id g.quarantines;
  restores = remove id g.restores;
}

-- A row that cannot be read stays.
abbrev pub complete_restore_found :
    ℕ → Registry → Option ℕ → Option AccountQuarantineRecord → Registry × Reply
complete_restore_found id g none marker = (g, Reply.nothing)
complete_restore_found id g (some made) none = (g, Reply.nothing)
complete_restore_found id g (some made) (some row) =
    (if is_valid_record row then delete_quarantine id g else g, quarantine_from_row row)

unfoldable pub complete_account_quarantine_restore : ℕ → Registry → Registry × Reply
complete_account_quarantine_restore id g =
    complete_restore_found id g (get id g.restores) (get id g.quarantines)

unfoldable pub cancel_account_quarantine_restore : ℕ → Registry → Registry × Reply
cancel_account_quarantine_restore id g =
    (record g { restores = remove id g.restores }, Reply.removed (is_some (get id g.restores)))

unfoldable pub remove_verified_account_quarantine : ℕ → Registry → Registry × Reply
remove_verified_account_quarantine id g =
    (delete_quarantine id g, Reply.removed (is_some (get id g.quarantines)))
