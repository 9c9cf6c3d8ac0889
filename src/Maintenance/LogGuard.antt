-- ===== src/Maintenance/LogGuard.antt =====
-- `_AccountLogGuardService` of core/maintenance.py. The argument `logs` is what
-- `fetch_recent_usage_logs` answers.
pub mod Counted
use sub2_ddq.Prelude.{
  ℕ, ◌+◌, ◌-◌, ◌*◌, Bool, true, false, ◌&&◌, ◌||◌, not, Option, none, some, List, [], ◌∷◌, map,
  Dict, get, put, get_count, elem, subset, keep_if, find_first, sort_by, ltb, leb, ◌==◌, is_some,
  if◌then◌else◌,
}
use sub2_ddq.Guardian.Contracts.{Moment, seconds}
use sub2_ddq.Guardian.Selection.{is_oauth_type}
use sub2_ddq.Maintenance.{
  AccountGroupState, Label, MaintenanceAdjustment, MaintenanceNotice, MaintenancePolicy, Reason,
  UsageLogRecord, name_or, is_usable,
}
use sub2_ddq.Maintenance.Sweep.{has_groups}

-- The adjustments and notices of a run; a naive time is refused.
pub data GuardResult : Type 0 where
  found : List MaintenanceAdjustment → List MaintenanceNotice → GuardResult
  naive_now : GuardResult

-- The accounts of `account_by_id`.
unfoldable pub is_guarded : List ℕ → List ℕ → AccountGroupState → Bool
is_guarded monitored adjusted a =
    is_usable a
    && not (is_oauth_type a.account_type)
    && has_groups a.group_ids
    && subset a.group_ids monitored
    && not (elem a.account_id adjusted)

abbrev above : ℕ → Option ℕ → Bool
above limit none = false
above limit (some ms) = ltb limit ms

-- A late first token within the window before `end`.
unfoldable pub is_slow : MaintenancePolicy → ℕ → UsageLogRecord → Bool
is_slow policy end r =
    leb (end - seconds (60 * policy.slow_first_token_window_minutes)) r.created_at
    && ltb r.created_at end
    && above policy.slow_first_token_ms r.first_token_ms

-- `slow_counts`
unfoldable pub count_slow :
    (ℕ → Bool) → (UsageLogRecord → Bool) → List UsageLogRecord → Dict ℕ → Dict ℕ
count_slow guarded slow [] counts = counts
count_slow guarded slow (r ∷ logs) counts = count_slow guarded slow logs (
    if guarded r.account_id && slow r
    then put r.account_id (get_count r.account_id counts + 1) counts
    else counts)

abbrev pub guard_adjustment : MaintenancePolicy → AccountGroupState → ℕ → MaintenanceAdjustment
guard_adjustment policy a n = record {
  account_id = a.account_id;
  account_name = name_or a.name (Label.numbered a.account_id);
  reason = Reason.slow_first_token;
  group_ids = a.group_ids;
  threshold_ms = policy.slow_first_token_ms;
  observed_count = n;
  previous_status = a.status;
  previous_schedulable = a.schedulable;
}

abbrev pub by_key : ℕ × ℕ → ℕ × ℕ → Bool
by_key a b = leb a.0 b.0

-- The last loop, over the counts in the order of their accounts. `find` is `account_by_id[...]`,
-- which has every account that is counted.
unfoldable pub guard_loop :
    MaintenancePolicy
    → (ℕ → Option AccountGroupState)
    → List ℕ
    → List ℕ
    → List (ℕ × ℕ)
    → List MaintenanceAdjustment × List MaintenanceNotice
guard_loop policy find adjusted known [] = ([], [])
guard_loop policy find adjusted known (e ∷ es) =
    let (adjustments, notices) = guard_loop policy find adjusted known es in
    if ltb e.1 policy.slow_first_token_event_threshold || elem e.0 adjusted
    then (adjustments, notices)
    else elim (find e.0) [
      | none ↦ (adjustments, notices)
      | some a ↦
          if not (has_groups a.group_ids) || not (subset a.group_ids known)
          then (
            adjustments,
            MaintenanceNotice.ambiguous_candidate e.0 (name_or a.name (Label.numbered e.0))
                  Reason.slow_first_token
                ∷ notices,
          )
          else (guard_adjustment policy a e.1 ∷ adjustments, notices)
    ]

-- `account_by_id.get(id)`: of several accounts with one ID the dictionary holds the last.
unfoldable pub guarded_account :
    List ℕ → List ℕ → List AccountGroupState → ℕ → Option AccountGroupState
guarded_account monitored adjusted [] id = none
guarded_account monitored adjusted (a ∷ accounts) id =
    elim (guarded_account monitored adjusted accounts id) [
      | some b ↦ some b
      | none ↦ if is_guarded monitored adjusted a && a.account_id == id then some a else none
    ]

-- `_AccountLogGuardService.run`
unfoldable pub guard_run :
    MaintenancePolicy
    → List UsageLogRecord
    → List AccountGroupState
    → Moment
    → List ℕ
    → List ℕ
    → List ℕ
    → GuardResult
guard_run policy logs accounts now adjusted known monitored =
    if not policy.log_account_guard_enabled then GuardResult.found [] [] else elim now [
      | Moment.naive t ↦ GuardResult.naive_now
      | Moment.aware end ↦
          let find = guarded_account monitored adjusted accounts in
          let counts = count_slow (λ id. is_some (find id)) (is_slow policy end) logs [] in
          let (adjustments, notices) =
            guard_loop policy find adjusted known (sort_by by_key counts) in
          GuardResult.found adjustments notices
    ]
