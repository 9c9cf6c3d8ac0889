-- ===== src/Maintenance/Coordinator.antt =====
-- `MaintenanceCoordinator` of core/maintenance.py. What the gateway answers is the record `Gateway`;
-- the observer only watches, and a call that raises an exception ends the run at that point.
pub mod Safety
pub mod Report
use sub2_ddq.Prelude.{
  ℕ, Bool, true, false, ◌&&◌, ◌||◌, not, Option, none, some, List, [], ◌∷◌, ◌++◌, map, Text, Dict,
  put, elem, subset, keep_if, find_first, sort_by, leb, ◌==◌, if◌then◌else◌,
}
use sub2_ddq.Guardian.Contracts.{Moment}
use sub2_ddq.Maintenance.{
  AccountDisableResult, AccountGroupState, AccountTestResult, Bucket, ChannelProbe, Label,
  MaintenanceAdjustment, MaintenanceNotice, MaintenancePolicy, Reason, UsageLogRecord,
  close_account, is_usable, name_or,
}
use sub2_ddq.Maintenance.Pool.{blocking_group_ids, can_disable, minimum_usable_pool}
use sub2_ddq.Maintenance.Sweep.{eligible, has_groups, sweep_run}
use sub2_ddq.Maintenance.LogGuard.{GuardResult, guard_run}

pub record Gateway : Type 0 where
  pub known_group_ids : List ℕ
  pub account_states : List AccountGroupState
  pub test_account_availability : ℕ → Text → AccountTestResult
  pub recent_usage_logs : List UsageLogRecord
  pub fresh_account_states : List AccountGroupState
  pub disable_account : ℕ → AccountDisableResult

-- One candidate: no call, and why, or a call of `disable_account` and its result.
pub data Attempt : Type 0 where
  withheld : MaintenanceNotice → Attempt
  called : MaintenanceAdjustment → AccountDisableResult → Attempt

abbrev same_ids : List ℕ → List ℕ → Bool
same_ids [] [] = true
same_ids (a ∷ s) (b ∷ t) = a == b && same_ids s t
same_ids _ _ = false

-- A result for another account, or one that both succeeds and is uncertain, is uncertain.
unfoldable pub checked_disable : ℕ → AccountDisableResult → AccountDisableResult
checked_disable id r =
    if not (r.account_id == id) || (r.success && r.state_uncertain)
    then record { account_id = id; success = false; state_uncertain = true }
    else r

abbrev still_eligible : Reason → List ℕ → AccountGroupState → Bool
still_eligible Reason.slow_first_token adjusted a = is_usable a
still_eligible Reason.channel_test_failed adjusted a = eligible adjusted a

-- Whether the account is still what the candidate was found as, in known and monitored groups.
unfoldable pub is_current :
    List ℕ → List ℕ → List ℕ → MaintenanceAdjustment → AccountGroupState → Bool
is_current known monitored adjusted c a =
    still_eligible c.reason adjusted a
    && same_ids a.group_ids c.group_ids
    && has_groups a.group_ids
    && subset a.group_ids known
    && subset a.group_ids monitored

abbrev pub fresh_account : ℕ → List AccountGroupState → Option AccountGroupState
fresh_account id accounts = find_first (λ a. a.account_id == id) accounts

abbrev fresh_adjustment : MaintenanceAdjustment → AccountGroupState → MaintenanceAdjustment
fresh_adjustment c a = record {
  account_id = c.account_id;
  account_name = name_or a.name c.account_name;
  reason = c.reason;
  group_ids = a.group_ids;
  threshold_ms = c.threshold_ms;
  observed_count = c.observed_count;
  previous_status = a.status;
  previous_schedulable = a.schedulable;
}

module _ (known monitored : List ℕ) (disable : ℕ → AccountDisableResult) where
  -- The body of the loop up to the checked result, on the account as it is now.
  unfoldable pub attempt_on :
      List ℕ → List AccountGroupState → MaintenanceAdjustment → AccountGroupState → Attempt
  attempt_on adjusted accounts c a =
      if not (is_current known monitored adjusted c a)
      then Attempt.withheld
          (MaintenanceNotice.ambiguous_candidate c.account_id c.account_name c.reason)
      else if not (can_disable (minimum_usable_pool accounts adjusted) a)
      then Attempt.withheld (
          MaintenanceNotice.min_pool_protected c.account_id (name_or a.name c.account_name) c.reason
            (blocking_group_ids (minimum_usable_pool accounts adjusted) a))
      else Attempt.called (fresh_adjustment c a)
          (checked_disable c.account_id (disable c.account_id))

  unfoldable pub attempt : List ℕ → List AccountGroupState → MaintenanceAdjustment → Attempt
  attempt adjusted accounts c = elim (fresh_account c.account_id accounts) [
    | none ↦
        Attempt.withheld
          (MaintenanceNotice.ambiguous_candidate c.account_id c.account_name c.reason)
    | some a ↦ attempt_on adjusted accounts c a
  ]

-- What the loop leaves: the report, `adjusted_ids`, `fresh_accounts`, and the calls it made.
pub record LoopResult : Type 0 where
  pub adjustments : List MaintenanceAdjustment
  pub notices : List MaintenanceNotice
  pub adjusted : List ℕ
  pub accounts : List AccountGroupState
  pub calls : List AccountDisableResult

abbrev pub noted : MaintenanceNotice → LoopResult → LoopResult
noted n r = record r { notices = n ∷ r.notices }

abbrev pub with_call : AccountDisableResult → LoopResult → LoopResult
with_call c r = record r { calls = c ∷ r.calls }

abbrev pub with_adjustment : MaintenanceAdjustment → LoopResult → LoopResult
with_adjustment a r = record r { adjustments = a ∷ r.adjustments }

abbrev pub nothing_left : List ℕ → List AccountGroupState → LoopResult
nothing_left adjusted accounts = record {
  adjustments = [];
  notices = [];
  adjusted = adjusted;
  accounts = accounts;
  calls = [];
}

module _ (known monitored : List ℕ) (disable : ℕ → AccountDisableResult) where
  -- The loop over the sorted candidates.
  unfoldable pub disable_loop :
      List ℕ → List AccountGroupState → List MaintenanceAdjustment → LoopResult
  disable_loop adjusted accounts [] = nothing_left adjusted accounts
  disable_loop adjusted accounts (c ∷ cs) =
      elim (attempt known monitored disable adjusted accounts c) [
        | Attempt.withheld n ↦ noted n (disable_loop adjusted accounts cs)
        | Attempt.called a r ↦ elim r.state_uncertain [
          | true ↦ with_call r (
              noted
                (MaintenanceNotice.mutation_state_uncertain a.account_id a.account_name a.reason)
                (nothing_left adjusted accounts))
          | false ↦ elim r.success [
            | true ↦ with_call r (
                with_adjustment a
                  (disable_loop (a.account_id ∷ adjusted) (close_account a.account_id accounts) cs))
            | false ↦ with_call r (disable_loop adjusted accounts cs)
          ]
        ]
      ]

abbrev put_all :
    List MaintenanceAdjustment → Dict MaintenanceAdjustment → Dict MaintenanceAdjustment
put_all [] d = d
put_all (c ∷ cs) d = put_all cs (put c.account_id c d)

abbrev by_key : ℕ × MaintenanceAdjustment → ℕ × MaintenanceAdjustment → Bool
by_key a b = leb a.0 b.0

-- `candidate_by_id`, in the order of the loop.
unfoldable pub ordered_candidates :
    List MaintenanceAdjustment → List MaintenanceAdjustment → List MaintenanceAdjustment
ordered_candidates log channel = map (λ e. e.1) (sort_by by_key (put_all channel (put_all log [])))

abbrev is_closed : AccountGroupState → Bool
is_closed a = elim a.bucket [ Bucket.closed ↦ true | _ ↦ false ]

abbrev probe_group_ids : List ChannelProbe → List ℕ
probe_group_ids [] = []
probe_group_ids (p ∷ ps) = elim p.accounts [
  | none ↦ probe_group_ids ps
  | some group ↦ group.group_id ∷ probe_group_ids ps
]

-- `monitored_group_ids`
unfoldable pub monitored_groups : List ℕ → List ChannelProbe → Option (List ℕ) → List ℕ
monitored_groups known probes none = known ++ probe_group_ids probes
monitored_groups known probes (some excluded) =
    keep_if (λ g. not (elem g excluded)) (known ++ probe_group_ids probes)

-- `self._disabled_ids.intersection_update(current_closed_ids)`
unfoldable pub kept_disabled : List ℕ → List AccountGroupState → List ℕ
kept_disabled disabled accounts =
    let closed_ids = map (λ a. a.account_id) (keep_if is_closed accounts) in
    keep_if (λ id. elem id closed_ids) disabled

-- A report, with `self._disabled_ids` and the calls; or a naive time.
pub data MaintenanceResult : Type 0 where
  report :
      List MaintenanceAdjustment
      → List MaintenanceNotice
      → (disabled_ids : List ℕ) → (calls : List AccountDisableResult) → MaintenanceResult
  naive_now : MaintenanceResult

abbrev finish_run : List ℕ → List MaintenanceNotice → LoopResult → MaintenanceResult
finish_run kept notices r =
    MaintenanceResult.report r.adjustments (notices ++ r.notices) (kept ++ r.adjusted) r.calls

-- From the merge of the candidates on.
unfoldable pub close_candidates :
    Gateway
    → (known monitored kept adjusted : List ℕ) → List MaintenanceAdjustment × List MaintenanceNotice
    → GuardResult
    → MaintenanceResult
close_candidates gateway known monitored kept adjusted channel GuardResult.naive_now =
    MaintenanceResult.naive_now
close_candidates gateway known monitored kept adjusted channel (GuardResult.found log log_notices) =
    finish_run kept (channel.1 ++ log_notices) (
      disable_loop known monitored gateway.disable_account adjusted gateway.fresh_account_states
        (ordered_candidates log channel.0))

-- `MaintenanceCoordinator.run`, behind the tests of the policy and the time.
unfoldable pub run_locked :
    MaintenancePolicy
    → Gateway
    → List ChannelProbe
    → Moment
    → List ℕ
    → Option (List ℕ)
    → List ℕ
    → MaintenanceResult
run_locked policy gateway probes now excluded excluded_groups disabled =
    let known = gateway.known_group_ids in
    let monitored = monitored_groups known probes excluded_groups in
    let accounts = gateway.account_states in
    let kept = kept_disabled disabled accounts in
    let adjusted = kept ++ excluded in
    close_candidates gateway known monitored kept adjusted
      (sweep_run policy gateway.test_account_availability probes accounts adjusted known monitored)
      (guard_run policy gateway.recent_usage_logs accounts now adjusted known monitored)

-- `MaintenanceCoordinator.run`; `disabled` is `self._disabled_ids`.
unfoldable pub maintenance_run :
    MaintenancePolicy
    → Gateway
    → List ChannelProbe
    → Moment
    → List ℕ
    → Option (List ℕ)
    → List ℕ
    → MaintenanceResult
maintenance_run policy gateway probes now excluded excluded_groups disabled =
    if not (policy.channel_account_sweep_enabled || policy.log_account_guard_enabled)
    then MaintenanceResult.report [] [] disabled []
    else elim now [
      | Moment.naive t ↦ MaintenanceResult.naive_now
      | Moment.aware t ↦
          if not (has_groups gateway.known_group_ids)
          then MaintenanceResult.report [] (MaintenanceNotice.no_known_groups ∷ []) disabled []
          else run_locked policy gateway probes (Moment.aware t) excluded excluded_groups disabled
    ]
