-- ===== src/Maintenance/Examples.antt =====
-- Maintenance runs over concrete accounts.
use sub2_ddq.Prelude.{
  ℕ, ◌≤◌, ◌≡◌, ◌||◌, ◌++◌, refl, true, false, none, some, List, [], ◌∷◌, Text, codes, get_count,
  lower, strip, length, elem, All, ◌==◌,
}
use sub2_ddq.Guardian.Contracts.{AccountStatus, Moment, seconds}
use sub2_ddq.Guardian.Selection.{is_oauth_type}
use sub2_ddq.Maintenance.{
  AccountDisableResult, AccountGroupState, AccountTestResult, Bucket, ChannelProbe, ChannelStatus,
  close_account, is_usable, MaintenancePolicy, UsageLogRecord,
}
use sub2_ddq.Maintenance.Pool.{can_disable, count_accounts, count_in_groups, minimum_usable_pool}
use sub2_ddq.Maintenance.Pool.Counts.{
  HasDistinctGroups, IsSnapshot, can_disable-is_served, is_served, minimum_usable_pool_lem,
  usable_in,
}
use sub2_ddq.Maintenance.Sweep.{sweep_run}
use sub2_ddq.Maintenance.Sweep.Justified.{
  IsSweepAdjustment, length-sweep_run, sweep_run-IsSweepAdjustment,
}
use sub2_ddq.Maintenance.LogGuard.{
  GuardResult, count_slow, guard_adjustment, guard_loop, guard_run, guarded_account, is_guarded,
  is_slow,
}
use sub2_ddq.Maintenance.LogGuard.Counted.{IsGuardAdjustment, guard_run-IsGuardAdjustment}
use sub2_ddq.Maintenance.Coordinator.{Gateway, kept_disabled, maintenance_run}
use sub2_ddq.Maintenance.Coordinator.Report.{KeepsPools, maintenance_run-KeepsPools}

abbrev account : ℕ → AccountGroupState
account id = record {
  account_id = id;
  group_ids = 7 ∷ [];
  bucket = Bucket.available;
  name = codes "key";
  status = AccountStatus.active;
  schedulable = true;
  expired = false;
  temporary_unavailable = false;
  automatic_pause = false;
  account_type = codes "apikey";
}

abbrev accounts : List AccountGroupState
accounts = account 11 ∷ account 12 ∷ []

abbrev policy : MaintenancePolicy
policy = record {
  channel_account_sweep_enabled = true;
  channel_account_sweep_max_accounts = 1000;
  log_account_guard_enabled = true;
  slow_first_token_event_threshold = 3;
  slow_first_token_ms = 30000;
  slow_first_token_window_minutes = 3;
}

abbrev probes : List ChannelProbe
probes =
    record {
      channel = record { name = codes "channel"; model = codes "m"; status = ChannelStatus.failed };
      accounts = some (record {
        group_id = 7;
        name = codes "group";
        total_count = 2;
        available_count = 2;
        temporary_unavailable_count = 0;
        error_count = 0;
      });
    }
    ∷ []

-- Account 11 fails its test and account 12 passes.
abbrev test : ℕ → Text → AccountTestResult
test id model = record { account_id = id; success = id == 12; definitive_failure = id == 11 }

abbrev disable : ℕ → AccountDisableResult
disable id = record { account_id = id; success = true; state_uncertain = false }

abbrev slow_log : ℕ → UsageLogRecord
slow_log at = record { account_id = 12; created_at = seconds at; first_token_ms = some 40000 }

abbrev logs : List UsageLogRecord
logs = slow_log 990 ∷ slow_log 980 ∷ slow_log 970 ∷ slow_log 100 ∷ []

abbrev gateway : Gateway
gateway = record {
  known_group_ids = 7 ∷ [];
  account_states = accounts;
  test_account_availability = test;
  recent_usage_logs = logs;
  fresh_account_states = accounts;
  disable_account = disable;
}

accounts-IsSnapshot : IsSnapshot accounts
accounts-IsSnapshot = refl

accounts-HasDistinctGroups : HasDistinctGroups accounts
accounts-HasDistinctGroups = (refl, (refl, tt))

-- Both accounts are candidates, and only the first is closed.
maintenance_run-KeepsPools_example :
    KeepsPools
      (kept_disabled [] gateway.account_states ++ [])
      gateway
      (maintenance_run policy gateway probes (Moment.aware (seconds 1000)) [] none [])
maintenance_run-KeepsPools_example =
    maintenance_run-KeepsPools policy gateway probes (Moment.aware (seconds 1000)) [] none []
      accounts-IsSnapshot accounts-HasDistinctGroups

sweep_run-IsSweepAdjustment_example :
    All
      (IsSweepAdjustment policy test probes accounts [] (7 ∷ []) (7 ∷ []))
      (sweep_run policy test probes accounts [] (7 ∷ []) (7 ∷ [])).0
sweep_run-IsSweepAdjustment_example =
    sweep_run-IsSweepAdjustment policy test probes accounts [] (7 ∷ []) (7 ∷ [])

length-sweep_run_example :
    length (sweep_run policy test probes accounts [] (7 ∷ []) (7 ∷ [])).0 ≤ 1000
length-sweep_run_example = length-sweep_run policy test probes accounts [] (7 ∷ []) (7 ∷ [])

finds_slow :
    guard_run policy logs accounts (Moment.aware (seconds 1000)) [] (7 ∷ []) (7 ∷ [])
    ≡ GuardResult.found (guard_adjustment policy (account 12) 3 ∷ []) []
unfolding guard_run guard_loop guarded_account count_slow is_slow is_guarded is_usable is_oauth_type
    lower strip
finds_slow = refl

guard_run-IsGuardAdjustment_example :
    All
      (IsGuardAdjustment policy logs accounts (seconds 1000) [] (7 ∷ []) (7 ∷ []))
      (guard_adjustment policy (account 12) 3 ∷ [])
guard_run-IsGuardAdjustment_example =
    guard_run-IsGuardAdjustment policy logs accounts (seconds 1000) [] (7 ∷ []) (7 ∷ []) finds_slow

minimum_usable_pool_lem_example :
    get_count 7 (minimum_usable_pool accounts (12 ∷ [])) ≡ usable_in (12 ∷ []) 7 accounts
minimum_usable_pool_lem_example = minimum_usable_pool_lem (12 ∷ []) 7 accounts

first_can_go : can_disable (minimum_usable_pool accounts []) (account 11) ≡ true
unfolding can_disable minimum_usable_pool count_accounts count_in_groups is_usable
first_can_go = refl

group_served : (is_served [] 7 accounts || elem 7 (account 11).group_ids) ≡ true
unfolding is_served is_usable
group_served = refl

can_disable-is_served_example : is_served (11 ∷ []) 7 (close_account 11 accounts) ≡ true
can_disable-is_served_example =
    can_disable-is_served [] accounts 11 (account 11) 7 accounts-IsSnapshot refl refl first_can_go
      group_served
