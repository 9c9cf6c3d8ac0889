-- ===== src/Maintenance.antt =====
-- core/maintenance.py, with the records of core/probe.py that it reads: closing accounts whose
-- channel tests fail or whose first tokens come late. IDs are the positive numbers that they spell
-- and times are microseconds.
pub mod Pool
pub mod Sweep
pub mod LogGuard
pub mod Coordinator
mod Examples
use sub2_ddq.Prelude.{
  ℕ, Bool, true, false, ◌&&◌, not, Option, List, [], ◌∷◌, map, Text, ◌==◌, if◌then◌else◌,
}
use sub2_ddq.Guardian.Contracts.{AccountStatus, is_active}

pub data Bucket : Type 0 where
  available temporary error closed : Bucket

pub data ChannelStatus : Type 0 where
  operational degraded failed error unknown : ChannelStatus

pub record AccountGroupState : Type 0 where
  pub account_id : ℕ
  pub group_ids : List ℕ
  pub bucket : Bucket
  pub name : Text
  pub status : AccountStatus
  pub schedulable : Bool
  pub expired : Bool
  pub temporary_unavailable : Bool
  pub automatic_pause : Bool
  pub account_type : Text

pub record GroupAccountCounts : Type 0 where
  pub group_id : ℕ
  pub name : Text
  pub total_count : ℕ
  pub available_count : ℕ
  pub temporary_unavailable_count : ℕ
  pub error_count : ℕ

-- The fields of a channel that the maintenance reads.
pub record ChannelHealth : Type 0 where
  pub name : Text
  pub model : Text
  pub status : ChannelStatus

pub record ChannelProbe : Type 0 where
  pub channel : ChannelHealth
  pub accounts : Option GroupAccountCounts

pub record AccountTestResult : Type 0 where
  pub account_id : ℕ
  pub success : Bool
  pub definitive_failure : Bool

pub record AccountDisableResult : Type 0 where
  pub account_id : ℕ
  pub success : Bool
  pub state_uncertain : Bool

pub record UsageLogRecord : Type 0 where
  pub account_id : ℕ
  pub created_at : ℕ
  pub first_token_ms : Option ℕ

pub record MaintenancePolicy : Type 0 where
  pub channel_account_sweep_enabled : Bool
  pub channel_account_sweep_max_accounts : ℕ
  pub log_account_guard_enabled : Bool
  pub slow_first_token_event_threshold : ℕ
  pub slow_first_token_ms : ℕ
  pub slow_first_token_window_minutes : ℕ

pub data Reason : Type 0 where
  channel_test_failed slow_first_token : Reason

-- A name that is shown: the account's own, or its ID spelled out.
pub data Label : Type 0 where
  named : Text → Label
  numbered : ℕ → Label

pub record MaintenanceAdjustment : Type 0 where
  pub account_id : ℕ
  pub account_name : Label
  pub reason : Reason
  pub group_ids : List ℕ
  pub threshold_ms : ℕ
  pub observed_count : ℕ
  pub previous_status : AccountStatus
  pub previous_schedulable : Bool

-- A notice by its code, with the fields that the source fills in for that code.
pub data MaintenanceNotice : Type 0 where
  no_known_groups : MaintenanceNotice
  unmapped_channel : (group_name : Text) → MaintenanceNotice
  unknown_group : (group_id : ℕ) (group_name : Text) → MaintenanceNotice
  ambiguous_account : (account_id : ℕ) (account_name : Label) → MaintenanceNotice
  ambiguous_candidate :
      (account_id : ℕ) (account_name : Label) (reason : Reason) → MaintenanceNotice
  sweep_limit_reached : (group_id : ℕ) (group_name : Text) → MaintenanceNotice
  no_healthy_account : (group_id : ℕ) (group_name : Text) → MaintenanceNotice
  min_pool_protected :
      (account_id : ℕ) (account_name : Label) (reason : Reason) (group_ids : List ℕ)
      → MaintenanceNotice
  mutation_state_uncertain :
      (account_id : ℕ) (account_name : Label) (reason : Reason) → MaintenanceNotice

-- `name or other`
abbrev pub name_or : Text → Label → Label
name_or [] other = other
name_or (c ∷ s) other = Label.named (c ∷ s)

abbrev pub is_available : Bucket → Bool
is_available Bucket.available = true
is_available _ = false

-- `_MinimumUsablePool._is_usable`
unfoldable pub is_usable : AccountGroupState → Bool
is_usable a = is_available a.bucket && is_active a.status && a.schedulable && not a.expired

-- The account as `run` keeps it after a successful disable.
abbrev pub as_closed : AccountGroupState → AccountGroupState
as_closed a = record a {
  bucket = Bucket.closed;
  status = AccountStatus.inactive;
  schedulable = false;
}

-- `[replace(item, ...) if item.account_id == account_id else item for item in fresh_accounts]`
abbrev pub close_account : ℕ → List AccountGroupState → List AccountGroupState
close_account id accounts = map (λ a. if a.account_id == id then as_closed a else a) accounts
