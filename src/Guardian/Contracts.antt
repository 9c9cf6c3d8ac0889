-- ===== src/Guardian/Contracts.antt =====
-- src/sub2api_mcp/guardian/contracts.py and the account observation of src/sub2api_mcp/contracts.py.
-- Account and group IDs match ^[1-9][0-9]{0,19}$, so they are the positive numbers that they spell.
-- A score or a confidence is a finite float that is not negative, so it is a whole multiple of
-- 2 ^ -1074, and the model keeps that multiple: comparisons are exact. Times are microseconds.
use sub2_ddq.Prelude.{ℕ, ◌*◌, Bool, true, false, Option, List, Text}

pub data GuardianEventType : Type 0 where
  perfect slow_ttfb upstream_unknown gateway_error quota_exhausted probe_fail fatal :
      GuardianEventType

pub data GuardianFreshness : Type 0 where
  fresh stale expired : GuardianFreshness

pub data GuardianFieldOwner : Type 0 where
  upstream human guardian : GuardianFieldOwner

pub data GuardianHealth : Type 0 where
  pending warming_up stale healthy degraded rate_limited fused forced_keep : GuardianHealth
  manually_paused excluded upstream_disabled : GuardianHealth

pub data ManualControl : Type 0 where
  none paused excluded fused : ManualControl

pub data AccountRecoveryOwner : Type 0 where
  scheduler guardian : AccountRecoveryOwner

pub data AccountRecoveryRunTrigger : Type 0 where
  bad_account_state channel_error hourly_active_check manual : AccountRecoveryRunTrigger

pub data AccountRecoveryClassification : Type 0 where
  available manual_pause upstream_error disabled system_quarantine excluded :
      AccountRecoveryClassification

pub data AccountRecoveryResult : Type 0 where
  enabled disabled indeterminate skipped : AccountRecoveryResult

pub data AccountTestExecutionResult : Type 0 where
  success definitive_failure indeterminate skipped : AccountTestExecutionResult

pub data AccountMutationResult : Type 0 where
  applied no_change blocked indeterminate : AccountMutationResult

pub data AccountStatus : Type 0 where
  active error disabled inactive : AccountStatus

-- A `datetime` with or without a time zone; a naive one is refused at the entry points.
pub data Moment : Type 0 where
  naive aware : ℕ → Moment

-- One second, in microseconds.
abbrev pub seconds : ℕ → ℕ
seconds n = n * 1000000

pub record BreakerPolicy : Type 0 where
  pub enabled : Bool
  pub http_window : ℕ
  pub http_failures : ℕ
  pub http_score_below : ℕ
  pub latency_window : ℕ
  pub latency_occurrences : ℕ
  pub latency_ttfb_ms : ℕ
  pub max_switch_per_round : ℕ
  pub fused_cooldown_seconds : ℕ
  pub min_pool_size : ℕ
  pub min_pool_score : ℕ
  pub hard_fatal : Bool
  pub http_degrade_only : Bool
  pub latency_degrade_only : Bool
  pub instant_status_codes : List ℕ

pub record DegradePolicy : Type 0 where
  pub enabled : Bool
  pub score_threshold : ℕ

pub record RecoveryPolicy : Type 0 where
  pub enabled : Bool
  pub probe_interval_seconds : ℕ
  pub target_score : ℕ
  pub success_count : ℕ
  pub hold_seconds : ℕ

pub record ConfidencePolicy : Type 0 where
  pub degrade_min : ℕ
  pub fuse_min : ℕ
  pub recover_min : ℕ

pub record ChannelDecisionInput : Type 0 where
  pub channel_id : Text
  pub score : ℕ
  pub recent_events : List GuardianEventType
  pub recent_ttfb_ms : List ℕ
  pub current_health : GuardianHealth
  pub confidence : ℕ
  pub freshness : GuardianFreshness
  pub warming_up : Bool
  pub fatal_confirmed : Bool
  pub guardian_owned_fuse : Bool
  pub manual_control : ManualControl
  pub schedulable : Bool
  pub group_available_count : ℕ
  pub success_streak : ℕ
  pub healthy_since : Option ℕ
  pub fused_until : Option ℕ
  pub now : ℕ
  pub breaker : BreakerPolicy
  pub degrade : DegradePolicy
  pub recovery : RecoveryPolicy
  pub confidence_policy : ConfidencePolicy

pub record RecoveryProbeBudgetPolicy : Type 0 where
  pub enabled : Bool
  pub interval_seconds : ℕ
  pub concurrency : ℕ
  pub per_channel_hourly_requests : ℕ
  pub daily_requests : ℕ
  pub daily_tokens : ℕ

pub record RecoveryProbeCandidate : Type 0 where
  pub channel_id : Text
  pub health : GuardianHealth
  pub manual_control : ManualControl
  pub fuse_owner : GuardianFieldOwner
  pub uniquely_mapped : Bool
  pub last_probe_at : Option ℕ

pub record AccountRecoveryPolicy : Type 0 where
  pub enabled : Bool
  pub owner : AccountRecoveryOwner
  pub max_concurrency : ℕ
  pub max_accounts_per_episode : ℕ
  pub retry_cooldown_seconds : ℕ

pub record AccountObservation : Type 0 where
  pub account_id : ℕ
  pub name : Text
  pub group_ids : List ℕ
  pub status : AccountStatus
  pub schedulable : Bool
  pub expired : Bool
  pub temporary_unavailable : Bool
  pub automatic_pause : Bool
  pub account_type : Text

abbrev pub is_fused : GuardianHealth → Bool
is_fused GuardianHealth.fused = true
is_fused _ = false

abbrev pub is_fresh : GuardianFreshness → Bool
is_fresh GuardianFreshness.fresh = true
is_fresh _ = false

abbrev pub is_active : AccountStatus → Bool
is_active AccountStatus.active = true
is_active _ = false
