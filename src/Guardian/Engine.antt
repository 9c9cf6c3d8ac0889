-- ===== src/Guardian/Engine.antt =====
-- src/sub2api_mcp/guardian/engine.py: what one evaluation round decides about its channels, and the
-- classification of a monitor's status in src/sub2api_mcp/guardian/classifier.py. The health score
-- of a channel, its confidence and freshness are floating point work of the scoring and arguments
-- here.
pub mod Episodes
pub mod Round
pub mod Cycle
use sub2_ddq.Prelude.{
  ℕ, ◌+◌, Bool, true, false, not, ◌&&◌, ◌||◌, Option, none, some, List, [], ◌∷◌, Text, text_eq,
  codes, has_text, ltb, leb, if◌then◌else◌, elem, is_some, take, any, count,
}
use sub2_ddq.Guardian.Contracts.{
  GuardianEventType, GuardianFreshness, GuardianHealth, ManualControl, BreakerPolicy,
  RecoveryPolicy, seconds,
}
use sub2_ddq.Guardian.StateMachine.{ChannelDecision, Reason, is_fatal}

-- `status` of a monitor; any other text is `unknown`.
pub data MonitorStatus : Type 0 where
  operational degraded failed error unknown : MonitorStatus

-- `UpstreamProbeEntry`, as far as the round reads it.
pub record ProbeEntry : Type 0 where
  pub monitor_id : Text
  pub group_id : Option Text
  pub status : MonitorStatus
  pub observed_at : Option ℕ
  pub latency_ms : Option ℕ
  pub upstream_schedulable : Bool
  pub available_count : Option ℕ
  pub error_count : Option ℕ
  pub temporary_unavailable_count : Option ℕ
  pub closed_count : Option ℕ

-- The sets of `ScopePolicy` that the round reads.
pub record ScopePolicy : Type 0 where
  pub selected_groups_only : Bool
  pub managed_group_ids : List Text
  pub excluded_group_ids : List Text
  pub paused_channel_ids : List Text
  pub excluded_channel_ids : List Text

pub record GroupPolicyOverride : Type 0 where
  pub enabled : Option Bool
  pub min_pool_size : Option ℕ
  pub breaker_enabled : Option Bool
  pub recovery_enabled : Option Bool

-- `classify_monitor_status`, by the latency that counts as slow.
abbrev pub is_slow_latency : ℕ → Option ℕ → Bool
is_slow_latency slow none = false
is_slow_latency slow (some ms) = ltb slow ms

abbrev pub is_slow_timeout : ℕ → Option ℕ → Option ℕ → Bool
is_slow_timeout slow (some ms) (some available) = leb slow ms && ltb 0 available
is_slow_timeout slow _ _ = false

unfoldable pub classify_monitor_status : MonitorStatus → Option ℕ → Option ℕ → ℕ → GuardianEventType
classify_monitor_status MonitorStatus.operational latency available slow =
    if is_slow_latency slow latency then GuardianEventType.slow_ttfb else GuardianEventType.perfect
classify_monitor_status MonitorStatus.degraded latency available slow = GuardianEventType.slow_ttfb
classify_monitor_status MonitorStatus.failed latency available slow =
    if is_slow_timeout slow latency available
    then GuardianEventType.slow_ttfb
    else GuardianEventType.probe_fail
classify_monitor_status MonitorStatus.error latency available slow =
    if is_slow_timeout slow latency available
    then GuardianEventType.slow_ttfb
    else GuardianEventType.probe_fail
classify_monitor_status MonitorStatus.unknown latency available slow =
    GuardianEventType.upstream_unknown

-- Why a round decides what it decides.
pub data RoundReason : Type 0 where
  decided : Reason → RoundReason
  excluded_group excluded_channel outside_managed_groups group_guard_disabled : RoundReason
  scope_pause round_fuse_limit : RoundReason

pub record RoundDecision : Type 0 where
  pub health : GuardianHealth
  pub should_schedule : Bool
  pub should_probe : Bool
  pub can_auto_recover : Bool
  pub reason : RoundReason

-- `entry.group_id or "ungrouped"`
unfoldable pub group_key : Option Text → Text
group_key none = codes "ungrouped"
group_key (some []) = codes "ungrouped"
group_key (some (c ∷ g)) = c ∷ g

abbrev pub is_disabled : Option GroupPolicyOverride → Bool
is_disabled none = false
is_disabled (some o) = elim o.enabled [ none ↦ false | some b ↦ not b ]

-- The reason for which the scope excludes the channel.
unfoldable pub exclusion :
    ProbeEntry → ScopePolicy → Option GroupPolicyOverride → Option RoundReason
exclusion e scope override =
    if has_text (group_key e.group_id) scope.excluded_group_ids
    then some RoundReason.excluded_group
    else if has_text e.monitor_id scope.excluded_channel_ids
    then some RoundReason.excluded_channel
    else if scope.selected_groups_only
        && not (has_text (group_key e.group_id) scope.managed_group_ids)
    then some RoundReason.outside_managed_groups
    else if is_disabled override
    then some RoundReason.group_guard_disabled
    else none

abbrev pub scope_by : ProbeEntry → ScopePolicy → Option RoundReason → Option RoundDecision
scope_by e scope (some reason) = some (record {
  health = GuardianHealth.excluded;
  should_schedule = e.upstream_schedulable;
  should_probe = false;
  can_auto_recover = false;
  reason = reason;
})
scope_by e scope none =
    if has_text e.monitor_id scope.paused_channel_ids
    then some (record {
      health = GuardianHealth.manually_paused;
      should_schedule = false;
      should_probe = true;
      can_auto_recover = false;
      reason = RoundReason.scope_pause;
    })
    else none

-- `_scope_decision`
unfoldable pub scope_decision :
    ProbeEntry → ScopePolicy → Option GroupPolicyOverride → Option RoundDecision
scope_decision e scope override = scope_by e scope (exclusion e scope override)

abbrev pub get_or {ℓ} : {A : Type ℓ} → A → Option A → A
get_or a none = a
get_or a (some b) = b

-- `_effective_group_policy`
unfoldable pub effective_group_policy :
    BreakerPolicy → RecoveryPolicy → Option GroupPolicyOverride → BreakerPolicy × RecoveryPolicy
effective_group_policy breaker recovery none = (breaker, recovery)
effective_group_policy breaker recovery (some o) = (
  record breaker {
    enabled = get_or breaker.enabled o.breaker_enabled;
    min_pool_size = get_or breaker.min_pool_size o.min_pool_size;
  },
  record recovery { enabled = get_or recovery.enabled o.recovery_enabled },
)
