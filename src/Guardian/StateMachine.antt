-- ===== src/Guardian/StateMachine.antt =====
-- src/sub2api_mcp/guardian/state_machine.py: the decision about one channel. The function is cut
-- at its early returns: each stage returns the decision, or passes on to the next.
mod Stages
pub mod Safety
mod Examples
use sub2_ddq.Prelude.{
  ℕ, ◌+◌, ◌≡◌, Bool, true, false, not, ◌&&◌, ◌||◌, Option, none, some, List, [], ◌∷◌, ltb, leb,
  if◌then◌else◌, take, any, count,
}
use sub2_ddq.Guardian.Contracts
use sub2_ddq.Guardian.Contracts.{
  GuardianEventType, GuardianFreshness, GuardianHealth, ManualControl, ChannelDecisionInput,
  seconds, is_fused, is_fresh,
}

-- `ChannelDecision.reason`; `minimum_pool r` is the text "minimum_pool:r".
pub data Reason : Type 0 where
  manual_exclusion manual_pause manual_fuse upstream_disabled warming_up : Reason
  evidence_stale evidence_expired fuse_not_guardian_owned fused_cooldown : Reason
  usable_pool_slow_response recovery_threshold_met awaiting_recovery_confidence : Reason
  awaiting_recovery fatal_event error_window latency_window latency_degraded : Reason
  score_degraded low_confidence healthy : Reason
  minimum_pool : Reason → Reason

pub record ChannelDecision : Type 0 where
  pub health : GuardianHealth
  pub should_schedule : Bool
  pub should_probe : Bool
  pub can_auto_recover : Bool
  pub reason : Reason

-- `_FAILURES`
abbrev pub is_failure : GuardianEventType → Bool
is_failure GuardianEventType.perfect = false
is_failure GuardianEventType.slow_ttfb = false
is_failure _ = true

abbrev pub is_fatal : GuardianEventType → Bool
is_fatal GuardianEventType.fatal = true
is_fatal _ = false

-- The set that the warm-up bypass tests: `_FAILURES` without FATAL.
abbrev pub is_soft_failure : GuardianEventType → Bool
is_soft_failure GuardianEventType.gateway_error = true
is_soft_failure GuardianEventType.quota_exhausted = true
is_soft_failure GuardianEventType.probe_fail = true
is_soft_failure GuardianEventType.upstream_unknown = true
is_soft_failure _ = false

-- `recent_events[:1] == (SLOW_TTFB,)`
abbrev pub latest_is_slow : List GuardianEventType → Bool
latest_is_slow (GuardianEventType.slow_ttfb ∷ _) = true
latest_is_slow _ = false

unfoldable pub would_break_minimum_pool : ChannelDecisionInput → Bool
would_break_minimum_pool v = leb v.group_available_count v.breaker.min_pool_size

unfoldable pub fused_or_forced : ChannelDecisionInput → Reason → ChannelDecision
unfolding would_break_minimum_pool
fused_or_forced v reason =
    let can_recover = v.recovery.enabled && v.guardian_owned_fuse in
    if would_break_minimum_pool v
    then record {
      health = GuardianHealth.forced_keep;
      should_schedule = true;
      should_probe = can_recover;
      can_auto_recover = can_recover;
      reason = Reason.minimum_pool reason;
    }
    else record {
      health = GuardianHealth.fused;
      should_schedule = false;
      should_probe = can_recover;
      can_auto_recover = can_recover;
      reason = reason;
    }

-- A decision that neither probes nor recovers.
abbrev pub held : GuardianHealth → Bool → Reason → ChannelDecision
held h s r = record {
  health = h;
  should_schedule = s;
  should_probe = false;
  can_auto_recover = false;
  reason = r;
}

abbrev stay_fused : Bool → Reason → ChannelDecision
stay_fused enabled r = record {
  health = GuardianHealth.fused;
  should_schedule = false;
  should_probe = enabled;
  can_auto_recover = enabled;
  reason = r;
}

abbrev degraded_by : Reason → ChannelDecision
degraded_by r = record {
  health = GuardianHealth.degraded;
  should_schedule = true;
  should_probe = false;
  can_auto_recover = true;
  reason = r;
}

-- The manual controls, which come before everything else.
unfoldable pub manual_stage : ManualControl → Option ChannelDecision
manual_stage ManualControl.excluded =
    some (held GuardianHealth.excluded false Reason.manual_exclusion)
manual_stage ManualControl.paused =
    some (held GuardianHealth.manually_paused false Reason.manual_pause)
manual_stage ManualControl.fused = some (held GuardianHealth.fused false Reason.manual_fuse)
manual_stage ManualControl.none = none

abbrev pub fatal_now : ChannelDecisionInput → Bool
fatal_now v = v.fatal_confirmed && any is_fatal (take 1 v.recent_events)

abbrev pub failures_now : ChannelDecisionInput → Bool
failures_now v = any is_soft_failure (take 1 v.recent_events)

abbrev evidence_reason : GuardianFreshness → Reason
evidence_reason GuardianFreshness.expired = Reason.evidence_expired
evidence_reason _ = Reason.evidence_stale

-- Upstream pause, warm-up and stale evidence.
unfoldable pub evidence_stage : ChannelDecisionInput → Option ChannelDecision
evidence_stage v =
    if not v.schedulable
    then some (held GuardianHealth.upstream_disabled false Reason.upstream_disabled)
    else if v.warming_up && not (fatal_now v || failures_now v)
    then some (held GuardianHealth.warming_up v.schedulable Reason.warming_up)
    else if not (is_fresh v.freshness)
    then some (held GuardianHealth.stale v.schedulable (evidence_reason v.freshness))
    else none

abbrev pub before : ℕ → Option ℕ → Bool
before now none = false
before now (some t) = ltb now t

-- `(now - healthy_since).total_seconds() >= hold_seconds`
abbrev pub held_long_enough : ChannelDecisionInput → Option ℕ → Bool
held_long_enough v none = false
held_long_enough v (some t) = leb (t + seconds v.recovery.hold_seconds) v.now

unfoldable pub recovery_met : ChannelDecisionInput → Bool
recovery_met v =
    v.recovery.enabled
    && leb v.confidence_policy.recover_min v.confidence
    && leb v.recovery.target_score v.score
    && leb v.recovery.success_count v.success_streak
    && held_long_enough v v.healthy_since

-- The channel is fused already.
unfoldable pub fused_stage : ChannelDecisionInput → ChannelDecision
fused_stage v =
    if not v.guardian_owned_fuse
    then held GuardianHealth.fused false Reason.fuse_not_guardian_owned
    else if before v.now v.fused_until
    then stay_fused v.recovery.enabled Reason.fused_cooldown
    else if latest_is_slow v.recent_events && ltb v.breaker.min_pool_size v.group_available_count
    then degraded_by Reason.usable_pool_slow_response
    else if recovery_met v
    then record {
      health = GuardianHealth.healthy;
      should_schedule = true;
      should_probe = true;
      can_auto_recover = true;
      reason = Reason.recovery_threshold_met;
    }
    else stay_fused v.recovery.enabled (
        if ltb v.confidence v.confidence_policy.recover_min
        then Reason.awaiting_recovery_confidence
        else Reason.awaiting_recovery)

unfoldable pub error_window_met : ChannelDecisionInput → Bool
error_window_met v =
    leb v.breaker.http_failures (count is_failure (take v.breaker.http_window v.recent_events))
    && ltb v.score v.breaker.http_score_below
    && leb v.confidence_policy.fuse_min v.confidence

unfoldable pub latency_window_met : ChannelDecisionInput → Bool
latency_window_met v =
    leb v.breaker.latency_occurrences (
      count (λ ttfb. ltb v.breaker.latency_ttfb_ms ttfb)
        (take v.breaker.latency_window v.recent_ttfb_ms))
    && leb v.confidence_policy.degrade_min v.confidence

unfoldable pub breaker_stage : ChannelDecisionInput → Option ChannelDecision
breaker_stage v =
    if not v.breaker.enabled
    then none
    else if v.breaker.hard_fatal && fatal_now v
    then some (fused_or_forced v Reason.fatal_event)
    else if error_window_met v
    then some (fused_or_forced v Reason.error_window)
    else if latency_window_met v
    then (if not v.breaker.latency_degrade_only
        then some (fused_or_forced v Reason.latency_window)
        else some (degraded_by Reason.latency_degraded))
    else none

unfoldable pub score_stage : ChannelDecisionInput → ChannelDecision
score_stage v =
    if v.degrade.enabled
      && ltb v.score v.degrade.score_threshold
      && leb v.confidence_policy.degrade_min v.confidence
    then degraded_by Reason.score_degraded
    else if ltb v.confidence v.confidence_policy.degrade_min
    then held v.current_health v.schedulable Reason.low_confidence
    else record {
      health = GuardianHealth.healthy;
      should_schedule = true;
      should_probe = false;
      can_auto_recover = true;
      reason = Reason.healthy;
    }

infixr 20 ◌or_else◌
abbrev pub ◌or_else◌ : Option ChannelDecision → ChannelDecision → ChannelDecision
none or_else d = d
some c or_else d = c

-- `decide_channel_state`
unfoldable pub decide_channel_state : ChannelDecisionInput → ChannelDecision
decide_channel_state v =
    manual_stage v.manual_control
    or_else evidence_stage v
    or_else (if is_fused v.current_health
        then fused_stage v
        else breaker_stage v or_else score_stage v)
