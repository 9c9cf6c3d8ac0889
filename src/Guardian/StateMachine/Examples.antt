-- ===== src/Guardian/StateMachine/Examples.antt =====
-- Decisions about concrete channels.
use sub2_ddq.Prelude.{
  ◌≤◌, ◌<◌, ◌≡◌, ◌≢◌, ◌↔◌, ◌⊎◌, refl, true, false, none, some, [], ◌∷◌, codes, arith, inl, inr,
}
use sub2_ddq.Guardian.Contracts.{
  BreakerPolicy, ChannelDecisionInput, GuardianEventType, GuardianFreshness, GuardianHealth,
  ManualControl, seconds,
}
use sub2_ddq.Guardian.StateMachine.{
  manual_stage, evidence_stage, breaker_stage, latency_window_met, score_stage, fused_stage,
  recovery_met, fused_or_forced, Reason, decide_channel_state, held, error_window_met,
}
use sub2_ddq.Guardian.StateMachine.Stages.{BreakerEvidence}
use sub2_ddq.Guardian.StateMachine.Safety.{
  MayComeBack, breaker_opens, ignores_breaker_fields, manual_control_wins, refused_or_recovered,
  schedules-schedulable, unscheduled_why, warmup_failure_keeps_serving,
}

abbrev breaker : BreakerPolicy
breaker = record {
  enabled = true;
  http_window = 5;
  http_failures = 3;
  http_score_below = 60;
  latency_window = 5;
  latency_occurrences = 3;
  latency_ttfb_ms = 8000;
  max_switch_per_round = 1;
  fused_cooldown_seconds = 60;
  min_pool_size = 1;
  min_pool_score = 0;
  hard_fatal = true;
  http_degrade_only = false;
  latency_degrade_only = true;
  instant_status_codes = [];
}

abbrev healthy_channel : ChannelDecisionInput
healthy_channel = record {
  channel_id = codes "channel-1";
  score = 90;
  recent_events = GuardianEventType.perfect ∷ [];
  recent_ttfb_ms = 800 ∷ [];
  current_health = GuardianHealth.healthy;
  confidence = 90;
  freshness = GuardianFreshness.fresh;
  warming_up = false;
  fatal_confirmed = false;
  guardian_owned_fuse = true;
  manual_control = ManualControl.none;
  schedulable = true;
  group_available_count = 3;
  success_streak = 4;
  healthy_since = none;
  fused_until = none;
  now = seconds 1000;
  breaker = breaker;
  degrade = record { enabled = true; score_threshold = 70 };
  recovery = record {
    enabled = true;
    probe_interval_seconds = 60;
    target_score = 80;
    success_count = 3;
    hold_seconds = 120;
  };
  confidence_policy = record { degrade_min = 30; fuse_min = 60; recover_min = 70 };
}

abbrev failing_channel : ChannelDecisionInput
failing_channel = record healthy_channel {
  score = 20;
  recent_events =
      GuardianEventType.gateway_error ∷ GuardianEventType.gateway_error
      ∷ GuardianEventType.probe_fail ∷ [];
}

abbrev fused_channel : ChannelDecisionInput
fused_channel = record healthy_channel {
  current_health = GuardianHealth.fused;
  healthy_since = some (seconds 800);
  fused_until = some (seconds 900);
}

decide_channel_state-healthy : (decide_channel_state healthy_channel).reason ≡ Reason.healthy
unfolding decide_channel_state manual_stage evidence_stage breaker_stage error_window_met
    latency_window_met score_stage fused_stage recovery_met fused_or_forced
decide_channel_state-healthy = refl

failing_channel-BreakerEvidence : BreakerEvidence failing_channel
failing_channel-BreakerEvidence = inr (inl (omega arith, omega arith, omega arith))

failing_channel-fused : (decide_channel_state failing_channel).should_schedule ≡ false
unfolding decide_channel_state manual_stage evidence_stage breaker_stage error_window_met
    latency_window_met score_stage fused_stage recovery_met fused_or_forced
failing_channel-fused = refl

manual_control_wins_example :
    let d =
      decide_channel_state (record healthy_channel { manual_control = ManualControl.paused }) in
    (d.should_schedule ≡ false) × (d.should_probe ≡ false) × (d.can_auto_recover ≡ false)
manual_control_wins_example =
    manual_control_wins (record healthy_channel { manual_control = ManualControl.paused }) (λ e. cc)

healthy_channel-scheduled : (decide_channel_state healthy_channel).should_schedule ≡ true
unfolding decide_channel_state manual_stage evidence_stage breaker_stage error_window_met
    latency_window_met score_stage fused_stage recovery_met fused_or_forced
healthy_channel-scheduled = refl

schedules-schedulable_example : healthy_channel.schedulable ≡ true
schedules-schedulable_example = schedules-schedulable healthy_channel healthy_channel-scheduled

unscheduled_why_example :
    ((decide_channel_state failing_channel).health ≡ GuardianHealth.fused)
    × (failing_channel.breaker.enabled ≡ true)
    × (failing_channel.freshness ≡ GuardianFreshness.fresh)
    × (failing_channel.breaker.min_pool_size < failing_channel.group_available_count)
    × BreakerEvidence failing_channel
unscheduled_why_example = unscheduled_why failing_channel refl refl (λ e. cc) failing_channel-fused

breaker_opens_example :
    ((failing_channel.breaker.min_pool_size < failing_channel.group_available_count)
      × ((decide_channel_state failing_channel).health ≡ GuardianHealth.fused)
      × ((decide_channel_state failing_channel).should_schedule ≡ false))
    ⊎ ((failing_channel.group_available_count ≤ failing_channel.breaker.min_pool_size)
        × ((decide_channel_state failing_channel).health ≡ GuardianHealth.forced_keep)
        × ((decide_channel_state failing_channel).should_schedule ≡ true))
breaker_opens_example =
    breaker_opens failing_channel refl refl (λ e. cc) refl refl refl failing_channel-BreakerEvidence

refused_or_recovered_example :
    ((decide_channel_state fused_channel).should_schedule ≡ true)
    ↔ ((fused_channel.freshness ≢ GuardianFreshness.fresh) ⊎ MayComeBack fused_channel)
refused_or_recovered_example = refused_or_recovered fused_channel refl refl refl refl

abbrev stale_channel : ChannelDecisionInput
stale_channel = record fused_channel {
  freshness = GuardianFreshness.stale;
  fused_until = some (seconds 2000);
}

stale_channel-back : (decide_channel_state stale_channel).reason ≡ Reason.evidence_stale
unfolding decide_channel_state manual_stage evidence_stage
stale_channel-back = refl

abbrev warming_channel : ChannelDecisionInput
warming_channel = record failing_channel { warming_up = true; confidence = 10 }

warmup_failure_keeps_serving_example :
    decide_channel_state warming_channel
    ≡ held warming_channel.current_health true Reason.low_confidence
warmup_failure_keeps_serving_example =
    warmup_failure_keeps_serving warming_channel refl refl refl refl refl refl (λ e. cc)
      (omega arith) (omega arith)

ignores_breaker_fields_example :
    decide_channel_state (record failing_channel {
      breaker = record breaker {
        http_degrade_only = true;
        min_pool_score = 50;
        instant_status_codes = 401 ∷ [];
      };
    })
    ≡ decide_channel_state failing_channel
ignores_breaker_fields_example = ignores_breaker_fields failing_channel true 50 (401 ∷ [])
