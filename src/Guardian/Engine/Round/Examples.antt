-- ===== src/Guardian/Engine/Round/Examples.antt =====
-- A round over two channels that both fail, with room for one new fuse.
use sub2_ddq.Prelude.{
  ◌+◌, ◌≤◌, Bool, true, false, none, some, List, [], ◌∷◌, codes, Text, count, All, ◌≡◌, refl, arith,
  map,
}
use sub2_ddq.Guardian.Contracts.{
  GuardianEventType, GuardianFreshness, GuardianHealth, BreakerPolicy, seconds,
}
use sub2_ddq.Guardian.StateMachine.{
  Reason, decide_channel_state, manual_stage, evidence_stage, breaker_stage, fused_or_forced,
}
use sub2_ddq.Guardian.Engine.{
  MonitorStatus, RoundReason, exclusion, group_key, scope_decision, effective_group_policy,
  classify_monitor_status,
}
use sub2_ddq.Guardian.Engine.Round.{
  RoundPolicy, EntryInput, GuardianSampleSource, evaluate_entry, evaluate_entries, settle, track,
  should_monitor, fatal_confirmed, distinct_evidence, decision_input,
}
use sub2_ddq.Guardian.Engine.Round.Bounds.{
  newly_fused, CoolsDown, evaluate_entries_bounded, excluded_untouched,
}

abbrev breaker : BreakerPolicy
breaker = record {
  enabled = true;
  http_window = 5;
  http_failures = 3;
  http_score_below = 60;
  latency_window = 5;
  latency_occurrences = 3;
  latency_ttfb_ms = 8000;
  max_switch_per_round = 1;
  fused_cooldown_seconds = 60;
  min_pool_size = 1;
  min_pool_score = 0;
  hard_fatal = true;
  http_degrade_only = false;
  latency_degrade_only = true;
  instant_status_codes = [];
}

abbrev policy : RoundPolicy
policy = record {
  scope = record {
    selected_groups_only = false;
    managed_group_ids = [];
    excluded_group_ids = codes "9" ∷ [];
    paused_channel_ids = [];
    excluded_channel_ids = [];
  };
  breaker = breaker;
  degrade = record { enabled = true; score_threshold = 70 };
  recovery = record {
    enabled = true;
    probe_interval_seconds = 60;
    target_score = 80;
    success_count = 3;
    hold_seconds = 120;
  };
  confidence = record { degrade_min = 30; fuse_min = 60; recover_min = 70 };
  slow_ttfb_ms = 8000;
}

abbrev failing : Text → Text → EntryInput
failing channel group = record {
  entry = record {
    monitor_id = channel;
    group_id = some group;
    status = MonitorStatus.failed;
    observed_at = none;
    latency_ms = none;
    upstream_schedulable = true;
    available_count = some 4;
    error_count = none;
    temporary_unavailable_count = none;
    closed_count = none;
  };
  row = none;
  override = none;
  evidence =
      record {
        source_event_id = codes "a";
        source = GuardianSampleSource.manual_probe;
        event_type = GuardianEventType.fatal;
        occurred_at = seconds 990;
        ttfb_ms = none;
      }
      ∷ [];
  assessment = record {
    health_score = 10;
    confidence = 90;
    freshness = GuardianFreshness.fresh;
    warming_up = false;
  };
}

abbrev both : List (Bool × EntryInput)
both = (false, failing (codes "m1") (codes "1")) ∷ (false, failing (codes "m2") (codes "1")) ∷ []

evaluate_entries_bounded_example :
    (count newly_fused (evaluate_entries policy (seconds 1000) both 0) + 0 ≤ 1)
    × All (CoolsDown policy (seconds 1000)) (evaluate_entries policy (seconds 1000) both 0)
evaluate_entries_bounded_example =
    evaluate_entries_bounded policy (seconds 1000) both 0 (omega arith)

-- The first is fused, the second is kept for the limit.
both_reasons :
    map (λ o. o.decision.reason) (evaluate_entries policy (seconds 1000) both 0)
    ≡ RoundReason.decided Reason.fatal_event ∷ RoundReason.round_fuse_limit ∷ []
unfolding evaluate_entries evaluate_entry settle track should_monitor fatal_confirmed
    distinct_evidence decision_input decide_channel_state scope_decision exclusion group_key
    effective_group_policy classify_monitor_status manual_stage evidence_stage breaker_stage
    fused_or_forced
both_reasons = refl

outside :
    exclusion (failing (codes "m3") (codes "9")).entry policy.scope none
    ≡ some RoundReason.excluded_group
unfolding exclusion group_key
outside = refl

excluded_untouched_example :
    let (o, fuses') = evaluate_entry policy (seconds 1000) (failing (codes "m3") (codes "9")) 0 in
    (o.decision.should_schedule ≡ o.upstream_schedulable)
    × (o.decision.should_probe ≡ false)
    × (o.decision.health ≡ GuardianHealth.excluded)
    × (o.decision.reason ≡ RoundReason.excluded_group)
    × (fuses' ≡ 0)
excluded_untouched_example =
    excluded_untouched policy (seconds 1000) (failing (codes "m3") (codes "9")) 0
      RoundReason.excluded_group outside
