-- ===== src/Guardian/StateMachine/Stages.antt =====
-- Lemmas about the single stages of the channel decision.
use sub2_ddq.Prelude.{◌≤◌, ◌<◌, ◌≡◌, ◌⊎◌, true, false, take, count, ltb, arith}
use sub2_ddq.Guardian.Contracts.{GuardianHealth, GuardianFreshness, ChannelDecisionInput}
use sub2_ddq.Guardian.StateMachine.{
  ChannelDecision, Reason, is_failure, fused_or_forced, evidence_stage, error_window_met,
  latency_window_met, breaker_stage, score_stage, fatal_now, held, ◌or_else◌,
}

abbrev pub ErrorWindow : ChannelDecisionInput → Type 0
ErrorWindow v =
    (v.breaker.http_failures ≤ count is_failure (take v.breaker.http_window v.recent_events))
    × (v.score < v.breaker.http_score_below)
    × (v.confidence_policy.fuse_min ≤ v.confidence)

abbrev pub LatencyWindow : ChannelDecisionInput → Type 0
LatencyWindow v =
    (v.breaker.latency_occurrences
      ≤ count (λ ttfb. ltb v.breaker.latency_ttfb_ms ttfb)
          (take v.breaker.latency_window v.recent_ttfb_ms))
    × (v.confidence_policy.degrade_min ≤ v.confidence)

-- The evidence that opens the breaker: a confirmed fatal event that is the latest, enough
-- failures in the error window with a low score and a high confidence, or, if the policy does more
-- than degrade on latency, enough slow answers.
abbrev pub BreakerEvidence : ChannelDecisionInput → Type 0
BreakerEvidence v =
    ((v.breaker.hard_fatal ≡ true) × (fatal_now v ≡ true))
    ⊎ ((v.breaker.http_failures ≤ count is_failure (take v.breaker.http_window v.recent_events))
        × (v.score < v.breaker.http_score_below)
        × (v.confidence_policy.fuse_min ≤ v.confidence))
    ⊎ ((v.breaker.latency_degrade_only ≡ false)
        × (v.breaker.latency_occurrences
            ≤ count (λ ttfb. ltb v.breaker.latency_ttfb_ms ttfb)
                (take v.breaker.latency_window v.recent_ttfb_ms))
        × (v.confidence_policy.degrade_min ≤ v.confidence))

module _ (v : ChannelDecisionInput) where
  error_window_lem : error_window_met v ≡ true → ErrorWindow v
  unfolding error_window_met
  error_window_lem h = ground arith

  ErrorWindow-holds : ErrorWindow v → error_window_met v ≡ true
  unfolding error_window_met
  ErrorWindow-holds h = ground arith

  latency_window_lem : latency_window_met v ≡ true → LatencyWindow v
  unfolding latency_window_met
  latency_window_lem h = ground arith

  LatencyWindow-holds : LatencyWindow v → latency_window_met v ≡ true
  unfolding latency_window_met
  LatencyWindow-holds h = ground arith

  pub evidence_pass :
      (d : ChannelDecision)
      → v.schedulable ≡ true
      → (evidence_stage v or_else d).should_schedule ≡ false
      → (v.freshness ≡ GuardianFreshness.fresh) × ((evidence_stage v or_else d) ≡ d)
  unfolding evidence_stage
  evidence_pass d s h = ground arith

  pub evidence_skip :
      (d : ChannelDecision)
      → v.schedulable ≡ true
      → v.warming_up ≡ false
      → v.freshness ≡ GuardianFreshness.fresh
      → (evidence_stage v or_else d) ≡ d
  unfolding evidence_stage
  evidence_skip d s w f = ground arith

  pub breaker_pass :
      (d : ChannelDecision)
      → d.should_schedule ≡ true
      → (breaker_stage v or_else d).should_schedule ≡ false
      → ((breaker_stage v or_else d).health ≡ GuardianHealth.fused)
        × (v.breaker.enabled ≡ true)
        × (v.breaker.min_pool_size < v.group_available_count)
        × BreakerEvidence v
  unfolding breaker_stage fused_or_forced
  breaker_pass d s h = ground (arith, error_window_lem, latency_window_lem)

  pub breaker_fires :
      (d : ChannelDecision)
      → v.breaker.enabled ≡ true
      → BreakerEvidence v
      → ((v.breaker.min_pool_size < v.group_available_count)
          × ((breaker_stage v or_else d).health ≡ GuardianHealth.fused)
          × ((breaker_stage v or_else d).should_schedule ≡ false))
        ⊎ ((v.group_available_count ≤ v.breaker.min_pool_size)
            × ((breaker_stage v or_else d).health ≡ GuardianHealth.forced_keep)
            × ((breaker_stage v or_else d).should_schedule ≡ true))
  unfolding breaker_stage fused_or_forced
  breaker_fires d e b = ground (arith, ErrorWindow-holds, LatencyWindow-holds)

  pub breaker_quiet :
      (d : ChannelDecision)
      → fatal_now v ≡ false
      → v.confidence < v.confidence_policy.degrade_min
      → v.confidence_policy.degrade_min ≤ v.confidence_policy.fuse_min
      → (breaker_stage v or_else d) ≡ d
  unfolding breaker_stage
  breaker_quiet d t l o = ground (arith, error_window_lem, latency_window_lem)

  pub schedule-score_stage : v.schedulable ≡ true → (score_stage v).should_schedule ≡ true
  unfolding score_stage
  schedule-score_stage s = ground arith

  pub score_stage_low :
      v.schedulable ≡ true
      → v.confidence < v.confidence_policy.degrade_min
      → score_stage v ≡ held v.current_health true Reason.low_confidence
  unfolding score_stage
  score_stage_low s l = ground arith
