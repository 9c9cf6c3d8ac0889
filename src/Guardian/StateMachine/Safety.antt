-- ===== src/Guardian/StateMachine/Safety.antt =====
-- What the channel decision guarantees: who may take a channel out of the serving pool, when a
-- fused channel may come back, and two places where comments and policy promise more.
use sub2_ddq.Prelude.{
  ℕ, ◌+◌, ◌*◌, ◌≤◌, ◌<◌, ◌≡◌, ◌≢◌, ◌↔◌, ◌⊎◌, inl, inr, Bool, true, false, Option, none, some, List,
  [], ◌∷◌, refl, arith,
}
use sub2_ddq.Guardian.Contracts.{
  GuardianEventType, GuardianHealth, GuardianFreshness, ManualControl, ChannelDecisionInput,
}
use sub2_ddq.Guardian.StateMachine.Stages.{
  BreakerEvidence, evidence_pass, evidence_skip, breaker_pass, breaker_fires, breaker_quiet,
  schedule-score_stage, score_stage_low,
}
use sub2_ddq.Guardian.StateMachine.{
  ◌or_else◌, Reason, latest_is_slow, before, held_long_enough, recovery_met, decide_channel_state,
  fused_or_forced, error_window_met, latency_window_met, recovery_met, manual_stage, evidence_stage,
  fused_stage, breaker_stage, score_stage, failures_now, fatal_now, held,
}

-- Under a human control other than NONE the channel is not scheduled, not probed and not
-- recovered, whatever the evidence and the policy are.
pub manual_control_wins :
    (v : ChannelDecisionInput)
    → v.manual_control ≢ ManualControl.none
    → ((decide_channel_state v).should_schedule ≡ false)
      × ((decide_channel_state v).should_probe ≡ false)
      × ((decide_channel_state v).can_auto_recover ≡ false)
unfolding decide_channel_state manual_stage
manual_control_wins v h = ground arith

-- A channel is scheduled only if the upstream lets it be scheduled.
pub schedules-schedulable :
    (v : ChannelDecisionInput)
    → (decide_channel_state v).should_schedule ≡ true
    → v.schedulable ≡ true
unfolding decide_channel_state manual_stage evidence_stage
schedules-schedulable v h = ground arith

-- A channel that is not fused, is under no human control and is schedulable upstream is taken out
-- of scheduling only as a fuse, by an enabled breaker, on fresh evidence that opens the breaker,
-- and only while its group has more available accounts than the minimum pool.
pub unscheduled_why :
    (v : ChannelDecisionInput)
    → v.manual_control ≡ ManualControl.none
    → v.schedulable ≡ true
    → v.current_health ≢ GuardianHealth.fused
    → (decide_channel_state v).should_schedule ≡ false
    → ((decide_channel_state v).health ≡ GuardianHealth.fused)
      × (v.breaker.enabled ≡ true)
      × (v.freshness ≡ GuardianFreshness.fresh)
      × (v.breaker.min_pool_size < v.group_available_count)
      × BreakerEvidence v
unfolding decide_channel_state manual_stage
unscheduled_why v m s c h = ground (
  arith,
  evidence_pass v (breaker_stage v or_else score_stage v),
  breaker_pass v (score_stage v),
  schedule-score_stage v,
)

-- Conversely, on fresh evidence after the warm-up the breaker does open: with more accounts than
-- the minimum pool the channel is fused and out of scheduling, and at or below the minimum it is
-- kept by force.
pub breaker_opens :
    (v : ChannelDecisionInput)
    → v.manual_control ≡ ManualControl.none
    → v.schedulable ≡ true
    → v.current_health ≢ GuardianHealth.fused
    → v.warming_up ≡ false
    → v.freshness ≡ GuardianFreshness.fresh
    → v.breaker.enabled ≡ true
    → BreakerEvidence v
    → (((v.breaker.min_pool_size < v.group_available_count)
          × ((decide_channel_state v).health ≡ GuardianHealth.fused)
          × ((decide_channel_state v).should_schedule ≡ false))
        ⊎ ((v.group_available_count ≤ v.breaker.min_pool_size)
            × ((decide_channel_state v).health ≡ GuardianHealth.forced_keep)
            × ((decide_channel_state v).should_schedule ≡ true)))
unfolding decide_channel_state manual_stage
breaker_opens v m s c w f e b = ground (
  arith,
  evidence_skip v (breaker_stage v or_else score_stage v),
  breaker_fires v (score_stage v),
)

-- The cooldown of the fuse, if it has one, is over.
abbrev pub CooldownOver : ChannelDecisionInput → Type 0
CooldownOver v = (t : ℕ) → v.fused_until ≡ some t → t ≤ v.now

-- The latest event is a slow answer.
abbrev pub LatestIsSlow : List GuardianEventType → Type 0
LatestIsSlow events =
    (earlier : List GuardianEventType) × (events ≡ GuardianEventType.slow_ttfb ∷ earlier)

-- The channel has been healthy for the hold time.
abbrev pub HeldLong : ChannelDecisionInput → Type 0
HeldLong v = (t : ℕ) × (v.healthy_since ≡ some t) × (t + v.recovery.hold_seconds * 1000000 ≤ v.now)

cooldown_lem :
    (now : ℕ) (until : Option ℕ) → (before now until ≡ false) ↔ ((t : ℕ) → until ≡ some t → t ≤ now)
cooldown_lem now none = (λ h t e. cc, λ h. refl)
cooldown_lem now (some u) = (λ h t e. ground (arith, h, e), λ h. ground (arith, h u refl))

latest_lem :
    (events : List GuardianEventType) → (latest_is_slow events ≡ true) ↔ LatestIsSlow events
latest_lem [] = (λ h. cc, λ (rest, e). cc)
latest_lem (GuardianEventType.slow_ttfb ∷ events) = (λ h. (events, refl), λ h. refl)
latest_lem (e ∷ events) = (λ h. cc, λ (rest, same). cc)

held_lem :
    (v : ChannelDecisionInput) (since : Option ℕ)
    → (held_long_enough v since ≡ true)
      ↔ ((t : ℕ) × (since ≡ some t) × (t + v.recovery.hold_seconds * 1000000 ≤ v.now))
held_lem v none = (λ h. cc, λ (t, e, le). cc)
held_lem v (some u) = (λ h. (u, refl, ground (arith, h)), λ (t, e, le). ground (arith, e, le))

-- What fresh evidence has to show before a fused channel comes back.
abbrev pub MayComeBack : ChannelDecisionInput → Type 0
MayComeBack v =
    (v.guardian_owned_fuse ≡ true)
    × CooldownOver v
    × ((LatestIsSlow v.recent_events × (v.breaker.min_pool_size < v.group_available_count))
        ⊎ ((v.recovery.enabled ≡ true)
            × (v.confidence_policy.recover_min ≤ v.confidence)
            × (v.recovery.target_score ≤ v.score)
            × (v.recovery.success_count ≤ v.success_streak)
            × HeldLong v))

freshness_cases :
    (f : GuardianFreshness) → (f ≡ GuardianFreshness.fresh) ⊎ (f ≢ GuardianFreshness.fresh)
freshness_cases GuardianFreshness.fresh = inl refl
freshness_cases f = inr (λ e. cc)

module _ (v : ChannelDecisionInput) (m : v.manual_control ≡ ManualControl.none)
    (s : v.schedulable ≡ true) (w : v.warming_up ≡ false)
    (c : v.current_health ≡ GuardianHealth.fused) where
  stale_comes_back :
      v.freshness ≢ GuardianFreshness.fresh → (decide_channel_state v).should_schedule ≡ true
  unfolding decide_channel_state manual_stage evidence_stage
  stale_comes_back f = ground arith

  fresh_comes_back :
      v.freshness ≡ GuardianFreshness.fresh
      → MayComeBack v
      → (decide_channel_state v).should_schedule ≡ true
  unfolding decide_channel_state manual_stage evidence_stage fused_stage recovery_met
  fresh_comes_back f (own, cool, inl (slow, pool)) =
      let cooled = (cooldown_lem v.now v.fused_until).1 cool in
      let late = (latest_lem v.recent_events).1 slow in ground arith
  fresh_comes_back f (own, cool, inr (on, sure, good, streak, long)) =
      let cooled = (cooldown_lem v.now v.fused_until).1 cool in
      let held_on = (held_lem v v.healthy_since).1 long in ground arith

  fresh_why :
      v.freshness ≡ GuardianFreshness.fresh
      → (decide_channel_state v).should_schedule ≡ true
      → MayComeBack v
  unfolding decide_channel_state manual_stage evidence_stage fused_stage recovery_met
  fresh_why f h =
      let back : (v.guardian_owned_fuse ≡ true)
          × (before v.now v.fused_until ≡ false)
          × (((latest_is_slow v.recent_events ≡ true)
                × (v.breaker.min_pool_size < v.group_available_count))
              ⊎ ((v.recovery.enabled ≡ true)
                  × (v.confidence_policy.recover_min ≤ v.confidence)
                  × (v.recovery.target_score ≤ v.score)
                  × (v.recovery.success_count ≤ v.success_streak)
                  × (held_long_enough v v.healthy_since ≡ true))) =
        ground arith in
      let (own, cool, rest) = back in
      (
        own,
        (cooldown_lem v.now v.fused_until).0 cool,
        elim rest [
          | inl (slow, pool) ↦ inl ((latest_lem v.recent_events).0 slow, pool)
          | inr (on, sure, good, streak, long) ↦
              inr (on, sure, good, streak, (held_lem v v.healthy_since).0 long)
        ],
      )

-- After the warm-up, a fused channel that no human controls and that is schedulable upstream is
-- scheduled again exactly if its evidence is not fresh, or Guardian owns the fuse, the cooldown is
-- over, and either the latest event is a slow answer with a pool above the minimum, or recovery is
-- enabled and confidence, score, streak and hold time reach its thresholds.
pub refused_or_recovered :
    (v : ChannelDecisionInput)
    → v.manual_control ≡ ManualControl.none
    → v.schedulable ≡ true
    → v.warming_up ≡ false
    → v.current_health ≡ GuardianHealth.fused
    → ((decide_channel_state v).should_schedule ≡ true)
      ↔ ((v.freshness ≢ GuardianFreshness.fresh) ⊎ MayComeBack v)
refused_or_recovered v m s w c = elim (freshness_cases v.freshness) [
  | inl fresh ↦ (
    λ h. inr (fresh_why v m s w c fresh h),
    λ k. elim k [
      | inl stale ↦ stale_comes_back v m s w c stale
      | inr may ↦ fresh_comes_back v m s w c fresh may
    ],
  )
  | inr stale ↦ (λ h. inl stale, λ k. stale_comes_back v m s w c stale)
]

-- While a channel warms up, a latest event that is a failure, but no confirmed fatal one, does not
-- take it out of scheduling as long as the confidence is below both thresholds: on fresh evidence
-- the decision is to keep the health and the scheduling, for low confidence.
pub warmup_failure_keeps_serving :
    (v : ChannelDecisionInput)
    → v.manual_control ≡ ManualControl.none
    → v.schedulable ≡ true
    → v.warming_up ≡ true
    → failures_now v ≡ true
    → fatal_now v ≡ false
    → v.freshness ≡ GuardianFreshness.fresh
    → v.current_health ≢ GuardianHealth.fused
    → v.confidence < v.confidence_policy.degrade_min
    → v.confidence_policy.degrade_min ≤ v.confidence_policy.fuse_min
    → decide_channel_state v ≡ held v.current_health true Reason.low_confidence
unfolding decide_channel_state manual_stage evidence_stage
warmup_failure_keeps_serving v m s w e t f c l o =
    ground (arith, breaker_quiet v (score_stage v), score_stage_low v)

-- Three fields of the breaker policy, `http_degrade_only`, `min_pool_score` and
-- `instant_status_codes`, change no decision.
pub ignores_breaker_fields :
    (v : ChannelDecisionInput) (b : Bool) (n : ℕ) (codes : List ℕ)
    → decide_channel_state (record v {
      breaker = record v.breaker {
        http_degrade_only = b;
        min_pool_score = n;
        instant_status_codes = codes;
      };
    })
      ≡ decide_channel_state v
unfolding decide_channel_state evidence_stage fused_stage breaker_stage score_stage recovery_met
    fused_or_forced error_window_met latency_window_met
ignores_breaker_fields v b n codes = refl
