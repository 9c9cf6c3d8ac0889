-- ===== src/Guardian/Engine/Round.antt =====
-- The loop of `GuardianEngine._evaluate` in src/sub2api_mcp/guardian/engine.py over the entries of a
-- shared snapshot, after their evidence is stored: what it decides for each channel, and the limit
-- on new fuses in one round.
pub mod Bounds
mod Examples
use sub2_ddq.Prelude.{
  ℕ, zero, suc, ◌+◌, Bool, true, false, not, ◌&&◌, ◌||◌, Option, none, some, List, [], ◌∷◌, Text,
  text_eq, ltb, leb, ◌==◌, if◌then◌else◌, any, count, take, length,
}
use sub2_ddq.Guardian.Contracts.{
  GuardianEventType, GuardianFreshness, GuardianHealth, ManualControl, BreakerPolicy,
  RecoveryPolicy, DegradePolicy, ConfidencePolicy, ChannelDecisionInput, seconds, is_fused,
}
use sub2_ddq.Guardian.StateMachine.{ChannelDecision, Reason, decide_channel_state, is_fatal}
use sub2_ddq.Guardian.Engine.{
  ProbeEntry, ScopePolicy, GroupPolicyOverride, RoundDecision, RoundReason, scope_decision,
  effective_group_policy, classify_monitor_status, get_or,
}

pub data GuardianSampleSource : Type 0 where
  probe traffic shared_monitor recovery_probe manual_probe : GuardianSampleSource

pub record GuardianEvidence : Type 0 where
  pub source_event_id : Text
  pub source : GuardianSampleSource
  pub event_type : GuardianEventType
  pub occurred_at : ℕ
  pub ttfb_ms : Option ℕ

abbrev pub same_source : GuardianSampleSource → GuardianSampleSource → Bool
same_source GuardianSampleSource.probe GuardianSampleSource.probe = true
same_source GuardianSampleSource.traffic GuardianSampleSource.traffic = true
same_source GuardianSampleSource.shared_monitor GuardianSampleSource.shared_monitor = true
same_source GuardianSampleSource.recovery_probe GuardianSampleSource.recovery_probe = true
same_source GuardianSampleSource.manual_probe GuardianSampleSource.manual_probe = true
same_source _ _ = false

abbrev pub same_identity : GuardianEvidence → GuardianEvidence → Bool
same_identity a b = same_source a.source b.source && text_eq a.source_event_id b.source_event_id

abbrev pub distinct_from : List GuardianEvidence → List GuardianEvidence → List GuardianEvidence
distinct_from seen [] = []
distinct_from seen (e ∷ evidence) =
    let known = any (same_identity e) seen in
    let rest = distinct_from (if known then seen else e ∷ seen) evidence in
    if known then rest else e ∷ rest

-- `_distinct_evidence`
unfoldable pub distinct_evidence : List GuardianEvidence → List GuardianEvidence
distinct_evidence evidence = distinct_from [] evidence

abbrev pub is_perfect : GuardianEventType → Bool
is_perfect GuardianEventType.perfect = true
is_perfect _ = false

abbrev pub is_deliberate : GuardianSampleSource → Bool
is_deliberate GuardianSampleSource.recovery_probe = true
is_deliberate GuardianSampleSource.manual_probe = true
is_deliberate _ = false

abbrev pub is_traffic : GuardianSampleSource → Bool
is_traffic GuardianSampleSource.traffic = true
is_traffic _ = false

unfoldable pub fatal_confirmed : ℕ → List GuardianEvidence → Bool
fatal_confirmed now evidence =
    any (λ e. is_fatal e.event_type && is_deliberate e.source) (take 1 evidence)
    || leb 2 (
        count
          (λ e.
            is_fatal e.event_type && is_traffic e.source && leb now (e.occurred_at + seconds 300))
          evidence)

abbrev pub events_of : List GuardianEvidence → List GuardianEventType
events_of [] = []
events_of (e ∷ evidence) = e.event_type ∷ events_of evidence

abbrev pub ttfb_of : List GuardianEvidence → List ℕ
ttfb_of [] = []
ttfb_of (e ∷ evidence) =
    let rest = ttfb_of evidence in elim e.ttfb_ms [ none ↦ rest | some ms ↦ ms ∷ rest ]

-- The stored row of a channel, as far as the round reads it.
pub record ChannelRow : Type 0 where
  pub health : GuardianHealth
  pub manual_control : ManualControl
  pub success_streak : ℕ
  pub healthy_since : Option ℕ
  pub fused_until : Option ℕ
  pub guardian_owned_fuse : Bool

-- `calculate_health_score_v2`, whose floating point work is not modelled here.
pub record Assessment : Type 0 where
  pub health_score : ℕ
  pub confidence : ℕ
  pub freshness : GuardianFreshness
  pub warming_up : Bool

pub record RoundPolicy : Type 0 where
  pub scope : ScopePolicy
  pub breaker : BreakerPolicy
  pub degrade : DegradePolicy
  pub recovery : RecoveryPolicy
  pub confidence : ConfidencePolicy
  pub slow_ttfb_ms : ℕ

-- One entry with what the repository answers about it.
pub record EntryInput : Type 0 where
  pub entry : ProbeEntry
  pub row : Option ChannelRow
  pub override : Option GroupPolicyOverride
  pub evidence : List GuardianEvidence
  pub assessment : Assessment

-- The row of a channel that the repository does not know.
abbrev pub new_channel : ChannelRow
new_channel = record {
  health = GuardianHealth.pending;
  manual_control = ManualControl.none;
  success_streak = 0;
  healthy_since = none;
  fused_until = none;
  guardian_owned_fuse = true;
}

pub record Tracking : Type 0 where
  pub success_streak : ℕ
  pub healthy_since : Option ℕ
  pub fused_until : Option ℕ

-- `success_streak` of a channel that is not fused: the perfect events at the head.
abbrev pub leading_perfect : List GuardianEventType → ℕ
leading_perfect [] = 0
leading_perfect (e ∷ events) =
    let rest = leading_perfect events in if is_perfect e then suc rest else 0

unfoldable pub track : ChannelRow → Bool → List GuardianEventType → ℕ → Tracking
track row served_well recent now =
    if is_fused row.health
    then if served_well
      then record {
        success_streak = row.success_streak + 1;
        healthy_since = some (get_or now row.healthy_since);
        fused_until = row.fused_until;
      }
      else record { success_streak = 0; healthy_since = none; fused_until = row.fused_until }
    else record {
      success_streak = leading_perfect recent;
      healthy_since = none;
      fused_until = none;
    }

abbrev pub is_excluded : GuardianHealth → Bool
is_excluded GuardianHealth.excluded = true
is_excluded _ = false

abbrev pub is_excluding : ManualControl → Bool
is_excluding ManualControl.excluded = true
is_excluding _ = false

abbrev pub scope_excludes : Option RoundDecision → Bool
scope_excludes none = false
scope_excludes (some d) = is_excluded d.health

-- `should_monitor`
unfoldable pub should_monitor : ManualControl → Option RoundDecision → Bool
should_monitor manual scoped = not (is_excluding manual) && not (scope_excludes scoped)

abbrev pub as_round : ChannelDecision → RoundDecision
as_round d = record {
  health = d.health;
  should_schedule = d.should_schedule;
  should_probe = d.should_probe;
  can_auto_recover = d.can_auto_recover;
  reason = RoundReason.decided d.reason;
}

unfoldable pub decision_input :
    RoundPolicy
    → ℕ
    → EntryInput
    → ChannelRow
    → Tracking
    → List GuardianEvidence
    → BreakerPolicy × RecoveryPolicy
    → ChannelDecisionInput
decision_input p now i row t evidence (breaker, recovery) = record {
  channel_id = i.entry.monitor_id;
  score = i.assessment.health_score;
  recent_events = events_of evidence;
  recent_ttfb_ms = ttfb_of evidence;
  current_health = row.health;
  confidence = i.assessment.confidence;
  freshness = i.assessment.freshness;
  warming_up = i.assessment.warming_up;
  fatal_confirmed = fatal_confirmed now evidence;
  guardian_owned_fuse = row.guardian_owned_fuse;
  manual_control = row.manual_control;
  schedulable = i.entry.upstream_schedulable;
  group_available_count = get_or 1 i.entry.available_count;
  success_streak = t.success_streak;
  healthy_since = t.healthy_since;
  fused_until = t.fused_until;
  now = now;
  breaker = breaker;
  degrade = p.degrade;
  recovery = recovery;
  confidence_policy = p.confidence;
}

abbrev pub decide : Option RoundDecision → ChannelDecisionInput → RoundDecision
decide (some d) v = d
decide none v = as_round (decide_channel_state v)

abbrev pub is_manual_fuse : RoundReason → Bool
is_manual_fuse (RoundReason.decided Reason.manual_fuse) = true
is_manual_fuse _ = false

pub record Settled : Type 0 where
  pub decision : RoundDecision
  pub tracking : Tracking
  pub fuse_count : ℕ

-- The limit of new fuses, and the cooldown of a new fuse.
unfoldable pub settle : BreakerPolicy → ℕ → GuardianHealth → RoundDecision → Tracking → ℕ → Settled
settle breaker now current d t fuses =
    if is_fused d.health
    then if not (is_fused current) && not (is_manual_fuse d.reason)
      then if leb breaker.max_switch_per_round fuses
        then record {
          decision = record d {
            health = GuardianHealth.degraded;
            should_schedule = true;
            reason = RoundReason.round_fuse_limit;
          };
          tracking = t;
          fuse_count = fuses;
        }
        else record {
          decision = d;
          tracking = record t { fused_until = some (now + seconds breaker.fused_cooldown_seconds) };
          fuse_count = fuses + 1;
        }
      else record { decision = d; tracking = t; fuse_count = fuses }
    else if is_fused current
    then record {
      decision = d;
      tracking = record t { healthy_since = none; fused_until = none };
      fuse_count = fuses;
    }
    else record { decision = d; tracking = t; fuse_count = fuses }

pub record ChannelOutcome : Type 0 where
  pub channel_id : Text
  pub before : GuardianHealth
  pub upstream_schedulable : Bool
  pub decision : RoundDecision
  pub tracking : Tracking

abbrev pub outcome_of : EntryInput → ChannelRow → Settled → ChannelOutcome × ℕ
outcome_of i row s = (
  record {
    channel_id = i.entry.monitor_id;
    before = row.health;
    upstream_schedulable = i.entry.upstream_schedulable;
    decision = s.decision;
    tracking = s.tracking;
  },
  s.fuse_count,
)

abbrev pub evaluate_scoped :
    RoundPolicy → ℕ → EntryInput → ChannelRow → Option RoundDecision → ℕ → ChannelOutcome × ℕ
evaluate_scoped p now i row scoped fuses =
    let evidence = distinct_evidence i.evidence in
    let event =
      classify_monitor_status i.entry.status i.entry.latency_ms i.entry.available_count
        p.slow_ttfb_ms in
    let t =
      track row (is_perfect event && should_monitor row.manual_control scoped) (events_of evidence)
        now in
    let policies = effective_group_policy p.breaker p.recovery i.override in
    outcome_of i row (
      settle policies.0 now row.health
        (decide scoped (decision_input p now i row t evidence policies)) t fuses)

-- One entry, with the new fuses so far.
unfoldable pub evaluate_entry : RoundPolicy → ℕ → EntryInput → ℕ → ChannelOutcome × ℕ
evaluate_entry p now i fuses =
    evaluate_scoped p now i (get_or new_channel i.row) (scope_decision i.entry p.scope i.override)
      fuses

-- The loop, which ends where a cancellation is seen before an entry.
unfoldable pub evaluate_entries :
    RoundPolicy → ℕ → List (Bool × EntryInput) → ℕ → List ChannelOutcome
evaluate_entries p now [] fuses = []
evaluate_entries p now ((cancelled, i) ∷ entries) fuses =
    let (outcome, fuses') = evaluate_entry p now i fuses in
    let rest = evaluate_entries p now entries fuses' in if cancelled then [] else outcome ∷ rest
