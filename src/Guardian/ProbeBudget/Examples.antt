-- ===== src/Guardian/ProbeBudget/Examples.antt =====
-- Probe selections for concrete channels.
use sub2_ddq.Prelude.{
  ℕ, ◌+◌, ◌≤◌, max, ◌≡◌, refl, true, none, some, List, [], ◌∷◌, Text, codes, length,
}
use sub2_ddq.Guardian.Contracts.{
  GuardianFieldOwner, GuardianHealth, ManualControl, Moment, RecoveryProbeBudgetPolicy,
  RecoveryProbeCandidate, seconds,
}
use sub2_ddq.Guardian.ProbeBudget.{
  RecoveryProbeSelection, SelectionResult, blocked_by, screen, select_recovery_probe_candidates,
}
use sub2_ddq.Guardian.ProbeBudget.Bounds.{IsExact, selection_bounded, selection_lem}

abbrev policy : RecoveryProbeBudgetPolicy
policy = record {
  enabled = true;
  interval_seconds = 300;
  concurrency = 2;
  per_channel_hourly_requests = 4;
  daily_requests = 10;
  daily_tokens = 1000;
}

abbrev candidate : Text → GuardianHealth → RecoveryProbeCandidate
candidate id health = record {
  channel_id = id;
  health = health;
  manual_control = ManualControl.none;
  fuse_owner = GuardianFieldOwner.guardian;
  uniquely_mapped = true;
  last_probe_at = some (seconds 100);
}

abbrev candidates : List RecoveryProbeCandidate
candidates =
    candidate (codes "b") GuardianHealth.fused
    ∷ candidate (codes "c") GuardianHealth.healthy
    ∷ candidate (codes "a") GuardianHealth.fused
    ∷ []

abbrev hourly : Text → ℕ
hourly id = 1

abbrev now : ℕ
now = seconds 1000

abbrev selected : RecoveryProbeSelection
selected = record {
  selected_channel_ids = codes "a" ∷ [];
  blocked_counts = record {
    not_fused = 1;
    human_control = 0;
    ambiguous_mapping = 0;
    probe_interval = 0;
    hourly_budget = 0;
  };
  global_block_reason = none;
}

select_one :
    select_recovery_probe_candidates candidates (Moment.aware now) policy 9 500 hourly
    ≡ SelectionResult.selection selected
unfolding select_recovery_probe_candidates screen blocked_by
select_one = refl

selection_lem_example : (s : RecoveryProbeSelection) × IsExact candidates now policy 9 500 hourly s
selection_lem_example = selection_lem candidates now policy 9 500 hourly

selection_bounded_example :
    (length selected.selected_channel_ids ≤ policy.concurrency)
    × (9 + length selected.selected_channel_ids ≤ max 9 policy.daily_requests)
    × (policy.daily_tokens ≤ 500 → length selected.selected_channel_ids ≡ 0)
selection_bounded_example =
    selection_bounded candidates (Moment.aware now) policy 9 500 hourly select_one
