-- ===== src/Maintenance/Coordinator/Report.antt =====
-- The report of `MaintenanceCoordinator.run` as a whole.
use sub2_ddq.Prelude.{ℕ, ◌≡◌, true, ◌||◌, Option, List, ◌++◌, inl, inr, Bool-cases}
use sub2_ddq.Guardian.Contracts.{Moment}
use sub2_ddq.Maintenance.{ChannelProbe, MaintenanceAdjustment, MaintenanceNotice, MaintenancePolicy}
use sub2_ddq.Maintenance.Pool.Counts.{HasDistinctGroups, IsSnapshot, is_served}
use sub2_ddq.Maintenance.Sweep.{has_groups}
use sub2_ddq.Maintenance.LogGuard.{GuardResult}
use sub2_ddq.Maintenance.Coordinator.{
  Gateway, MaintenanceResult, kept_disabled, maintenance_run, monitored_groups, ordered_candidates,
  run_locked, close_candidates,
}
use sub2_ddq.Maintenance.Coordinator.Safety.{
  AdjustedGroupsServed, IsServedAfter, disable_loop-AdjustedGroupsServed, disable_loop-is_served,
  may_be_closed,
}

-- What a report says about the fresh snapshot: every group of a closed account is served, and so
-- is every group that was served.
abbrev pub KeepsPools : List ℕ → Gateway → MaintenanceResult → Type 0
KeepsPools left_out gateway MaintenanceResult.naive_now = Unit
KeepsPools left_out gateway (MaintenanceResult.report adjustments notices ids calls) =
    AdjustedGroupsServed left_out gateway.fresh_account_states (may_be_closed calls, adjustments)
    × ((g : ℕ)
        → is_served left_out g gateway.fresh_account_states ≡ true
        → IsServedAfter left_out gateway.fresh_account_states g (may_be_closed calls))

close_candidates-KeepsPools :
    (gateway : Gateway) (known monitored kept adjusted : List ℕ)
    (channel : List MaintenanceAdjustment × List MaintenanceNotice) (guard : GuardResult)
    → IsSnapshot gateway.fresh_account_states
    → HasDistinctGroups gateway.fresh_account_states
    → KeepsPools adjusted gateway
        (close_candidates gateway known monitored kept adjusted channel guard)
unfolding close_candidates
close_candidates-KeepsPools gateway known monitored kept adjusted channel GuardResult.naive_now s
      d =
    tt
close_candidates-KeepsPools gateway known monitored kept adjusted channel
      (GuardResult.found log log_notices) s d =
    let accounts = gateway.fresh_account_states in
    let cs = ordered_candidates log channel.0 in
    (
      disable_loop-AdjustedGroupsServed known monitored gateway.disable_account adjusted accounts cs
          s d,
      λ g.
          disable_loop-is_served known monitored gateway.disable_account adjusted accounts cs g s d,
    )

-- A whole run of the coordinator, on a fresh snapshot that has each account once and each group
-- once in an account. The accounts left out of the counts are those that an earlier run closed and
-- that are closed still, and those excluded. Let every call whose result is a success or uncertain
-- have closed its account. Then every group of every account reported as closed has a usable
-- account, and so has every group that had one before the calls.
pub maintenance_run-KeepsPools :
    (policy : MaintenancePolicy) (gateway : Gateway) (probes : List ChannelProbe) (now : Moment)
    (excluded : List ℕ) (excluded_groups : Option (List ℕ)) (disabled : List ℕ)
    → IsSnapshot gateway.fresh_account_states
    → HasDistinctGroups gateway.fresh_account_states
    → KeepsPools
        (kept_disabled disabled gateway.account_states ++ excluded)
        gateway
        (maintenance_run policy gateway probes now excluded excluded_groups disabled)
unfolding maintenance_run run_locked
maintenance_run-KeepsPools policy gateway probes (Moment.naive t) excluded excluded_groups disabled
      s d =
    elim (Bool-cases (policy.channel_account_sweep_enabled || policy.log_account_guard_enabled)) [
      | inl e ↦ rw e tt
      | inr e ↦ rw e (tt, λ g h. h)
    ]
maintenance_run-KeepsPools policy gateway probes (Moment.aware t) excluded excluded_groups disabled
      s d =
    let known = gateway.known_group_ids in
    let monitored = monitored_groups known probes excluded_groups in
    let accounts = gateway.account_states in
    let kept = kept_disabled disabled accounts in
    elim (Bool-cases (policy.channel_account_sweep_enabled || policy.log_account_guard_enabled)) [
      | inl e ↦ rw e (elim (Bool-cases (has_groups known)) [
        | inl f ↦
            rw f
              (close_candidates-KeepsPools gateway known monitored kept (kept ++ excluded) _ _ s d)
        | inr f ↦ rw f (tt, λ g h. h)
      ])
      | inr e ↦ rw e (tt, λ g h. h)
    ]
