-- ===== src/Guardian/Engine/Round/Bounds.antt =====
-- What holds of one round of src/sub2api_mcp/guardian/engine.py.
use sub2_ddq.Prelude.{
  ℕ, ◌+◌, ◌≤◌, Bool, true, false, not, ◌&&◌, Option, none, some, List, [], ◌∷◌, if◌then◌else◌,
  count, ◌≡◌, refl, ap, inl, inr, arith, Bool-cases, All,
}
use sub2_ddq.Guardian.Contracts.{GuardianHealth, BreakerPolicy, RecoveryPolicy, seconds, is_fused}
use sub2_ddq.Guardian.Engine.{
  RoundDecision, RoundReason, GroupPolicyOverride, effective_group_policy, scope_decision,
  exclusion, scope_by,
}
use sub2_ddq.Guardian.Engine.Round.{
  RoundPolicy, EntryInput, ChannelOutcome, Tracking, settle, is_manual_fuse, evaluate_entry,
  evaluate_entries,
}

-- A fuse that the round newly decided on, and not by hand.
abbrev pub newly_fused : ChannelOutcome → Bool
newly_fused o =
    is_fused o.decision.health && not (is_fused o.before) && not (is_manual_fuse o.decision.reason)

settle_counts :
    (breaker : BreakerPolicy) (now limit : ℕ) (current : GuardianHealth) (d : RoundDecision)
    (t : Tracking) (fuses : ℕ)
    → breaker.max_switch_per_round ≡ limit
    → fuses ≤ limit
    → let s = settle breaker now current d t fuses in
      (s.fuse_count
        ≡ fuses
          + (if is_fused s.decision.health
                && not (is_fused current)
                && not (is_manual_fuse s.decision.reason)
              then 1
              else 0))
      × (s.fuse_count ≤ limit)
unfolding settle
settle_counts breaker now limit current d t fuses e h = ground arith

-- An override changes no limit of fuses.
limit_kept :
    (breaker : BreakerPolicy) (recovery : RecoveryPolicy) (o : Option GroupPolicyOverride)
    → (effective_group_policy breaker recovery o).0.max_switch_per_round
      ≡ breaker.max_switch_per_round
unfolding effective_group_policy
limit_kept breaker recovery none = refl
limit_kept breaker recovery (some o) = refl

settle_cools :
    (breaker : BreakerPolicy) (now cooldown : ℕ) (current : GuardianHealth) (d : RoundDecision)
    (t : Tracking) (fuses : ℕ)
    → breaker.fused_cooldown_seconds ≡ cooldown
    → let s = settle breaker now current d t fuses in
      s.tracking.fused_until ≡ (
        if is_fused s.decision.health
          && not (is_fused current)
          && not (is_manual_fuse s.decision.reason)
        then some (now + seconds cooldown)
        else s.tracking.fused_until)
unfolding settle
settle_cools breaker now cooldown current d t fuses e = ground arith

-- An excluding decision passes the limit as it is.
settle_excluded :
    (breaker : BreakerPolicy) (now : ℕ) (current : GuardianHealth) (d : RoundDecision)
    (t : Tracking) (fuses : ℕ)
    → is_fused d.health ≡ false
    → ((settle breaker now current d t fuses).decision ≡ d)
      × ((settle breaker now current d t fuses).fuse_count ≡ fuses)
unfolding settle
settle_excluded breaker now current d t fuses h =
    rw h (elim (Bool-cases (is_fused current)) [
      | inl e ↦ rw e (refl, refl)
      | inr e ↦ rw e (refl, refl)
    ])

cooldown_kept :
    (breaker : BreakerPolicy) (recovery : RecoveryPolicy) (o : Option GroupPolicyOverride)
    → (effective_group_policy breaker recovery o).0.fused_cooldown_seconds
      ≡ breaker.fused_cooldown_seconds
unfolding effective_group_policy
cooldown_kept breaker recovery none = refl
cooldown_kept breaker recovery (some o) = refl

-- A new fuse runs for the cooldown of the policy.
abbrev pub CoolsDown : RoundPolicy → ℕ → ChannelOutcome → Type 0
CoolsDown p now o = o.tracking.fused_until ≡ (
    if newly_fused o
    then some (now + seconds p.breaker.fused_cooldown_seconds)
    else o.tracking.fused_until)

module _ (p : RoundPolicy) (now : ℕ) where
  entry_counts :
      (i : EntryInput) (fuses : ℕ)
      → fuses ≤ p.breaker.max_switch_per_round
      → ((evaluate_entry p now i fuses).1
          ≡ fuses + (if newly_fused (evaluate_entry p now i fuses).0 then 1 else 0))
        × ((evaluate_entry p now i fuses).1 ≤ p.breaker.max_switch_per_round)
  unfolding evaluate_entry
  entry_counts i fuses h =
      settle_counts _ now p.breaker.max_switch_per_round _ _ _ fuses
        (limit_kept p.breaker p.recovery i.override) h

  entry_cools : (i : EntryInput) (fuses : ℕ) → CoolsDown p now (evaluate_entry p now i fuses).0
  unfolding evaluate_entry
  entry_cools i fuses =
      settle_cools _ now p.breaker.fused_cooldown_seconds _ _ _ fuses
        (cooldown_kept p.breaker p.recovery i.override)

  -- A round newly fuses at most `max_switch_per_round` channels by its own decision, whatever the
  -- overrides of their groups are, and each of these fuses runs until the policy's cooldown is
  -- over. `fuses` is the number of new fuses before the entries, 0 at the start of a round.
  pub evaluate_entries_bounded :
      (entries : List (Bool × EntryInput)) (fuses : ℕ)
      → fuses ≤ p.breaker.max_switch_per_round
      → (count newly_fused (evaluate_entries p now entries fuses) + fuses
          ≤ p.breaker.max_switch_per_round)
        × All (CoolsDown p now) (evaluate_entries p now entries fuses)
  unfolding evaluate_entries
  evaluate_entries_bounded [] fuses h = (omega arith, tt)
  evaluate_entries_bounded ((true, i) ∷ entries) fuses h = (omega arith, tt)
  evaluate_entries_bounded ((false, i) ∷ entries) fuses h =
      let (counted, bounded) = entry_counts i fuses h in
      let (few, cool) = evaluate_entries_bounded entries (evaluate_entry p now i fuses).1 bounded in
      (omega (arith, counted, few), (entry_cools i fuses, cool))

  -- A channel that the scope excludes keeps its schedule, and no probe or fuse is spent on it.
  pub excluded_untouched :
      (i : EntryInput) (fuses : ℕ) (reason : RoundReason)
      → exclusion i.entry p.scope i.override ≡ some reason
      → let (o, fuses') = evaluate_entry p now i fuses in
        (o.decision.should_schedule ≡ o.upstream_schedulable)
        × (o.decision.should_probe ≡ false)
        × (o.decision.health ≡ GuardianHealth.excluded)
        × (o.decision.reason ≡ reason)
        × (fuses' ≡ fuses)
  unfolding evaluate_entry scope_decision
  excluded_untouched i fuses reason h =
      let d : RoundDecision = record {
        health = GuardianHealth.excluded;
        should_schedule = i.entry.upstream_schedulable;
        should_probe = false;
        can_auto_recover = false;
        reason = reason;
      } in
      rw (h, scope_by)
        (
          ap (λ (x : RoundDecision). x.should_schedule) (settle_excluded _ now _ d _ fuses refl).0,
          ap (λ (x : RoundDecision). x.should_probe) (settle_excluded _ now _ d _ fuses refl).0,
          ap (λ (x : RoundDecision). x.health) (settle_excluded _ now _ d _ fuses refl).0,
          ap (λ (x : RoundDecision). x.reason) (settle_excluded _ now _ d _ fuses refl).0,
          (settle_excluded _ now _ d _ fuses refl).1,
        )
