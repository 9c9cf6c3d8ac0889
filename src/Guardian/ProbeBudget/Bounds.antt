-- ===== src/Guardian/ProbeBudget/Bounds.antt =====
-- The budget is never exceeded, and the loop is a filter that loses no candidate.
use sub2_ddq.Prelude.{
  ℕ, ◌+◌, ◌*◌, ◌-◌, ◌≤◌, ◌<◌, min, max, ◌≡◌, ◌≢◌, refl, Bool, true, false, not, ◌&&◌, Option, none,
  some, List, [], ◌∷◌, map, Text, arith, length, take, if◌then◌else◌, sort_by, keep_if, count,
  length-take-le, ◌↔◌, leb, ltb, count-sort_by, Bool-cases, inl, inr, ap, ◌∙◌,
}
use sub2_ddq.Guardian.Contracts.{
  Moment, GuardianHealth, GuardianFieldOwner, ManualControl, RecoveryProbeBudgetPolicy,
  RecoveryProbeCandidate,
}
use sub2_ddq.Guardian.ProbeBudget.{
  BlockReason, bump, GlobalBlock, no_blocks, BlockedCounts, RecoveryProbeSelection, SelectionResult,
  blocked_by, screen, by_channel_id, select_recovery_probe_candidates,
}

abbrev no_control : ManualControl → Bool
no_control ManualControl.none = true
no_control _ = false

abbrev by_guardian : GuardianFieldOwner → Bool
by_guardian GuardianFieldOwner.guardian = true
by_guardian _ = false

abbrev is_fuse : GuardianHealth → Bool
is_fuse GuardianHealth.fused = true
is_fuse _ = false

-- The last probe, if there was one, is at least so many seconds ago.
abbrev is_past : ℕ → ℕ → Option ℕ → Bool
is_past now interval none = true
is_past now interval (some t) = leb (t + interval * 1000000) now

-- The test of a candidate that a reason to block it stands for.
abbrev pub passes :
    RecoveryProbeBudgetPolicy → ℕ → (Text → ℕ) → BlockReason → RecoveryProbeCandidate → Bool
passes policy now hourly BlockReason.not_fused c = is_fuse c.health
passes policy now hourly BlockReason.human_control c =
    no_control c.manual_control && by_guardian c.fuse_owner
passes policy now hourly BlockReason.ambiguous_mapping c = c.uniquely_mapped
passes policy now hourly BlockReason.probe_interval c =
    is_past now policy.interval_seconds c.last_probe_at
passes policy now hourly BlockReason.hourly_budget c =
    ltb (hourly c.channel_id) policy.per_channel_hourly_requests

abbrev pub passes_all :
    (BlockReason → RecoveryProbeCandidate → Bool) → RecoveryProbeCandidate → Bool
passes_all ok c =
    ok BlockReason.not_fused c
    && ok BlockReason.human_control c
    && ok BlockReason.ambiguous_mapping c
    && ok BlockReason.probe_interval c
    && ok BlockReason.hourly_budget c

-- The candidate fails the test and none before it.
abbrev pub fails_first :
    (BlockReason → RecoveryProbeCandidate → Bool) → BlockReason → RecoveryProbeCandidate → Bool
fails_first ok BlockReason.not_fused c = not (ok BlockReason.not_fused c)
fails_first ok BlockReason.human_control c =
    ok BlockReason.not_fused c && not (ok BlockReason.human_control c)
fails_first ok BlockReason.ambiguous_mapping c =
    ok BlockReason.not_fused c
    && ok BlockReason.human_control c
    && not (ok BlockReason.ambiguous_mapping c)
fails_first ok BlockReason.probe_interval c =
    ok BlockReason.not_fused c
    && ok BlockReason.human_control c
    && ok BlockReason.ambiguous_mapping c
    && not (ok BlockReason.probe_interval c)
fails_first ok BlockReason.hourly_budget c =
    ok BlockReason.not_fused c
    && ok BlockReason.human_control c
    && ok BlockReason.ambiguous_mapping c
    && ok BlockReason.probe_interval c
    && not (ok BlockReason.hourly_budget c)

-- Each candidate counts for the first test that it fails.
abbrev pub tally :
    (BlockReason → RecoveryProbeCandidate → Bool) → List RecoveryProbeCandidate → BlockedCounts
tally ok cs = record {
  not_fused = count (fails_first ok BlockReason.not_fused) cs;
  human_control = count (fails_first ok BlockReason.human_control) cs;
  ambiguous_mapping = count (fails_first ok BlockReason.ambiguous_mapping) cs;
  probe_interval = count (fails_first ok BlockReason.probe_interval) cs;
  hourly_budget = count (fails_first ok BlockReason.hourly_budget) cs;
}

abbrev first_failure :
    (BlockReason → RecoveryProbeCandidate → Bool) → RecoveryProbeCandidate → Option BlockReason
first_failure ok c =
    if not (ok BlockReason.not_fused c)
    then some BlockReason.not_fused
    else if not (ok BlockReason.human_control c)
    then some BlockReason.human_control
    else if not (ok BlockReason.ambiguous_mapping c)
    then some BlockReason.ambiguous_mapping
    else if not (ok BlockReason.probe_interval c)
    then some BlockReason.probe_interval
    else if not (ok BlockReason.hourly_budget c)
    then some BlockReason.hourly_budget
    else none

abbrev counted : Option BlockReason → BlockedCounts → BlockedCounts
counted none b = b
counted (some r) b = bump r b

abbrev listed : Option BlockReason → Text → List Text → List Text
listed none id ids = id ∷ ids
listed (some r) id ids = ids

module _ (ok : BlockReason → RecoveryProbeCandidate → Bool) (c : RecoveryProbeCandidate)
    (cs : List RecoveryProbeCandidate) where
  counted_lem : counted (first_failure ok c) (tally ok cs) ≡ tally ok (c ∷ cs)
  counted_lem = ground arith

  listed_lem :
      listed
        (first_failure ok c)
        c.channel_id
        (map (λ c. c.channel_id) (keep_if (passes_all ok) cs))
      ≡ map (λ c. c.channel_id) (keep_if (passes_all ok) (c ∷ cs))
  listed_lem = ground arith

module _ (policy : RecoveryProbeBudgetPolicy) (now : ℕ) (hourly : Text → ℕ) where
  blocked_lem :
      (c : RecoveryProbeCandidate)
      → blocked_by policy now hourly c ≡ first_failure (passes policy now hourly) c
  unfolding blocked_by
  blocked_lem c = ground arith

  screen_step :
      (c : RecoveryProbeCandidate) (cs : List RecoveryProbeCandidate) (r : Option BlockReason)
      → blocked_by policy now hourly c ≡ r
      → screen policy now hourly (c ∷ cs) ≡ (
        counted r (screen policy now hourly cs).0,
        listed r c.channel_id (screen policy now hourly cs).1,
      )
  unfolding screen
  screen_step c cs none e = rw (screen, e) refl
  screen_step c cs (some r) e = rw (screen, e) refl

  screen_lem :
      (cs : List RecoveryProbeCandidate)
      → screen policy now hourly cs ≡ (
        tally (passes policy now hourly) cs,
        map (λ c. c.channel_id) (keep_if (passes_all (passes policy now hourly)) cs),
      )
  unfolding screen
  screen_lem [] = refl
  screen_lem (c ∷ cs) =
      let ok = passes policy now hourly in
      screen_step c cs (first_failure ok c) (blocked_lem c)
      ∙ ap (λ s. (counted (first_failure ok c) s.0, listed (first_failure ok c) c.channel_id s.1))
          (screen_lem cs)
      ∙ (λ i. (counted_lem ok c cs i, listed_lem ok c cs i))

tally-sort_by :
    (ok : BlockReason → RecoveryProbeCandidate → Bool) (cs : List RecoveryProbeCandidate)
    → tally ok (sort_by by_channel_id cs) ≡ tally ok cs
tally-sort_by ok cs = λ i. record {
  not_fused = count-sort_by (fails_first ok BlockReason.not_fused) by_channel_id cs i;
  human_control = count-sort_by (fails_first ok BlockReason.human_control) by_channel_id cs i;
  ambiguous_mapping =
      count-sort_by (fails_first ok BlockReason.ambiguous_mapping) by_channel_id cs i;
  probe_interval = count-sort_by (fails_first ok BlockReason.probe_interval) by_channel_id cs i;
  hourly_budget = count-sort_by (fails_first ok BlockReason.hourly_budget) by_channel_id cs i;
}

module _ (cs : List RecoveryProbeCandidate) (now : ℕ) (policy : RecoveryProbeBudgetPolicy)
    (requests tokens : ℕ) (hourly : Text → ℕ) where
  -- The probe is enabled and both daily budgets have something left.
  abbrev pub IsOpen : Type 0
  IsOpen =
      (policy.enabled ≡ true) × (requests < policy.daily_requests) × (tokens < policy.daily_tokens)

  -- The channels that pass every test, in the order of their IDs, as many as may run at once and
  -- the day has left; and each candidate counted for the first test that it fails.
  abbrev pub IsScreened : RecoveryProbeSelection → Type 0
  IsScreened s =
      (s.selected_channel_ids
        ≡ take (min policy.concurrency (policy.daily_requests - requests)) (
            map (λ c. c.channel_id)
              (keep_if (passes_all (passes policy now hourly)) (sort_by by_channel_id cs))))
      × (s.blocked_counts ≡ tally (passes policy now hourly) cs)

  abbrev result : SelectionResult
  result = select_recovery_probe_candidates cs (Moment.aware now) policy requests tokens hourly

  -- The selection is the answer, and is screened unless something is closed.
  abbrev pub IsExact : RecoveryProbeSelection → Type 0
  IsExact s =
      (result ≡ SelectionResult.selection s)
      × ((s.global_block_reason ≡ none) ↔ IsOpen)
      × (s.global_block_reason ≡ none → IsScreened s)
      × (s.global_block_reason ≢ none → s.selected_channel_ids ≡ [])

  abbrev nothing : GlobalBlock → RecoveryProbeSelection
  nothing r = record {
    selected_channel_ids = [];
    blocked_counts = no_blocks;
    global_block_reason = some r;
  }

  closes :
      (r : GlobalBlock)
      → result ≡ SelectionResult.selection (nothing r)
      → (IsOpen → ⊥)
      → (s : RecoveryProbeSelection) × IsExact s
  closes r e shut = (nothing r, (e, (λ h. cc, λ o. absurd (shut o)), λ h. cc, λ h. refl))

  abbrev screened_selection : RecoveryProbeSelection
  screened_selection =
      let (blocked, eligible) = screen policy now hourly (sort_by by_channel_id cs) in
      record {
        selected_channel_ids =
            take (min policy.concurrency (policy.daily_requests - requests)) eligible;
        blocked_counts = blocked;
        global_block_reason = none;
      }

  -- With a time that has a zone there is always an answer. It names no reason exactly if the probe
  -- is enabled and both daily budgets have something left. Then it has the channels that are fused,
  -- under no human control, fused by Guardian, uniquely mapped, not probed within the interval and
  -- below their hourly requests, in the order of their IDs, cut at the concurrency and at what is
  -- left of the daily requests, and each other candidate counts for the first of these tests that
  -- it fails. With a reason it selects nothing.
  pub selection_lem : (s : RecoveryProbeSelection) × IsExact s
  unfolding select_recovery_probe_candidates
  selection_lem =
      let sorted = sort_by by_channel_id cs in
      let screened = screen_lem policy now hourly sorted in
      let tallied = tally-sort_by (passes policy now hourly) cs in
      elim (Bool-cases policy.enabled) [
        | inr off ↦
            closes GlobalBlock.disabled (rw off refl) (λ (on, r, t). ground (arith, on, off))
        | inl on ↦ elim (Bool-cases (leb policy.daily_requests requests)) [
          | inl full ↦
              closes GlobalBlock.daily_requests_exhausted (rw (on, full) refl)
                (λ (on, r, t). ground (arith, r, full))
          | inr free ↦ elim (Bool-cases (leb policy.daily_tokens tokens)) [
            | inl full ↦
                closes GlobalBlock.daily_tokens_exhausted (rw (on, free, full) refl)
                  (λ (on, r, t). ground (arith, t, full))
            | inr left ↦ (
              screened_selection,
              (
                rw (on, free, left) refl,
                (λ h. (on, ground (arith, free), ground (arith, left)), λ h. refl),
                λ h. (rw screened refl, rw screened tallied),
                λ h. absurd (h refl),
              ),
            )
          ]
        ]
      ]

-- Whatever the input, no more channels are selected than may run at once, the day's requests do
-- not pass the daily number unless they had done so before, and none is selected when the
-- tokens of the day are used up.
pub selection_bounded :
    (cs : List RecoveryProbeCandidate) (m : Moment) (policy : RecoveryProbeBudgetPolicy)
    (requests tokens : ℕ) (hourly : Text → ℕ) {s : RecoveryProbeSelection}
    → select_recovery_probe_candidates cs m policy requests tokens hourly
      ≡ SelectionResult.selection s
    → (length s.selected_channel_ids ≤ policy.concurrency)
      × (requests + length s.selected_channel_ids ≤ max requests policy.daily_requests)
      × (policy.daily_tokens ≤ tokens → length s.selected_channel_ids ≡ 0)
unfolding select_recovery_probe_candidates
selection_bounded cs (Moment.naive t) policy requests tokens hourly h = cc
selection_bounded cs (Moment.aware now) policy requests tokens hourly h = ground (
  arith,
  length-take-le (min policy.concurrency (policy.daily_requests - requests))
      (screen policy now hourly (sort_by by_channel_id cs)).1,
)
