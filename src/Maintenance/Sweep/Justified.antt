-- ===== src/Maintenance/Sweep/Justified.antt =====
-- When the sweep asks for an account to be closed.
use sub2_ddq.Prelude.{
  ℕ, ◌≤◌, ◌≡◌, ◌≢◌, refl, Memᴰ, All-Memᴰ, any_lem, all-elem, elem-keep_if, elem, Bool, true, false,
  ◌&&◌, List, [], ◌∷◌, Text, Dict, subset, meets, all, keep_if, length, All, All-keep_if,
  All-keep_if_of_All, All-sort_by, All-and, All-imp, Bool-cases, inl, inr, ◌⊎◌, subst, sym, arith,
}
use sub2_ddq.Guardian.Contracts.{AccountStatus}
use sub2_ddq.Guardian.Selection.{is_oauth_type}
use sub2_ddq.Maintenance.{
  AccountGroupState, AccountTestResult, ChannelProbe, MaintenanceAdjustment, MaintenancePolicy,
}
use sub2_ddq.Maintenance.Sweep.{
  FailedGroup, condemn, condemned, eligible, failed_memberships, group_keys, is_healthy,
  judge_candidates, note_probes, sweep_adjustment, sweep_candidates, sweep_run, test_account,
  has_groups,
}

-- The account has a group, is not expired, is no person's credential, is not one that the run has
-- adjusted, and is neither turned off nor paused by a human.
abbrev pub IsSweepable : List ℕ → AccountGroupState → Type 0
IsSweepable adjusted a =
    (a.group_ids ≢ [])
    × (a.expired ≡ false)
    × (is_oauth_type a.account_type ≡ false)
    × (elem a.account_id adjusted ≡ false)
    × (a.status ≢ AccountStatus.inactive)
    × (a.status ≢ AccountStatus.disabled)
    × (a.status ≡ AccountStatus.active → a.schedulable ≡ true)

eligible-IsSweepable :
    (adjusted : List ℕ) (a : AccountGroupState)
    → eligible adjusted a ≡ true
    → IsSweepable adjusted a
unfolding eligible
eligible-IsSweepable adjusted a h = (
  λ e. ground (arith, e, h),
  ground (arith, h),
  ground (arith, h),
  ground (arith, h),
  λ e. ground (arith, e, h),
  λ e. ground (arith, e, h),
  λ e. ground (arith, e, h),
)

module _ (failed known monitored adjusted : List ℕ) (accounts : List AccountGroupState) where
  -- What every candidate of the sweep is.
  abbrev pub IsCandidate : AccountGroupState → Type 0
  IsCandidate a =
      Memᴰ a accounts
      × (meets a.group_ids failed && eligible adjusted a ≡ true)
      × (subset a.group_ids known && subset a.group_ids monitored ≡ true)

  sweep_candidates-IsCandidate :
      All IsCandidate (sweep_candidates failed known monitored adjusted accounts)
  unfolding sweep_candidates
  sweep_candidates-IsCandidate =
      let fits = λ (a : AccountGroupState). meets a.group_ids failed && eligible adjusted a in
      let scope =
        λ (a : AccountGroupState). subset a.group_ids known && subset a.group_ids monitored in
      let pool = keep_if fits accounts in
      let P : AccountGroupState → Type 0 = λ a. Memᴰ a accounts × (fits a ≡ true) in
      let both : All P pool =
        All-and (λ a. Memᴰ a accounts) (λ a. fits a ≡ true) pool
          (All-keep_if_of_All (λ a. Memᴰ a accounts) fits accounts (All-Memᴰ accounts))
          (All-keep_if fits accounts) in
      let found : All (λ a. P a × (scope a ≡ true)) (keep_if scope pool) =
        All-and P (λ a. scope a ≡ true) _ (All-keep_if_of_All P scope pool both)
          (All-keep_if scope pool) in
      All-sort_by IsCandidate _ _ (All-imp _ IsCandidate _ (λ a h. (h.0.0, h.0.1, h.1)) found)

-- An adjustment for an account that is a candidate and was condemned.
abbrev pub IsJustified :
    MaintenancePolicy
    → (AccountGroupState → Type 0)
    → (AccountGroupState → Bool)
    → MaintenanceAdjustment
    → Type 0
IsJustified policy P judged adj =
    (a : AccountGroupState) × (adj ≡ sweep_adjustment policy a) × P a × (judged a ≡ true)

condemn-IsJustified :
    (policy : MaintenancePolicy) (known : List ℕ) (P : AccountGroupState → Type 0)
    (judged : AccountGroupState → Bool) (candidates : List AccountGroupState)
    → All P candidates
    → All (IsJustified policy P judged) (condemn policy known judged candidates).0
unfolding condemn
condemn-IsJustified policy known P judged [] h = tt
condemn-IsJustified policy known P judged (a ∷ rest) h =
    let ih = condemn-IsJustified policy known P judged rest h.1 in
    elim (Bool-cases (judged a)) [
      | inr e ↦ rw e ih
      | inl e ↦ elim (Bool-cases (subset a.group_ids known)) [
        | inr f ↦ rw (e, f) ih
        | inl f ↦ rw (e, f) ((a, refl, h.0, e), ih)
      ]
    ]

length-condemn :
    (policy : MaintenancePolicy) (known : List ℕ) (judged : AccountGroupState → Bool)
    (candidates : List AccountGroupState)
    → length (condemn policy known judged candidates).0 ≤ length candidates
unfolding condemn
length-condemn policy known judged [] = omega arith
length-condemn policy known judged (a ∷ rest) =
    ground (arith, length-condemn policy known judged rest)

condemned_lem :
    (failed : List ℕ) (healthy : ℕ → Bool) (adjusted : List ℕ) (r : AccountTestResult)
    (a : AccountGroupState)
    → condemned failed healthy adjusted r a ≡ true
    → (r.success ≡ false)
      × (r.definitive_failure ≡ true)
      × (has_groups (failed_memberships failed a) ≡ true)
      × (all healthy (failed_memberships failed a) ≡ true)
unfolding condemned
condemned_lem failed healthy adjusted r a h =
    let members : List ℕ = failed_memberships failed a in
    (ground (arith, h), ground (arith, h), ground (arith, h), ground (arith, h))

module _ (policy : MaintenancePolicy) (answer : ℕ → Text → AccountTestResult)
    (probes : List ChannelProbe) (accounts : List AccountGroupState)
    (adjusted known monitored : List ℕ) where
  abbrev failed_groups : Dict FailedGroup
  failed_groups = (note_probes known probes ([], [])).0

  abbrev tests : AccountGroupState → AccountTestResult
  tests = test_account answer failed_groups

  abbrev candidates : List AccountGroupState
  candidates = sweep_candidates (group_keys failed_groups) known monitored adjusted accounts

  abbrev IsFound : AccountGroupState → Type 0
  IsFound = IsCandidate (group_keys failed_groups) known monitored adjusted accounts

  -- An account of the snapshot in the group has passed its test.
  abbrev pub HasHealthyAccount : ℕ → Type 0
  HasHealthyAccount g =
      (b : AccountGroupState) × Memᴰ b accounts
      × (elem g b.group_ids ≡ true)
      × ((tests b).success ≡ true)

  -- The test of the account failed for certain, one of its groups has failed, and in every failed
  -- group of the account another test succeeded.
  abbrev pub IsBroken : AccountGroupState → Type 0
  IsBroken a =
      ((tests a).success ≡ false)
      × ((tests a).definitive_failure ≡ true)
      × (meets a.group_ids (group_keys failed_groups) ≡ true)
      × ((g : ℕ)
          → elem g a.group_ids ≡ true
          → elem g (group_keys failed_groups) ≡ true
          → HasHealthyAccount g)

  -- What the sweep asks for is an account of the snapshot that may be swept, in known and monitored
  -- groups alone, and broken.
  abbrev pub IsSweepAdjustment : MaintenanceAdjustment → Type 0
  IsSweepAdjustment adj =
      (a : AccountGroupState) × Memᴰ a accounts
      × (adj ≡ sweep_adjustment policy a)
      × IsSweepable adjusted a
      × (subset a.group_ids known ≡ true)
      × (subset a.group_ids monitored ≡ true)
      × IsBroken a

  healthy_lem : (g : ℕ) → is_healthy tests candidates g ≡ true → HasHealthyAccount g
  healthy_lem g h =
      let (b, found, e) =
        any_lem IsFound (λ a. elem g a.group_ids && (tests a).success) candidates
          (sweep_candidates-IsCandidate (group_keys failed_groups) known monitored adjusted
            accounts)
          h in
      (b, found.0, ground (arith, e), ground (arith, e))

  condemned-IsBroken :
      (a : AccountGroupState)
      → IsFound a
      → condemned (group_keys failed_groups) (is_healthy tests candidates) adjusted (tests a) a
        ≡ true
      → IsBroken a
  condemned-IsBroken a found h =
      let failed = group_keys failed_groups in
      let (unsuccessful, certain, some_group, healthy) = condemned_lem _ _ _ _ _ h in
      (
        unsuccessful,
        certain,
        ground (arith, found.1),
        λ g mine bad. healthy_lem g (
            all-elem (is_healthy tests candidates) g (failed_memberships failed a) healthy
              (elem-keep_if (λ g. elem g failed) g a.group_ids mine bad)),
      )

  judge_candidates-IsSweepAdjustment :
      All IsSweepAdjustment
        (judge_candidates policy answer known adjusted failed_groups candidates).0
  unfolding judge_candidates
  judge_candidates-IsSweepAdjustment =
      All-imp _ IsSweepAdjustment _
        (λ adj j.
          let (a, same, p, verdict) = j in
          let (there, fit, scope) = p in
          (
            a,
            there,
            same,
            eligible-IsSweepable adjusted a (ground (arith, fit)),
            ground (arith, scope),
            ground (arith, scope),
            condemned-IsBroken a p verdict,
          ))
        (condemn-IsJustified policy known IsFound _ candidates (
          sweep_candidates-IsCandidate (group_keys failed_groups) known monitored adjusted
            accounts))

  -- The adjustments of a run are none, or those of the last loop.
  sweep_run-cases :
      ((sweep_run policy answer probes accounts adjusted known monitored).0 ≡ [])
      ⊎ ((sweep_run policy answer probes accounts adjusted known monitored).0
          ≡ (judge_candidates policy answer known adjusted failed_groups candidates).0)
  unfolding sweep_run
  sweep_run-cases = ground arith

  -- Every adjustment of the sweep is for an account of the snapshot that has groups, all known and
  -- monitored, is not expired, no person's credential, not adjusted before in the run, not turned
  -- off and not paused, whose test failed for certain, that is in a failed group, and in each of
  -- whose failed groups an account of the snapshot passed its test.
  pub sweep_run-IsSweepAdjustment :
      All IsSweepAdjustment (sweep_run policy answer probes accounts adjusted known monitored).0
  sweep_run-IsSweepAdjustment = elim sweep_run-cases [
    | inl e ↦ subst (All IsSweepAdjustment) (sym e) tt
    | inr e ↦ subst (All IsSweepAdjustment) (sym e) judge_candidates-IsSweepAdjustment
  ]

  -- The sweep asks for no more accounts than its limit allows.
  pub length-sweep_run :
      length (sweep_run policy answer probes accounts adjusted known monitored).0
      ≤ policy.channel_account_sweep_max_accounts
  unfolding sweep_run judge_candidates
  length-sweep_run =
      let n =
        length-condemn policy known
          (λ a.
            condemned (group_keys failed_groups) (is_healthy tests candidates) adjusted (tests a) a)
          candidates in
      ground (arith, n)
