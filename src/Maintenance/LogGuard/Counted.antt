-- ===== src/Maintenance/LogGuard/Counted.antt =====
-- When the log guard asks for an account to be closed.
use sub2_ddq.Prelude.{
  ℕ, ◌+◌, ◌-◌, ◌*◌, ◌≤◌, ◌≡◌, ◌≢◌, refl, Memᴰ, leb, none, false, Bool, true, ◌&&◌, ◌||◌, not,
  Option, some, List, [], ◌∷◌, Dict, put, get_count, get_count-put, get_count-some, elem, subset,
  sort_by, ltb, ◌==◌, is_some, count, All, All-imp, All-sort_by, All-get, HasUniqueKeys,
  HasUniqueKeys-put, Bool-cases, Option-cases, inl, inr, arith, ◌∙◌, ap, ==_iff, subst, sym,
}
use mathlib.Core.Path.{fun_ext}
use mathlib.Core.Option.{some_inj}
use sub2_ddq.Guardian.Contracts.{AccountStatus, Moment, seconds}
use sub2_ddq.Guardian.Selection.{is_oauth_type}
use sub2_ddq.Maintenance.{
  Bucket, is_usable, AccountGroupState, MaintenanceAdjustment, MaintenanceNotice, MaintenancePolicy,
  UsageLogRecord,
}
use sub2_ddq.Maintenance.Sweep.{has_groups}
use sub2_ddq.Maintenance.LogGuard.{
  GuardResult, count_slow, guard_adjustment, guard_loop, guard_run, guarded_account, is_guarded,
  is_slow, by_key,
}

-- The number of late first tokens of an account within the window.
abbrev pub slow_tokens : (UsageLogRecord → Bool) → ℕ → List UsageLogRecord → ℕ
slow_tokens slow id logs = count (λ r. id == r.account_id && slow r) logs

count_slow-get :
    (guarded : ℕ → Bool) (slow : UsageLogRecord → Bool) (id : ℕ) (logs : List UsageLogRecord)
    (counts : Dict ℕ)
    → get_count id (count_slow guarded slow logs counts)
      ≡ get_count id counts
        + count (λ r. id == r.account_id && (guarded r.account_id && slow r)) logs
unfolding count_slow
count_slow-get guarded slow id [] counts = ground arith
count_slow-get guarded slow id (r ∷ logs) counts =
    elim (Bool-cases (guarded r.account_id && slow r)) [
      | inl e ↦ ground (
        arith,
        e,
        get_count-put id r.account_id 1 counts,
        count_slow-get guarded slow id logs
            (put r.account_id (get_count r.account_id counts + 1) counts),
      )
      | inr e ↦ ground (arith, e, count_slow-get guarded slow id logs counts)
    ]

count_slow-HasUniqueKeys :
    (guarded : ℕ → Bool) (slow : UsageLogRecord → Bool) (logs : List UsageLogRecord)
    (counts : Dict ℕ)
    → HasUniqueKeys counts
    → HasUniqueKeys (count_slow guarded slow logs counts)
unfolding count_slow
count_slow-HasUniqueKeys guarded slow [] counts u = u
count_slow-HasUniqueKeys guarded slow (r ∷ logs) counts u =
    elim (Bool-cases (guarded r.account_id && slow r)) [
      | inl e ↦ rw e (
          count_slow-HasUniqueKeys guarded slow logs _
            (HasUniqueKeys-put r.account_id (get_count r.account_id counts + 1) counts u))
      | inr e ↦ rw e (count_slow-HasUniqueKeys guarded slow logs counts u)
    ]

guarded_only :
    (guarded : ℕ → Bool) (slow : UsageLogRecord → Bool) (id : ℕ) (logs : List UsageLogRecord)
    → guarded id ≡ true
    → count (λ r. id == r.account_id && (guarded r.account_id && slow r)) logs
      ≡ slow_tokens slow id logs
guarded_only guarded slow id [] g = refl
guarded_only guarded slow id (r ∷ logs) g = elim (Bool-cases (id == r.account_id)) [
  | inl e ↦
      let same = (==_iff id r.account_id).0 e in
      ground (arith, guarded_only guarded slow id logs g, subst (λ k. guarded k ≡ true) same g)
  | inr e ↦ ground (arith, e, guarded_only guarded slow id logs g)
]

guarded_account_lem :
    (monitored adjusted : List ℕ) (accounts : List AccountGroupState) (id : ℕ)
    (a : AccountGroupState)
    → guarded_account monitored adjusted accounts id ≡ some a
    → (is_guarded monitored adjusted a ≡ true) × (a.account_id ≡ id) × Memᴰ a accounts
unfolding guarded_account
guarded_account_lem monitored adjusted [] id a h = cc
guarded_account_lem monitored adjusted (b ∷ accounts) id a h =
    elim (Option-cases (guarded_account monitored adjusted accounts id)) [
      | inr (x, e) ↦
          let same : x ≡ a = some_inj.0 (rw e at h) in
          let (g, i, m) = guarded_account_lem monitored adjusted accounts id x e in
          subst
            (λ y.
              (is_guarded monitored adjusted y ≡ true)
              × (y.account_id ≡ id)
              × Memᴰ y (b ∷ accounts))
            same (g, i, Memᴰ.tail m)
      | inl e ↦
          let here : (is_guarded monitored adjusted b && b.account_id == id ≡ true) × (b ≡ a) =
            ground (arith, h, e) in
          (ground (arith, here), ground (arith, here), Memᴰ.head (sym here.1))
    ]

-- The account is available, active, schedulable, not expired and no person's credential, all of its
-- groups, at least one, are monitored, and the run has not adjusted it.
abbrev pub IsUnderGuard : List ℕ → List ℕ → AccountGroupState → Type 0
IsUnderGuard monitored adjusted a =
    (a.bucket ≡ Bucket.available)
    × (a.status ≡ AccountStatus.active)
    × (a.schedulable ≡ true)
    × (a.expired ≡ false)
    × (is_oauth_type a.account_type ≡ false)
    × (a.group_ids ≢ [])
    × (subset a.group_ids monitored ≡ true)
    × (elem a.account_id adjusted ≡ false)

guarded-IsUnderGuard :
    (monitored adjusted : List ℕ) (a : AccountGroupState)
    → is_guarded monitored adjusted a ≡ true
    → IsUnderGuard monitored adjusted a
unfolding is_guarded is_usable
guarded-IsUnderGuard monitored adjusted a h = (
  ground (arith, h),
  ground (arith, h),
  ground (arith, h),
  ground (arith, h),
  ground (arith, h),
  λ e. ground (arith, e, h),
  ground (arith, h),
  ground (arith, h),
)

abbrev is_over : ℕ → Option ℕ → Bool
is_over limit none = false
is_over limit (some ms) = ltb limit ms

-- The first token of a log came later than the policy allows, in the minutes before `end`.
abbrev pub came_late : MaintenancePolicy → ℕ → UsageLogRecord → Bool
came_late policy end r =
    leb end (r.created_at + policy.slow_first_token_window_minutes * 60000000)
    && ltb r.created_at end
    && is_over policy.slow_first_token_ms r.first_token_ms

window_lem :
    (end minutes t : ℕ) → leb (end - seconds (60 * minutes)) t ≡ leb end (t + minutes * 60000000)
window_lem end minutes t = ground arith

is_slow_lem : (policy : MaintenancePolicy) (end : ℕ) → is_slow policy end ≡ came_late policy end
unfolding is_slow
is_slow_lem policy end =
    fun_ext (λ r. rw (window_lem end policy.slow_first_token_window_minutes r.created_at) refl)

-- An adjustment for an account of `find` with a count of the dictionary.
abbrev pub IsCounted :
    MaintenancePolicy → List ℕ → (AccountGroupState → ℕ → Type 0) → MaintenanceAdjustment → Type 0
IsCounted policy known P adj =
    (a : AccountGroupState) × (n : ℕ) × (adj ≡ guard_adjustment policy a n)
    × P a n
    × (policy.slow_first_token_event_threshold ≤ n)
    × (subset a.group_ids known ≡ true)

guard_loop-IsCounted :
    (policy : MaintenancePolicy) (find : ℕ → Option AccountGroupState) (adjusted known : List ℕ)
    (P : AccountGroupState → ℕ → Type 0) (es : List (ℕ × ℕ))
    → All (λ e. (a : AccountGroupState) → find e.0 ≡ some a → P a e.1) es
    → All (IsCounted policy known P) (guard_loop policy find adjusted known es).0
unfolding guard_loop
guard_loop-IsCounted policy find adjusted known P [] h = tt
guard_loop-IsCounted policy find adjusted known P (e ∷ es) h =
    let ih = guard_loop-IsCounted policy find adjusted known P es h.1 in
    elim (Bool-cases (ltb e.1 policy.slow_first_token_event_threshold || elem e.0 adjusted)) [
      | inl s ↦ rw s ih
      | inr s ↦ elim (Option-cases (find e.0)) [
        | inl f ↦ rw (s, f) ih
        | inr (a, f) ↦
            elim (Bool-cases (not (has_groups a.group_ids) || not (subset a.group_ids known))) [
              | inl g ↦ rw (s, f, g) ih
              | inr g ↦
                  rw (s, f, g) ((a, e.1, refl, h.0 a f, ground (arith, s), ground (arith, g)), ih)
            ]
      ]
    ]

module _ (policy : MaintenancePolicy) (logs : List UsageLogRecord)
    (accounts : List AccountGroupState) (end : ℕ) (adjusted known monitored : List ℕ) where
  -- An account of the snapshot that is under guard, all its groups known, with as many late first
  -- tokens in the window as the threshold asks for at least, and that number in its adjustment.
  abbrev pub IsGuardAdjustment : MaintenanceAdjustment → Type 0
  IsGuardAdjustment adj =
      (a : AccountGroupState) × Memᴰ a accounts
      × (let n = slow_tokens (came_late policy end) a.account_id logs in
          (adj ≡ guard_adjustment policy a n)
          × IsUnderGuard monitored adjusted a
          × (policy.slow_first_token_event_threshold ≤ n)
          × (subset a.group_ids known ≡ true))

  -- What is known of an account that is counted.
  abbrev IsCountedAccount : AccountGroupState → ℕ → Type 0
  IsCountedAccount a n =
      (is_guarded monitored adjusted a ≡ true)
      × (n ≡ slow_tokens (is_slow policy end) a.account_id logs)
      × Memᴰ a accounts

  -- What the counts say of a guarded account.
  counts_lem :
      let find = guarded_account monitored adjusted accounts in
      let counts = count_slow (λ id. is_some (find id)) (is_slow policy end) logs [] in
      All (λ e. (a : AccountGroupState) → find e.0 ≡ some a → IsCountedAccount a e.1) counts
  counts_lem =
      let find = guarded_account monitored adjusted accounts in
      let guarded : ℕ → Bool = λ id. is_some (find id) in
      let slow = is_slow policy end in
      let counts = count_slow guarded slow logs [] in
      All-imp _ _ counts
        (λ e h a f.
          let (g, same, there) = guarded_account_lem monitored adjusted accounts e.0 a f in
          let n = count_slow-get guarded slow e.0 logs [] in
          let m = guarded_only guarded slow e.0 logs (rw f refl) in
          let v : get_count e.0 counts ≡ e.1 = get_count-some e.0 counts e.1 h in
          (
            g,
            subst (λ k. e.1 ≡ slow_tokens slow k logs) (sym same) (omega (arith, n, m, v)),
            there,
          ))
        (All-get counts (count_slow-HasUniqueKeys guarded slow logs [] refl))

  -- The adjustments of a run of the log guard at a time with a zone.
  abbrev pub guard_adjustments : List MaintenanceAdjustment
  guard_adjustments =
      let find = guarded_account monitored adjusted accounts in
      let counts = count_slow (λ id. is_some (find id)) (is_slow policy end) logs [] in
      (guard_loop policy find adjusted known (sort_by by_key counts)).0

  guard_adjustments-IsGuardAdjustment : All IsGuardAdjustment guard_adjustments
  guard_adjustments-IsGuardAdjustment =
      let find = guarded_account monitored adjusted accounts in
      All-imp _ IsGuardAdjustment guard_adjustments
        (λ adj j.
          let (a, n, same, p, t, k) = j in
          let (guarded, counted, there) = p in
          let late : n ≡ slow_tokens (came_late policy end) a.account_id logs =
            counted ∙ ap (λ slow. slow_tokens slow a.account_id logs) (is_slow_lem policy end) in
          (
            a,
            there,
            (
              same ∙ ap (guard_adjustment policy a) late,
              guarded-IsUnderGuard monitored adjusted a guarded,
              subst (λ m. policy.slow_first_token_event_threshold ≤ m) late t,
              k,
            ),
          ))
        (guard_loop-IsCounted policy find adjusted known IsCountedAccount _
          (All-sort_by _ by_key _ counts_lem))

  -- Every adjustment of the log guard is for an account of the snapshot that is available, active,
  -- schedulable, not expired, no person's credential, not adjusted before in the run, and in groups
  -- that are all known and monitored. It carries the number of first tokens of that account that
  -- came later than the policy allows within the window, which is at least the threshold.
  pub guard_run-IsGuardAdjustment :
      {adjustments : List MaintenanceAdjustment} {notices : List MaintenanceNotice}
      → guard_run policy logs accounts (Moment.aware end) adjusted known monitored
        ≡ GuardResult.found adjustments notices
      → All IsGuardAdjustment adjustments
  unfolding guard_run
  guard_run-IsGuardAdjustment {adjustments} h = elim (Bool-cases policy.log_account_guard_enabled) [
    | inl e ↦
        subst (All IsGuardAdjustment) (ground (arith, h, e)) guard_adjustments-IsGuardAdjustment
    | inr e ↦
        let nothing : [] ≡ adjustments = ground (arith, h, e) in
        subst (All IsGuardAdjustment) nothing tt
  ]
