-- ===== src/Guardian/Executor/Verdicts.antt =====
-- What `_execute_account` may write, and what its verdicts stand for.
use sub2_ddq.Prelude.{
  ℕ, ◌≡◌, ◌≢◌, ◌⊎◌, refl, Bool, true, false, Option, none, some, List, [], ◌∷◌, ◌++◌, Text, any,
  arith, codes, text_eq, ◌||◌, Option-cases, Bool-cases, inl, inr,
}
use sub2_ddq.Guardian.Contracts.{
  AccountObservation, AccountStatus, AccountRecoveryResult, AccountRecoveryRunTrigger,
  AccountTestExecutionResult,
}
use sub2_ddq.Guardian.Selection.{is_oauth_type}
use sub2_ddq.Guardian.Executor.{
  TestOutcome, MutationOutcome, Answers, Call, is_success, is_applied, model_or, retry_with_sol,
  settle_test, judge_mutation, act_on_test, execute_account,
}

abbrev pub is_enable : Call → Bool
is_enable Call.enable = true
is_enable _ = false

abbrev pub is_disable : Call → Bool
is_disable Call.disable = true
is_disable _ = false

abbrev pub enables : List Call → Bool
enables = any is_enable

abbrev pub disables : List Call → Bool
disables = any is_disable

any-append : (p : Call → Bool) (xs ys : List Call) → any p (xs ++ ys) ≡ (any p xs || any p ys)
any-append p [] ys = refl
any-append p (x ∷ xs) ys = ground (arith, any-append p xs ys)

-- The outcome that `_execute_account` goes by after the retry.
abbrev pub settled_test : Answers → Bool → Text → TestOutcome → TestOutcome
settled_test answers writeback model first = (settle_test answers writeback model first).0

module _ (answers : Answers) (writeback : Bool) (model : Text) (first : TestOutcome) where
  settle_test_calls :
      (enables (settle_test answers writeback model first).1 ≡ false)
      × (disables (settle_test answers writeback model first).1 ≡ false)
  unfolding settle_test retry_with_sol
  settle_test_calls = ground arith

module _ (account_id : ℕ) (tested : TestOutcome) (m : Option MutationOutcome)
    (calls : List Call) where
  judge-calls : (judge_mutation account_id tested m calls).calls ≡ calls
  unfolding judge_mutation
  judge-calls = ground arith

  judge_enabled :
      (judge_mutation account_id tested m calls).result ≡ AccountRecoveryResult.enabled
      → (is_success tested.result ≡ true)
        × ((o : MutationOutcome) × (m ≡ some o)
            × (o.account_id ≡ account_id)
            × (is_applied o.result ≡ true))
  unfolding judge_mutation
  judge_enabled h = ground arith

  judge_disabled :
      (judge_mutation account_id tested m calls).result ≡ AccountRecoveryResult.disabled
      → (is_success tested.result ≡ false)
        × ((o : MutationOutcome) × (m ≡ some o)
            × (o.account_id ≡ account_id)
            × (is_applied o.result ≡ true))
  unfolding judge_mutation
  judge_disabled h = ground arith

  judge_stop :
      (judge_mutation account_id tested m calls).stop ≡ true
      → (judge_mutation account_id tested m calls).result ≡ AccountRecoveryResult.indeterminate
  unfolding judge_mutation
  judge_stop h = ground arith

-- A verdict that lets an account be disabled: a definitive failure, or no verdict at all where the
-- stream hung or the channel itself is in error.
abbrev pub DisableEvidence : AccountRecoveryRunTrigger → TestOutcome → Type 0
DisableEvidence trigger t =
    (t.result ≡ AccountTestExecutionResult.definitive_failure)
    ⊎ ((t.result ≡ AccountTestExecutionResult.indeterminate)
        × ((text_eq t.reason (codes "test_incomplete") ≡ true)
            ⊎ (trigger ≡ AccountRecoveryRunTrigger.channel_error)))

-- The mutation answer confirms the call for the account.
abbrev pub Confirmed : ℕ → Option MutationOutcome → Type 0
Confirmed account_id m =
    (o : MutationOutcome) × (m ≡ some o)
    × (o.account_id ≡ account_id)
    × (is_applied o.result ≡ true)

module _ (trigger : AccountRecoveryRunTrigger) (writeback : Bool) (account : AccountObservation)
    (answers : Answers) (t : TestOutcome) (calls : List Call) (quiet_enable : enables calls ≡ false)
    (quiet_disable : disables calls ≡ false) where
  act_enables :
      enables (act_on_test trigger writeback account answers t calls).calls ≡ true
      → (writeback ≡ true) × (t.account_id ≡ account.account_id) × (is_success t.result ≡ true)
  unfolding act_on_test
  act_enables h = ground (
    arith,
    any-append is_enable calls (Call.enable ∷ []),
    any-append is_enable calls (Call.disable ∷ []),
    judge-calls account.account_id t answers.enable (calls ++ Call.enable ∷ []),
    judge-calls account.account_id t answers.disable (calls ++ Call.disable ∷ []),
  )

  act_disables :
      disables (act_on_test trigger writeback account answers t calls).calls ≡ true
      → (writeback ≡ true) × (t.account_id ≡ account.account_id) × DisableEvidence trigger t
  unfolding act_on_test
  act_disables h = ground (
    arith,
    any-append is_disable calls (Call.enable ∷ []),
    any-append is_disable calls (Call.disable ∷ []),
    judge-calls account.account_id t answers.enable (calls ++ Call.enable ∷ []),
    judge-calls account.account_id t answers.disable (calls ++ Call.disable ∷ []),
  )

  act_disabled :
      (act_on_test trigger writeback account answers t calls).result
        ≡ AccountRecoveryResult.disabled
      → (writeback ≡ true) × Confirmed account.account_id answers.disable
  unfolding act_on_test
  act_disabled h = ground (
    arith,
    judge_disabled account.account_id t answers.enable (calls ++ Call.enable ∷ []),
    judge_disabled account.account_id t answers.disable (calls ++ Call.disable ∷ []),
  )

  act_enabled :
      (act_on_test trigger writeback account answers t calls).result ≡ AccountRecoveryResult.enabled
      → (writeback ≡ true)
        × (is_success t.result ≡ true)
        × (Confirmed account.account_id answers.enable
            ⊎ ((trigger ≡ AccountRecoveryRunTrigger.hourly_active_check)
                × (account.status ≡ AccountStatus.active)
                × (account.schedulable ≡ true)))
  unfolding act_on_test
  act_enabled h = ground (
    arith,
    judge_enabled account.account_id t answers.enable (calls ++ Call.enable ∷ []),
    judge_enabled account.account_id t answers.disable (calls ++ Call.disable ∷ []),
  )

  act_stops :
      (act_on_test trigger writeback account answers t calls).stop ≡ true
      → ((act_on_test trigger writeback account answers t calls).result
          ≡ AccountRecoveryResult.indeterminate)
        × ((enables (act_on_test trigger writeback account answers t calls).calls ≡ true)
            ⊎ (disables (act_on_test trigger writeback account answers t calls).calls ≡ true))
  unfolding act_on_test
  act_stops h = ground (
    arith,
    any-append is_enable calls (Call.enable ∷ []),
    any-append is_disable calls (Call.disable ∷ []),
    judge-calls account.account_id t answers.enable (calls ++ Call.enable ∷ []),
    judge-calls account.account_id t answers.disable (calls ++ Call.disable ∷ []),
    judge_stop account.account_id t answers.enable (calls ++ Call.enable ∷ []),
    judge_stop account.account_id t answers.disable (calls ++ Call.disable ∷ []),
  )

module _ (trigger : AccountRecoveryRunTrigger) (writeback : Bool) (probe_model : Text)
    (account : AccountObservation) (answers : Answers) where
  -- The test that the run goes by was made and answered.
  abbrev pub TestedAs : (TestOutcome → Type 0) → Type 0
  TestedAs P =
      (first : TestOutcome) × (answers.test (model_or answers.preferred_model probe_model)
        ≡ some first)
      × P (settled_test answers writeback (model_or answers.preferred_model probe_model) first)

  abbrev model : Text
  model = model_or answers.preferred_model probe_model

  -- With the first answer at hand the verdict is that of `act_on_test`.
  execute_account_answered :
      (first : TestOutcome)
      → answers.test model ≡ some first
      → is_oauth_type account.account_type ≡ false
      → execute_account trigger writeback probe_model account answers
        ≡ act_on_test trigger writeback account answers
            (settled_test answers writeback model first)
            (Call.test model ∷ (settle_test answers writeback model first).1)
  unfolding execute_account
  execute_account_answered first gives person = ground arith

  -- Without it, or for a person's credential, nothing is written and the run goes on.
  execute_account_unanswered :
      (answers.test model ≡ none) ⊎ (is_oauth_type account.account_type ≡ true)
      → let v = execute_account trigger writeback probe_model account answers in
        (enables v.calls ≡ false)
        × (disables v.calls ≡ false)
        × (v.stop ≡ false)
        × (v.result ≢ AccountRecoveryResult.enabled)
        × (v.result ≢ AccountRecoveryResult.disabled)
  unfolding execute_account
  execute_account_unanswered h = ground arith

  -- Either the verdict is that of `act_on_test` on the settled test, or nothing was written.
  execute_account-cases :
      ((is_oauth_type account.account_type ≡ false)
        × ((first : TestOutcome) × (answers.test model ≡ some first)
            × (execute_account trigger writeback probe_model account answers
                ≡ act_on_test trigger writeback account answers
                    (settled_test answers writeback model first)
                    (Call.test model ∷ (settle_test answers writeback model first).1))))
      ⊎ ((answers.test model ≡ none) ⊎ (is_oauth_type account.account_type ≡ true))
  execute_account-cases = elim (Option-cases (answers.test model)) [
    | inl fails ↦ inr (inl fails)
    | inr (first, gives) ↦ elim (Bool-cases (is_oauth_type account.account_type)) [
      | inl person ↦ inr (inr person)
      | inr plain ↦ inl (plain, (first, gives, execute_account_answered first gives plain))
    ]
  ]

  -- An account is enabled or disabled only with write permission, if it is no person's credential,
  -- and after a test that answered for this account: a success before an enable, and before a
  -- disable a definitive failure, a hung test, or a test with no verdict in a channel error.
  pub writes_are_verified :
      ((enables (execute_account trigger writeback probe_model account answers).calls ≡ true)
        → (is_oauth_type account.account_type ≡ false)
          × (writeback ≡ true)
          × TestedAs (λ t. (t.account_id ≡ account.account_id) × (is_success t.result ≡ true)))
      × ((disables (execute_account trigger writeback probe_model account answers).calls ≡ true)
          → (is_oauth_type account.account_type ≡ false)
            × (writeback ≡ true)
            × TestedAs (λ t. (t.account_id ≡ account.account_id) × DisableEvidence trigger t))
  writes_are_verified = elim execute_account-cases [
    | inl (plain, (first, gives, e)) ↦
        let q = settle_test_calls answers writeback model first in
        let t = settled_test answers writeback model first in
        let calls = Call.test model ∷ (settle_test answers writeback model first).1 in
        (
          λ h.
              let (w, i, k) =
                act_enables trigger writeback account answers t calls q.0 q.1 (rw e at h) in
              (plain, w, (first, gives, (i, k))),
          λ h.
              let (w, i, k) =
                act_disables trigger writeback account answers t calls q.0 q.1 (rw e at h) in
              (plain, w, (first, gives, (i, k))),
        )
    | inr quiet ↦
        let (a, b, c, d, f) = execute_account_unanswered quiet in
        (λ h. absurd (ground (arith, a)), λ h. absurd (ground (arith, b)))
  ]

  -- ENABLED is reported with write permission after a successful test only, and then either an
  -- enable call was confirmed for this account, or the hourly check found it active and
  -- schedulable. DISABLED is reported only if a disable call was confirmed for this account. The
  -- rest of the run is stopped only by an enable or disable call whose effect is not known.
  pub results_are_earned :
      let v = execute_account trigger writeback probe_model account answers in
      (v.result ≡ AccountRecoveryResult.enabled
        → (writeback ≡ true)
          × TestedAs (λ t. is_success t.result ≡ true)
          × (Confirmed account.account_id answers.enable
              ⊎ ((trigger ≡ AccountRecoveryRunTrigger.hourly_active_check)
                  × (account.status ≡ AccountStatus.active)
                  × (account.schedulable ≡ true))))
      × (v.result ≡ AccountRecoveryResult.disabled
          → (writeback ≡ true) × Confirmed account.account_id answers.disable)
      × (v.stop ≡ true
          → (v.result ≡ AccountRecoveryResult.indeterminate)
            × ((enables v.calls ≡ true) ⊎ (disables v.calls ≡ true)))
  results_are_earned = elim execute_account-cases [
    | inl (plain, (first, gives, e)) ↦
        let q = settle_test_calls answers writeback model first in
        let t = settled_test answers writeback model first in
        let calls = Call.test model ∷ (settle_test answers writeback model first).1 in
        (
          λ h.
              let (w, k, c) =
                act_enabled trigger writeback account answers t calls q.0 q.1 (rw e at h) in
              (w, (first, gives, k), c),
          λ h. act_disabled trigger writeback account answers t calls q.0 q.1 (rw e at h),
          λ h. rw e (act_stops trigger writeback account answers t calls q.0 q.1 (rw e at h)),
        )
    | inr quiet ↦
        let (a, b, c, d, f) = execute_account_unanswered quiet in
        (λ h. absurd (d h), λ h. absurd (f h), λ h. absurd (ground (arith, c)))
  ]
