-- ===== src/Guardian/Executor/Examples.antt =====
-- Recovery runs over concrete accounts.
use sub2_ddq.Prelude.{
  ℕ, ◌+◌, ◌≡◌, ◌⊎◌, refl, true, false, Option, none, some, List, [], ◌∷◌, Text, codes, lower, strip,
  length,
}
use sub2_ddq.Guardian.Contracts.{
  AccountMutationResult, AccountObservation, AccountRecoveryClassification, AccountRecoveryResult,
  AccountRecoveryRunTrigger, AccountStatus, AccountTestExecutionResult,
}
use sub2_ddq.Guardian.Selection.{DecisionReason, is_oauth_type}
use sub2_ddq.Guardian.Executor.{
  Answers, Counts, MutationOutcome, Outcome, Round, TestOutcome, act_on_test, execute_account,
  execute_rounds, is_success, judge_mutation, settle_test,
}
use sub2_ddq.Guardian.Executor.Verdicts.{
  Confirmed, DisableEvidence, TestedAs, disables, enables, results_are_earned, writes_are_verified,
}
use sub2_ddq.Guardian.Executor.Run.{
  QuietAfterStop, execute_rounds-QuietAfterStop, execute_rounds_accounts, results,
}

abbrev account : ℕ → AccountObservation
account id = record {
  account_id = id;
  name = codes "key";
  group_ids = 7 ∷ [];
  status = AccountStatus.error;
  schedulable = true;
  expired = false;
  temporary_unavailable = false;
  automatic_pause = false;
  account_type = codes "apikey";
}

abbrev failed_test : ℕ → Text → Option TestOutcome
failed_test id model = some (record {
  account_id = id;
  result = AccountTestExecutionResult.definitive_failure;
  reason = codes "unauthorized";
  attempted = true;
})

abbrev mutated : ℕ → AccountMutationResult → Option MutationOutcome
mutated id result =
    some (record { account_id = id; result = result; reason = codes "done"; attempted = true })

abbrev answers : ℕ → AccountMutationResult → Answers
answers id result = record {
  preferred_model = none;
  test = failed_test id;
  enable = none;
  disable = mutated id result;
}

abbrev trigger : AccountRecoveryRunTrigger
trigger = AccountRecoveryRunTrigger.bad_account_state

disables_broken :
    (execute_account trigger true
      (codes "m")
      (account 12)
      (answers 12 AccountMutationResult.applied)).result
    ≡ AccountRecoveryResult.disabled
unfolding execute_account settle_test act_on_test judge_mutation is_oauth_type lower strip
disables_broken = refl

writes_are_verified_example :
    let a = answers 12 AccountMutationResult.applied in
    let v = execute_account trigger true (codes "m") (account 12) a in
    (enables v.calls ≡ true
      → (is_oauth_type (account 12).account_type ≡ false)
        × (true ≡ true)
        × TestedAs trigger true
            (codes "m")
            (account 12)
            a
            (λ t. (t.account_id ≡ 12) × (is_success t.result ≡ true)))
    × (disables v.calls ≡ true
        → (is_oauth_type (account 12).account_type ≡ false)
          × (true ≡ true)
          × TestedAs trigger true
              (codes "m")
              (account 12)
              a
              (λ t. (t.account_id ≡ 12) × DisableEvidence trigger t))
writes_are_verified_example =
    writes_are_verified trigger true (codes "m") (account 12)
      (answers 12 AccountMutationResult.applied)

results_are_earned_example :
    let a = answers 12 AccountMutationResult.applied in
    let v = execute_account trigger true (codes "m") (account 12) a in
    (v.result ≡ AccountRecoveryResult.enabled
      → (true ≡ true)
        × TestedAs trigger true (codes "m") (account 12) a (λ t. is_success t.result ≡ true)
        × (Confirmed 12 a.enable
            ⊎ ((trigger ≡ AccountRecoveryRunTrigger.hourly_active_check)
                × ((account 12).status ≡ AccountStatus.active)
                × ((account 12).schedulable ≡ true))))
    × (v.result ≡ AccountRecoveryResult.disabled → (true ≡ true) × Confirmed 12 a.disable)
    × (v.stop ≡ true
        → (v.result ≡ AccountRecoveryResult.indeterminate)
          × ((enables v.calls ≡ true) ⊎ (disables v.calls ≡ true)))
results_are_earned_example =
    results_are_earned trigger true (codes "m") (account 12)
      (answers 12 AccountMutationResult.applied)

-- The disable of the first account has no known effect, so the second is left alone.
abbrev round : ℕ → Round
round id = record {
  lease_lost = false;
  decision = record {
    account = account id;
    classification = AccountRecoveryClassification.upstream_error;
    selected = true;
    reason = DecisionReason.abnormal_state;
    writeback_allowed = true;
  };
  probe_model = codes "m";
  answers = answers id AccountMutationResult.indeterminate;
  renewed = true;
}

abbrev rounds : List Round
rounds = round 12 ∷ round 13 ∷ []

abbrev no_counts : Counts
no_counts = record { tested = 0; enabled = 0; disabled = 0; indeterminate = 0; skipped = 0 }

execute_rounds_accounts_example :
    let out = execute_rounds trigger false no_counts rounds in
    (results out.1 ≡ results no_counts + length out.2)
    × (out.0 ≡ Outcome.succeeded → length out.2 ≡ length rounds)
execute_rounds_accounts_example = execute_rounds_accounts trigger false no_counts rounds

execute_rounds-QuietAfterStop_example :
    QuietAfterStop (execute_rounds trigger false no_counts rounds).2
execute_rounds-QuietAfterStop_example = execute_rounds-QuietAfterStop trigger false no_counts rounds
