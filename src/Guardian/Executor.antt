-- ===== src/Guardian/Executor.antt =====
-- src/sub2api_mcp/guardian/account_recovery.py, the executor: `_execute_account` and the loop of
-- `execute` over the selected accounts. The adapter's calls are parameters: `Answers` holds what
-- each call gives, `none` where it raises. The store of preferred models answers the read, `none` if
-- it has no model or an empty one, and is taken to accept a write; prompt and mode are handed
-- through and left out.
pub mod Verdicts
pub mod Run
mod Examples
use sub2_ddq.Prelude.{
  ℕ, ◌+◌, Bool, true, false, not, ◌&&◌, ◌||◌, Option, none, some, List, [], ◌∷◌, ◌++◌, Text, codes,
  text_eq, ◌==◌, if◌then◌else◌, is_some,
}
use sub2_ddq.Guardian.Contracts.{
  AccountObservation, AccountRecoveryResult, AccountRecoveryRunTrigger, AccountTestExecutionResult,
  AccountMutationResult, is_active,
}
use sub2_ddq.Guardian.Selection.{RecoveryDecision, is_oauth_type, is_hourly, is_channel_error}

pub record TestOutcome : Type 0 where
  pub account_id : ℕ
  pub result : AccountTestExecutionResult
  pub reason : Text
  pub attempted : Bool

pub record MutationOutcome : Type 0 where
  pub account_id : ℕ
  pub result : AccountMutationResult
  pub reason : Text
  pub attempted : Bool

pub record Answers : Type 0 where
  pub preferred_model : Option Text
  pub test : Text → Option TestOutcome
  pub enable : Option MutationOutcome
  pub disable : Option MutationOutcome

-- The calls that change something outside, in order.
pub data Call : Type 0 where
  test : Text → Call
  set_preferred : Option Text → Call
  enable disable : Call

pub record Verdict : Type 0 where
  pub result : AccountRecoveryResult
  pub reason : Text
  pub tested : Bool
  pub stop : Bool
  pub calls : List Call

abbrev pub is_success : AccountTestExecutionResult → Bool
is_success AccountTestExecutionResult.success = true
is_success _ = false

abbrev pub is_indeterminate : AccountTestExecutionResult → Bool
is_indeterminate AccountTestExecutionResult.indeterminate = true
is_indeterminate _ = false

abbrev pub is_skipped : AccountTestExecutionResult → Bool
is_skipped AccountTestExecutionResult.skipped = true
is_skipped _ = false

-- `tested.result.value.casefold()`
abbrev test_word : AccountTestExecutionResult → Text
test_word AccountTestExecutionResult.success = codes "success"
test_word AccountTestExecutionResult.definitive_failure = codes "definitive_failure"
test_word AccountTestExecutionResult.indeterminate = codes "indeterminate"
test_word AccountTestExecutionResult.skipped = codes "skipped"

abbrev pub is_applied : AccountMutationResult → Bool
is_applied AccountMutationResult.applied = true
is_applied AccountMutationResult.no_change = true
is_applied _ = false

abbrev pub is_blocked : AccountMutationResult → Bool
is_blocked AccountMutationResult.blocked = true
is_blocked _ = false

-- The truth value of a string.
abbrev pub nonempty : Text → Bool
nonempty [] = false
nonempty (c ∷ s) = true

abbrev pub model_or : Option Text → Text → Text
model_or none fallback = fallback
model_or (some m) fallback = m

abbrev pub terra : Text
terra = codes "gpt-5.6-terra"

abbrev pub sol : Text
sol = codes "gpt-5.6-sol"

-- The retry with the fallback model, in its own `try`; gives the outcome that counts from here on.
unfoldable pub retry_with_sol : Answers → TestOutcome → TestOutcome × List Call
retry_with_sol answers tested = elim (answers.test sol) [
  | none ↦ (tested, Call.test sol ∷ [])
  | some retried ↦
      if is_success retried.result
      then (retried, Call.test sol ∷ Call.set_preferred (some sol) ∷ [])
      else (tested, Call.test sol ∷ Call.set_preferred none ∷ [])
]

-- The test of the fallback model, or the reset of an old preference.
unfoldable pub settle_test : Answers → Bool → Text → TestOutcome → TestOutcome × List Call
settle_test answers writeback model tested =
    if not (is_success tested.result) && text_eq model terra && writeback
    then retry_with_sol answers tested
    else if not (is_success tested.result) && is_some answers.preferred_model
    then (tested, Call.set_preferred none ∷ [])
    else if is_success tested.result && text_eq model terra && is_some answers.preferred_model
    then (tested, Call.set_preferred none ∷ [])
    else (tested, [])

abbrev pub combined_reason : TestOutcome → MutationOutcome → Text
combined_reason tested mutation =
    if not (is_success tested.result) && nonempty tested.reason
    then tested.reason ++ codes ":" ++ mutation.reason
    else mutation.reason

-- What the answer to the enable or disable call means.
unfoldable pub judge_mutation : ℕ → TestOutcome → Option MutationOutcome → List Call → Verdict
judge_mutation account_id tested none calls = record {
  result = AccountRecoveryResult.indeterminate;
  reason = codes "account_mutation_failed";
  tested = tested.attempted;
  stop = true;
  calls = calls;
}
judge_mutation account_id tested (some mutation) calls =
    if not (mutation.account_id == account_id)
    then record {
      result = AccountRecoveryResult.indeterminate;
      reason = codes "mutation_identity_mismatch";
      tested = tested.attempted;
      stop = true;
      calls = calls;
    }
    else if is_applied mutation.result
    then record {
      result =
          if is_success tested.result
          then AccountRecoveryResult.enabled
          else AccountRecoveryResult.disabled;
      reason = combined_reason tested mutation;
      tested = tested.attempted;
      stop = false;
      calls = calls;
    }
    else if not mutation.attempted && is_blocked mutation.result
    then record {
      result = AccountRecoveryResult.skipped;
      reason = mutation.reason;
      tested = tested.attempted;
      stop = false;
      calls = calls;
    }
    else record {
      result = AccountRecoveryResult.indeterminate;
      reason = mutation.reason;
      tested = tested.attempted;
      stop = mutation.attempted;
      calls = calls;
    }

-- A verdict with no mutation.
abbrev pub settled : AccountRecoveryResult → Text → Bool → List Call → Verdict
settled result reason tested calls = record {
  result = result;
  reason = reason;
  tested = tested;
  stop = false;
  calls = calls;
}

abbrev pub shared_result : AccountTestExecutionResult → AccountRecoveryResult
shared_result AccountTestExecutionResult.indeterminate = AccountRecoveryResult.indeterminate
shared_result _ = AccountRecoveryResult.skipped

-- From the settled test on: the guards, then the mutation.
unfoldable pub act_on_test :
    AccountRecoveryRunTrigger
    → Bool
    → AccountObservation
    → Answers
    → TestOutcome
    → List Call
    → Verdict
act_on_test trigger writeback account answers tested calls =
    if not (tested.account_id == account.account_id)
    then settled AccountRecoveryResult.indeterminate (codes "test_identity_mismatch") true calls
    else if not writeback
    then settled (shared_result tested.result)
        (codes "shared_unmonitored_scope_test_" ++ test_word tested.result) tested.attempted calls
    else if is_skipped tested.result
    then settled AccountRecoveryResult.skipped tested.reason tested.attempted calls
    else if is_indeterminate tested.result
        && not (text_eq tested.reason (codes "test_incomplete"))
        && not (is_channel_error trigger)
    then settled AccountRecoveryResult.indeterminate tested.reason tested.attempted calls
    else if is_hourly trigger
        && is_success tested.result
        && is_active account.status
        && account.schedulable
    then settled AccountRecoveryResult.enabled (codes "healthy_no_change") tested.attempted calls
    else if is_success tested.result
    then judge_mutation account.account_id tested answers.enable (calls ++ Call.enable ∷ [])
    else judge_mutation account.account_id tested answers.disable (calls ++ Call.disable ∷ [])

-- `_execute_account`
unfoldable pub execute_account :
    AccountRecoveryRunTrigger → Bool → Text → AccountObservation → Answers → Verdict
execute_account trigger writeback probe_model account answers =
    let model = model_or answers.preferred_model probe_model in
    if is_oauth_type account.account_type
    then settled AccountRecoveryResult.skipped (codes "oauth_account_excluded") false []
    else elim (answers.test model) [
      | none ↦
          settled AccountRecoveryResult.indeterminate (codes "account_test_failed") true
            (Call.test model ∷ [])
      | some first ↦
          let (tested, calls) = settle_test answers writeback model first in
          act_on_test trigger writeback account answers tested (Call.test model ∷ calls)
    ]

-- What one round of the loop meets: the heartbeat's flag, the model for the account, the answers,
-- and whether the lease was renewed at the end of the round.
pub record Round : Type 0 where
  pub lease_lost : Bool
  pub decision : RecoveryDecision
  pub probe_model : Text
  pub answers : Answers
  pub renewed : Bool

pub record Counts : Type 0 where
  pub tested : ℕ
  pub enabled : ℕ
  pub disabled : ℕ
  pub indeterminate : ℕ
  pub skipped : ℕ

-- One recorded result, with the calls that its round made.
pub record Recorded : Type 0 where
  pub account_id : ℕ
  pub verdict : Verdict

pub data Outcome : Type 0 where
  succeeded lease_was_lost : Outcome

abbrev stopped : Verdict
stopped = record {
  result = AccountRecoveryResult.skipped;
  reason = codes "run_stopped_after_unverified_mutation";
  tested = false;
  stop = true;
  calls = [];
}

abbrev pub count_result : AccountRecoveryResult → Counts → Counts
count_result AccountRecoveryResult.enabled c = record c { enabled = c.enabled + 1 }
count_result AccountRecoveryResult.disabled c = record c { disabled = c.disabled + 1 }
count_result AccountRecoveryResult.indeterminate c = record c {
  indeterminate = c.indeterminate + 1;
}
count_result AccountRecoveryResult.skipped c = record c { skipped = c.skipped + 1 }

abbrev pub count_verdict : Verdict → Counts → Counts
count_verdict v c =
    count_result v.result (record c { tested = c.tested + (if v.tested then 1 else 0) })

-- The verdict of a round; after a stop the account is only recorded as skipped.
unfoldable pub round_verdict : AccountRecoveryRunTrigger → Bool → Round → Verdict
round_verdict trigger stop r =
    if stop
    then stopped
    else execute_account trigger r.decision.writeback_allowed r.probe_model r.decision.account
        r.answers

-- The end of a round: the flag of the heartbeat raises before the account, a lease that is not
-- renewed raises behind it, and what was recorded before stays.
unfoldable pub close_round :
    Bool
    → Bool
    → Counts
    → Counts
    → Recorded
    → Outcome × Counts × List Recorded
    → Outcome × Counts × List Recorded
close_round true renewed before after entry later = (Outcome.lease_was_lost, before, [])
close_round false false before after entry later = (Outcome.lease_was_lost, after, entry ∷ [])
close_round false true before after entry later = (later.0, later.1, entry ∷ later.2)

-- The loop of `execute`.
unfoldable pub execute_rounds :
    AccountRecoveryRunTrigger → Bool → Counts → List Round → Outcome × Counts × List Recorded
unfolding close_round
execute_rounds trigger stop counts [] = (Outcome.succeeded, counts, [])
execute_rounds trigger stop counts (r ∷ rest) =
    let v = round_verdict trigger stop r in
    close_round r.lease_lost r.renewed counts (count_verdict v counts)
      (record { account_id = r.decision.account.account_id; verdict = v })
      (execute_rounds trigger v.stop (count_verdict v counts) rest)
