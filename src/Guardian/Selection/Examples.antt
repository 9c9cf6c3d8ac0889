-- ===== src/Guardian/Selection/Examples.antt =====
-- Selections of concrete accounts.
use sub2_ddq.Prelude.{
  Bool, ◌&&◌, ℕ, ◌<◌, ◌≡◌, ◌≢◌, ◌↔◌, refl, Bool, true, false, none, List, [], ◌∷◌, map, codes,
  lower, strip, count, keep_if,
}
use sub2_ddq.Guardian.Contracts.{
  AccountObservation, AccountRecoveryClassification, AccountRecoveryOwner, AccountRecoveryPolicy,
  AccountRecoveryRunTrigger, AccountStatus,
}
use sub2_ddq.Guardian.Selection.{
  DecisionReason, RecoverySelection, Selected, channel_scope, classification, decide_account,
  finish_selection, is_oauth_type, select_account_recovery_candidates,
}
use sub2_ddq.Guardian.Selection.Laws.{
  MayTouch, abnormal_account_selected, selection_exact, is_in_scope,
}

abbrev account : ℕ → AccountStatus → Bool → AccountObservation
account id status schedulable = record {
  account_id = id;
  name = codes "key";
  group_ids = 7 ∷ [];
  status = status;
  schedulable = schedulable;
  expired = false;
  temporary_unavailable = false;
  automatic_pause = false;
  account_type = codes "apikey";
}

-- In error, paused by a human, and working.
abbrev observations : List AccountObservation
observations =
    account 12 AccountStatus.error true
    ∷ account 11 AccountStatus.active false
    ∷ account 13 AccountStatus.active true
    ∷ []

abbrev policy : AccountRecoveryPolicy
policy = record {
  enabled = true;
  owner = AccountRecoveryOwner.guardian;
  max_concurrency = 1;
  max_accounts_per_episode = 100;
  retry_cooldown_seconds = 600;
}

abbrev selection : RecoverySelection
selection = record {
  trigger = AccountRecoveryRunTrigger.bad_account_state;
  decisions =
      record {
        account = account 11 AccountStatus.active false;
        classification = AccountRecoveryClassification.manual_pause;
        selected = false;
        reason = DecisionReason.manual_pause;
        writeback_allowed = false;
      }
      ∷ record {
        account = account 12 AccountStatus.error true;
        classification = AccountRecoveryClassification.upstream_error;
        selected = true;
        reason = DecisionReason.abnormal_state;
        writeback_allowed = true;
      }
      ∷ record {
        account = account 13 AccountStatus.active true;
        classification = AccountRecoveryClassification.available;
        selected = false;
        reason = DecisionReason.normal_account;
        writeback_allowed = true;
      }
      ∷ [];
  selected_account_ids = 12 ∷ [];
  global_block_reason = none;
}

is_oauth_type-setup_token : is_oauth_type (codes " Setup-Token ") ≡ true
unfolding is_oauth_type lower strip
is_oauth_type-setup_token = refl

selects_the_broken :
    select_account_recovery_candidates observations AccountRecoveryRunTrigger.bad_account_state
      policy
      (7 ∷ [])
      none
      []
      []
    ≡ Selected.ok selection
unfolding select_account_recovery_candidates finish_selection decide_account classification
    is_oauth_type lower strip
selects_the_broken = refl

may_touch : MayTouch (account 12 AccountStatus.error true)
unfolding is_oauth_type lower strip
may_touch = (refl, refl, refl)

abnormal_account_selected_example :
    (decide_account AccountRecoveryRunTrigger.bad_account_state none
      (7 ∷ [])
      []
      []
      (account 12 AccountStatus.error true)).selected
    ≡ true
abnormal_account_selected_example =
    abnormal_account_selected AccountRecoveryRunTrigger.bad_account_state none (7 ∷ []) [] []
      (account 12 AccountStatus.error true) may_touch (λ e. cc) refl refl (λ e. cc)

selection_exact_example :
    let trigger = AccountRecoveryRunTrigger.bad_account_state in
    ((p : AccountObservation → Bool)
      → count (λ d. p d.account) selection.decisions
        ≡ count (λ a. is_in_scope trigger none a && p a) observations)
    × (selection.selected_account_ids
        ≡ map (λ d. d.account.account_id) (keep_if (λ d. d.selected) selection.decisions))
    × (selection.global_block_reason ≢ none → selection.selected_account_ids ≡ [])
    × ((selection.global_block_reason ≢ none) ↔ (
        (channel_scope trigger none ≡ true)
        × (policy.max_accounts_per_episode < count (is_in_scope trigger none) observations)))
selection_exact_example =
    selection_exact observations AccountRecoveryRunTrigger.bad_account_state policy (7 ∷ []) none []
      [] selects_the_broken
