-- ===== src/Guardian/Selection.antt =====
-- src/sub2api_mcp/guardian/account_recovery.py, the pure half: how an account is classified and
-- which accounts of a snapshot are tested. A group ID argument is the number that it spells.
pub mod Laws
mod Examples
use sub2_ddq.Prelude.{
  has_duplicates, ℕ, ◌^◌, Bool, true, false, not, ◌&&◌, ◌||◌, Option, none, some, List, [], ◌∷◌,
  map, Text, codes, text_eq, strip, lower, ltb, leb, ◌==◌, if◌then◌else◌, elem, subset, meets,
  keep_if, sort_by, length,
}
use sub2_ddq.Guardian.Contracts.{
  AccountObservation, AccountStatus, AccountRecoveryClassification, AccountRecoveryRunTrigger,
  AccountRecoveryPolicy, is_active,
}

-- `reason` of a decision.
pub data DecisionReason : Type 0 where
  oauth_account expired automatic_pause manual_pause system_quarantine : DecisionReason
  upstream_error disabled temporary_unavailable normal_account : DecisionReason
  outside_monitored_scope already_processed hourly_auto_pause hourly_active_check : DecisionReason
  channel_error_shared_scope channel_error abnormal_state_shared_scope : DecisionReason
  abnormal_state account_group_too_large : DecisionReason

pub record RecoveryDecision : Type 0 where
  pub account : AccountObservation
  pub classification : AccountRecoveryClassification
  pub selected : Bool
  pub reason : DecisionReason
  pub writeback_allowed : Bool

pub record RecoverySelection : Type 0 where
  pub trigger : AccountRecoveryRunTrigger
  pub decisions : List RecoveryDecision
  pub selected_account_ids : List ℕ
  pub global_block_reason : Option DecisionReason

pub data SelectionError : Type 0 where
  group_required invalid_group duplicate_accounts too_many_decisions : SelectionError

pub data Selected : Type 0 where
  ok : RecoverySelection → Selected
  err : SelectionError → Selected

-- `_uses_retry_cooldown`
unfoldable pub uses_retry_cooldown : AccountRecoveryRunTrigger → Bool
uses_retry_cooldown AccountRecoveryRunTrigger.manual = false
uses_retry_cooldown _ = true

-- `account_type.strip().lower() in {"oauth", "auth", "setup-token"}`
unfoldable pub is_oauth_type : Text → Bool
is_oauth_type t =
    let kind = lower (strip t) in
    text_eq kind (codes "oauth")
    || text_eq kind (codes "auth")
    || text_eq kind (codes "setup-token")

abbrev status_class : AccountStatus → Option (AccountRecoveryClassification × DecisionReason)
status_class AccountStatus.active = none
status_class AccountStatus.error =
    some (AccountRecoveryClassification.upstream_error, DecisionReason.upstream_error)
status_class _ = some (AccountRecoveryClassification.disabled, DecisionReason.disabled)

abbrev class_or :
    Option (AccountRecoveryClassification × DecisionReason)
    → AccountRecoveryClassification × DecisionReason
    → AccountRecoveryClassification × DecisionReason
class_or none c = c
class_or (some c) d = c

-- `_classification`
unfoldable pub classification :
    List ℕ → AccountObservation → AccountRecoveryClassification × DecisionReason
classification quarantined a =
    if is_oauth_type a.account_type
    then (AccountRecoveryClassification.excluded, DecisionReason.oauth_account)
    else if a.expired
    then (AccountRecoveryClassification.excluded, DecisionReason.expired)
    else if is_active a.status && not a.schedulable
    then (if a.automatic_pause
        then (AccountRecoveryClassification.upstream_error, DecisionReason.automatic_pause)
        else (AccountRecoveryClassification.manual_pause, DecisionReason.manual_pause))
    else if elem a.account_id quarantined
    then (AccountRecoveryClassification.system_quarantine, DecisionReason.system_quarantine)
    else class_or (status_class a.status) (
        if a.temporary_unavailable
        then (AccountRecoveryClassification.excluded, DecisionReason.temporary_unavailable)
        else (AccountRecoveryClassification.available, DecisionReason.normal_account))

-- MANUAL_PAUSE and EXCLUDED: the accounts that Guardian leaves alone.
abbrev pub is_protected : AccountRecoveryClassification → Bool
is_protected AccountRecoveryClassification.manual_pause = true
is_protected AccountRecoveryClassification.excluded = true
is_protected _ = false

abbrev pub is_abnormal : AccountRecoveryClassification → Bool
is_abnormal AccountRecoveryClassification.upstream_error = true
is_abnormal AccountRecoveryClassification.disabled = true
is_abnormal AccountRecoveryClassification.system_quarantine = true
is_abnormal _ = false

abbrev pub is_upstream_error : AccountRecoveryClassification → Bool
is_upstream_error AccountRecoveryClassification.upstream_error = true
is_upstream_error _ = false

abbrev pub is_available : AccountRecoveryClassification → Bool
is_available AccountRecoveryClassification.available = true
is_available _ = false

abbrev pub is_hourly : AccountRecoveryRunTrigger → Bool
is_hourly AccountRecoveryRunTrigger.hourly_active_check = true
is_hourly _ = false

abbrev pub is_channel_error : AccountRecoveryRunTrigger → Bool
is_channel_error AccountRecoveryRunTrigger.channel_error = true
is_channel_error _ = false

abbrev pub is_manual : AccountRecoveryRunTrigger → Bool
is_manual AccountRecoveryRunTrigger.manual = true
is_manual _ = false

abbrev pub is_given : Option ℕ → Bool
is_given none = false
is_given (some g) = true

abbrev pub channel_scope : AccountRecoveryRunTrigger → Option ℕ → Bool
channel_scope trigger group_id =
    is_channel_error trigger || (is_manual trigger && is_given group_id)

-- `group_id in item.group_ids`
abbrev pub in_group : Option ℕ → AccountObservation → Bool
in_group none a = false
in_group (some g) a = elem g a.group_ids

-- Whether the account is tested, and why, behind the tests that every trigger makes.
unfoldable pub selected_by_trigger :
    AccountRecoveryRunTrigger
    → Bool
    → AccountObservation
    → AccountRecoveryClassification
    → Bool
    → Bool
    → DecisionReason
    → Bool × DecisionReason
selected_by_trigger trigger scope a c shared writeback reason =
    if is_hourly trigger
    then (let selected =
          (is_available c || (is_upstream_error c && a.automatic_pause)) && writeback in
        (
          selected,
          if selected
              then (if is_upstream_error c
                  then DecisionReason.hourly_auto_pause
                  else DecisionReason.hourly_active_check)
              else reason,
        ))
    else if scope
    then (
      true,
      if shared then DecisionReason.channel_error_shared_scope else DecisionReason.channel_error,
    )
    else (
      is_abnormal c,
      if is_abnormal c
          then (if shared
              then DecisionReason.abnormal_state_shared_scope
              else DecisionReason.abnormal_state)
          else reason,
    )

module _ (trigger : AccountRecoveryRunTrigger) (group_id : Option ℕ)
    (monitored quarantined processed : List ℕ) where
  -- The loop body: the decision about one account.
  unfoldable pub decide_account : AccountObservation → RecoveryDecision
  unfolding selected_by_trigger
  decide_account a =
      let scope = channel_scope trigger group_id in
      let (c, reason) = classification quarantined a in
      let member = meets a.group_ids monitored in
      let shared = not (subset a.group_ids monitored) in
      let writeback = member && (scope || not shared) && not (is_protected c) in
      let (selected, why) =
        if not member
        then (false, DecisionReason.outside_monitored_scope)
        else if elem a.account_id processed
        then (false, DecisionReason.already_processed)
        else if is_protected c
        then (false, reason)
        else selected_by_trigger trigger scope a c shared writeback reason in
      record {
        account = a;
        classification = c;
        selected = selected;
        reason = why;
        writeback_allowed = writeback;
      }

abbrev pub by_account_id : AccountObservation → AccountObservation → Bool
by_account_id a b = leb a.account_id b.account_id

-- `group_id is not None and (... int(group_id) <= 0 or len(group_id) > 20)`. A spelling with leading
-- zeros, which passes this test and is in no account, is not among the numbers.
abbrev pub is_bad_group : Option ℕ → Bool
is_bad_group none = false
is_bad_group (some g) = g == 0 || leb (10 ^ 20) g

abbrev pub block : RecoveryDecision → RecoveryDecision
block d = record d { selected = false; reason = DecisionReason.account_group_too_large }

-- The cut at `max_accounts_per_episode`, and the result with its validation.
unfoldable pub finish_selection :
    AccountRecoveryRunTrigger → Bool → ℕ → List RecoveryDecision → Selected
finish_selection trigger scope cap decisions =
    let too_large = scope && ltb cap (length decisions) in
    let final = if too_large then map block decisions else decisions in
    if ltb 10000 (length final)
    then Selected.err SelectionError.too_many_decisions
    else Selected.ok (record {
      trigger = trigger;
      decisions = final;
      selected_account_ids = map (λ d. d.account.account_id) (keep_if (λ d. d.selected) final);
      global_block_reason = if too_large then some DecisionReason.account_group_too_large else none;
    })

-- `select_account_recovery_candidates`
unfoldable pub select_account_recovery_candidates :
    List AccountObservation
    → AccountRecoveryRunTrigger
    → AccountRecoveryPolicy
    → List ℕ
    → Option ℕ
    → List ℕ
    → List ℕ
    → Selected
select_account_recovery_candidates observations trigger policy monitored group_id quarantined
      processed =
    let scope = channel_scope trigger group_id in
    if is_channel_error trigger && not (is_given group_id)
    then Selected.err SelectionError.group_required
    else if is_bad_group group_id
    then Selected.err SelectionError.invalid_group
    else if has_duplicates (map (λ a. a.account_id) observations)
    then Selected.err SelectionError.duplicate_accounts
    else finish_selection trigger scope policy.max_accounts_per_episode (
        map (decide_account trigger group_id monitored quarantined processed)
          (sort_by by_account_id (keep_if (λ a. not scope || in_group group_id a) observations)))
