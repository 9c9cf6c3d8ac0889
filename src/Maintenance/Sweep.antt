-- ===== src/Maintenance/Sweep.antt =====
-- `_ChannelAccountSweepService` of core/maintenance.py. The gateway's answers are the argument
-- `answer`: the result of `test_account_availability` for an account and a model.
pub mod Justified
use sub2_ddq.Prelude.{
  ℕ, Bool, true, false, ◌&&◌, ◌||◌, not, Option, none, some, List, [], ◌∷◌, ◌++◌, map, Text,
  text_eq, strip, Dict, get, put, elem, subset, meets, any, all, keep_if, length, sort_by, ltb, leb,
  ◌==◌, if◌then◌else◌,
}
use sub2_ddq.Guardian.Contracts.{AccountStatus, is_active}
use sub2_ddq.Guardian.Selection.{is_oauth_type}
use sub2_ddq.Maintenance.{
  AccountGroupState, AccountTestResult, ChannelProbe, ChannelStatus, GroupAccountCounts, Label,
  MaintenanceAdjustment, MaintenanceNotice, MaintenancePolicy, Reason, name_or,
}

-- The only text of a list that is not empty, if there is exactly one; else the empty text.
abbrev only_text : List Text → Text
only_text [] = []
only_text (s ∷ ss) = if all (text_eq s) ss then s else []

abbrev model_in : List ℕ → ChannelProbe → List Text
model_in group_ids p = elim p.accounts [
  | none ↦ []
  | some group ↦ elim (strip p.channel.model) [
    | [] ↦ []
    | c ∷ s ↦ if elem group.group_id group_ids then (c ∷ s) ∷ [] else []
  ]
]

abbrev models_in : List ℕ → List ChannelProbe → List Text
models_in group_ids [] = []
models_in group_ids (p ∷ ps) = model_in group_ids p ++ models_in group_ids ps

-- `_unique_probe_model`
unfoldable pub unique_probe_model : List ChannelProbe → List ℕ → Text
unique_probe_model probes group_ids = only_text (models_in group_ids probes)

-- A group with a failing channel: its name in `failed_groups` and its probes in
-- `failed_group_probes`.
pub record FailedGroup : Type 0 where
  pub name : Text
  pub probes : List ChannelProbe

abbrev has_failed : ChannelStatus → Bool
has_failed ChannelStatus.failed = true
has_failed ChannelStatus.error = true
has_failed _ = false

abbrev probes_of : Option FailedGroup → List ChannelProbe
probes_of none = []
probes_of (some f) = f.probes

-- One round of the first loop.
abbrev note_probe :
    List ℕ
    → ChannelProbe
    → Dict FailedGroup × List MaintenanceNotice
    → Dict FailedGroup × List MaintenanceNotice
note_probe known p (groups, notices) =
    if not (has_failed p.channel.status) then (groups, notices) else elim p.accounts [
      | none ↦ (groups, notices ++ MaintenanceNotice.unmapped_channel p.channel.name ∷ [])
      | some group ↦
          if not (elem group.group_id known)
          then (groups, notices ++ MaintenanceNotice.unknown_group group.group_id group.name ∷ [])
          else let failed : FailedGroup = record {
            name = group.name;
            probes = probes_of (get group.group_id groups) ++ p ∷ [];
          } in
            (put group.group_id failed groups, notices)
    ]

unfoldable pub note_probes :
    List ℕ
    → List ChannelProbe
    → Dict FailedGroup × List MaintenanceNotice
    → Dict FailedGroup × List MaintenanceNotice
note_probes known [] state = state
note_probes known (p ∷ ps) state = note_probes known ps (note_probe known p state)

abbrev pub is_off : AccountStatus → Bool
is_off AccountStatus.inactive = true
is_off AccountStatus.disabled = true
is_off _ = false

abbrev pub has_groups : List ℕ → Bool
has_groups [] = false
has_groups (g ∷ gs) = true

-- `_eligible`
unfoldable pub eligible : List ℕ → AccountGroupState → Bool
eligible adjusted a =
    has_groups a.group_ids
    && not a.expired
    && not (is_oauth_type a.account_type)
    && not (elem a.account_id adjusted)
    && not (is_off a.status)
    && not (is_active a.status && not a.schedulable)

abbrev pub group_keys : Dict FailedGroup → List ℕ
group_keys groups = map (λ e. e.0) groups

-- `set(account.group_ids) & failed_groups.keys()`
abbrev pub failed_memberships : List ℕ → AccountGroupState → List ℕ
failed_memberships failed a = keep_if (λ g. elem g failed) a.group_ids

abbrev by_id : AccountGroupState → AccountGroupState → Bool
by_id a b = leb a.account_id b.account_id

abbrev by_key : ℕ × FailedGroup → ℕ × FailedGroup → Bool
by_key a b = leb a.0 b.0

abbrev probes_in : Dict FailedGroup → List ℕ → List ChannelProbe
probes_in groups [] = []
probes_in groups (g ∷ gs) = probes_of (get g groups) ++ probes_in groups gs

-- A result for another account, or one that both succeeds and fails, is no result.
abbrev pub checked : ℕ → AccountTestResult → AccountTestResult
checked id r =
    if not (r.account_id == id) || (r.success && r.definitive_failure)
    then record { account_id = id; success = false; definitive_failure = false }
    else r

-- The entry of `test_results` for a candidate.
unfoldable pub test_account :
    (ℕ → Text → AccountTestResult) → Dict FailedGroup → AccountGroupState → AccountTestResult
test_account answer groups a =
    let failed = failed_memberships (group_keys groups) a in
    checked a.account_id (answer a.account_id (unique_probe_model (probes_in groups failed) failed))

abbrev pub is_healthy : (AccountGroupState → AccountTestResult) → List AccountGroupState → ℕ → Bool
is_healthy tests candidates g = any (λ a. elem g a.group_ids && (tests a).success) candidates

abbrev unhealthy_notices : (ℕ → Bool) → Dict FailedGroup → List MaintenanceNotice
unhealthy_notices healthy [] = []
unhealthy_notices healthy (e ∷ es) =
    let rest = unhealthy_notices healthy es in
    if healthy e.0 then rest else MaintenanceNotice.no_healthy_account e.0 e.1.name ∷ rest

abbrev outside_notices : List ℕ → List AccountGroupState → List MaintenanceNotice
outside_notices known [] = []
outside_notices known (a ∷ accounts) =
    let rest = outside_notices known accounts in
    if subset a.group_ids known
    then rest
    else MaintenanceNotice.ambiguous_account a.account_id
        (name_or a.name (Label.numbered a.account_id))
      ∷ rest

-- Whether the last loop goes on to the adjustment of a candidate.
unfoldable pub condemned :
    List ℕ → (ℕ → Bool) → List ℕ → AccountTestResult → AccountGroupState → Bool
condemned failed healthy adjusted r a =
    let memberships = failed_memberships failed a in
    not r.success
    && r.definitive_failure
    && has_groups memberships
    && all healthy memberships
    && not (elem a.account_id adjusted)

abbrev pub sweep_adjustment : MaintenancePolicy → AccountGroupState → MaintenanceAdjustment
sweep_adjustment policy a = record {
  account_id = a.account_id;
  account_name = name_or a.name (Label.numbered a.account_id);
  reason = Reason.channel_test_failed;
  group_ids = a.group_ids;
  threshold_ms = policy.slow_first_token_ms;
  observed_count = 1;
  previous_status = a.status;
  previous_schedulable = a.schedulable;
}

-- The candidates before the tests: eligible, in a failed group, and in known and monitored groups.
unfoldable pub sweep_candidates :
    List ℕ → List ℕ → List ℕ → List ℕ → List AccountGroupState → List AccountGroupState
sweep_candidates failed known monitored adjusted accounts = sort_by by_id (
    keep_if (λ a. subset a.group_ids known && subset a.group_ids monitored)
      (keep_if (λ a. meets a.group_ids failed && eligible adjusted a) accounts))

-- The last loop: the adjustments and the notices, in the order of the candidates.
unfoldable pub condemn :
    MaintenancePolicy
    → List ℕ
    → (AccountGroupState → Bool)
    → List AccountGroupState
    → List MaintenanceAdjustment × List MaintenanceNotice
condemn policy known judged [] = ([], [])
condemn policy known judged (a ∷ rest) =
    let (adjustments, notices) = condemn policy known judged rest in
    if not (judged a)
    then (adjustments, notices)
    else if not (subset a.group_ids known)
    then (
      adjustments,
      MaintenanceNotice.ambiguous_account a.account_id
            (name_or a.name (Label.numbered a.account_id))
          ∷ notices,
    )
    else (sweep_adjustment policy a ∷ adjustments, notices)

-- Behind the limit: the tests, the health of the groups, and the last loop.
unfoldable pub judge_candidates :
    MaintenancePolicy
    → (ℕ → Text → AccountTestResult)
    → List ℕ
    → List ℕ
    → Dict FailedGroup
    → List AccountGroupState
    → List MaintenanceAdjustment × List MaintenanceNotice
judge_candidates policy answer known adjusted groups candidates =
    let tests = test_account answer groups in
    let healthy = is_healthy tests candidates in
    let judged : AccountGroupState → Bool =
      λ a. condemned (group_keys groups) healthy adjusted (tests a) a in
    let (adjustments, notices) = condemn policy known judged candidates in
    (adjustments, unhealthy_notices healthy (sort_by by_key groups) ++ notices)

-- `_ChannelAccountSweepService.run`
unfoldable pub sweep_run :
    MaintenancePolicy
    → (ℕ → Text → AccountTestResult)
    → List ChannelProbe
    → List AccountGroupState
    → List ℕ
    → List ℕ
    → List ℕ
    → List MaintenanceAdjustment × List MaintenanceNotice
sweep_run policy answer probes accounts adjusted known monitored =
    if not policy.channel_account_sweep_enabled
    then ([], [])
    else let (groups, mapping) = note_probes known probes ([], []) in
      let failed = group_keys groups in
      let pool = keep_if (λ a. meets a.group_ids failed && eligible adjusted a) accounts in
      let candidates = sweep_candidates failed known monitored adjusted accounts in
      let before = mapping ++ outside_notices known pool in
      if ltb policy.channel_account_sweep_max_accounts (length candidates)
      then (
        [],
        before
            ++ map (λ e. MaintenanceNotice.sweep_limit_reached e.0 e.1.name)
                (sort_by by_key groups),
      )
      else let (adjustments, notices) =
          judge_candidates policy answer known adjusted groups candidates in
        (adjustments, before ++ notices)
