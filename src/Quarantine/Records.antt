-- ===== src/Quarantine/Records.antt =====
-- The records of src/sub2api_mcp/contracts.py that the account quarantine tables hold, with their
-- validators. A column that no operation reads (`updated_at`) is left out; identifiers are the
-- numbers that their digits spell, and times are microseconds.
use sub2_ddq.Prelude.{
  ℕ, ◌^◌, Bool, true, false, ◌&&◌, not, Option, none, some, List, [], ◌∷◌, ltb, leb, ◌==◌, length,
  all, is_some,
}

pub data AccountQuarantineReason : Type 0 where
  slow_first_token channel_test_failed : AccountQuarantineReason

pub data QuarantineProbeResult : Type 0 where
  never passing recovered failed slow invalid : QuarantineProbeResult

pub record AccountQuarantineRecord : Type 0 where
  pub account_id : ℕ
  pub reason : AccountQuarantineReason
  pub group_ids : List ℕ
  pub threshold_ms : ℕ
  pub observed_count : ℕ
  pub quarantined_at : ℕ
  pub last_probe_at : Option ℕ
  pub last_probe_latency_ms : Option ℕ
  pub last_probe_result : QuarantineProbeResult
  pub recovery_success_streak : ℕ

pub data PreviousStatus : Type 0 where
  active error : PreviousStatus

pub record AccountQuarantineIntent : Type 0 where
  pub account_id : ℕ
  pub reason : AccountQuarantineReason
  pub group_ids : List ℕ
  pub threshold_ms : ℕ
  pub observed_count : ℕ
  pub previous_status : PreviousStatus
  pub previous_schedulable : Bool
  pub created_at : ℕ

abbrev pub max_latency_ms : ℕ
max_latency_ms = 3600000

-- `^[1-9][0-9]{0,19}$`
unfoldable pub is_identifier : ℕ → Bool
is_identifier n = ltb 0 n && ltb n (10 ^ 20)

-- `tuple(sorted(set(value), key=int)) == value`
unfoldable pub is_ascending : List ℕ → Bool
is_ascending [] = true
is_ascending (x ∷ []) = true
is_ascending (x ∷ y ∷ rest) = let next = is_ascending (y ∷ rest) in ltb x y && next

-- The fields that a record and an intent share.
unfoldable pub are_valid_fields : ℕ → List ℕ → ℕ → ℕ → Bool
are_valid_fields account_id group_ids threshold_ms observed_count =
    is_identifier account_id
    && (leb 1 (length group_ids) && leb (length group_ids) 100)
    && (all is_identifier group_ids && is_ascending group_ids)
    && (leb 1 threshold_ms && leb threshold_ms max_latency_ms)
    && (leb 1 observed_count && leb observed_count 1000000)

abbrev pub is_at_most : ℕ → Option ℕ → Bool
is_at_most limit none = true
is_at_most limit (some n) = leb n limit

-- A measured latency within the limit.
abbrev pub is_within : ℕ → Option ℕ → Bool
is_within limit none = false
is_within limit (some n) = leb n limit

abbrev pub is_slow_first_token : AccountQuarantineReason → Bool
is_slow_first_token AccountQuarantineReason.slow_first_token = true
is_slow_first_token AccountQuarantineReason.channel_test_failed = false

-- `AccountQuarantineRecord.validate_probe_fields`
abbrev pub are_valid_probe_fields :
    QuarantineProbeResult → AccountQuarantineReason → ℕ → Option ℕ → Option ℕ → ℕ → Bool
are_valid_probe_fields QuarantineProbeResult.never reason threshold at latency streak =
    not (is_some at) && not (is_some latency) && streak == 0
are_valid_probe_fields QuarantineProbeResult.passing reason threshold at latency streak =
    is_some at && (is_slow_first_token reason && streak == 1 && is_within threshold latency)
are_valid_probe_fields QuarantineProbeResult.slow reason threshold at latency streak =
    is_some at && is_some latency && streak == 0
are_valid_probe_fields QuarantineProbeResult.recovered reason threshold at latency streak =
    is_some at && streak == 0
are_valid_probe_fields QuarantineProbeResult.failed reason threshold at latency streak =
    is_some at && streak == 0
are_valid_probe_fields QuarantineProbeResult.invalid reason threshold at latency streak =
    is_some at && streak == 0

-- What `AccountQuarantineRecord.model_validate` accepts.
unfoldable pub is_valid_record : AccountQuarantineRecord → Bool
is_valid_record r =
    are_valid_fields r.account_id r.group_ids r.threshold_ms r.observed_count
    && (is_at_most max_latency_ms r.last_probe_latency_ms && leb r.recovery_success_streak 1)
    && are_valid_probe_fields r.last_probe_result r.reason r.threshold_ms r.last_probe_at
        r.last_probe_latency_ms r.recovery_success_streak

-- What `AccountQuarantineIntent.model_validate` accepts.
unfoldable pub is_valid_intent : AccountQuarantineIntent → Bool
is_valid_intent i = are_valid_fields i.account_id i.group_ids i.threshold_ms i.observed_count
