-- ===== src/Guardian/ProbeBudget.antt =====
-- src/sub2api_mcp/guardian/recovery.py: which fused channels get a recovery probe. The argument
-- `hourly` is `hourly_requests_by_channel.get(channel_id, 0)`.
pub mod Bounds
mod Examples
use sub2_ddq.Prelude.{
  ℕ, ◌+◌, ◌-◌, min, Bool, true, false, not, ◌||◌, Option, none, some, List, [], ◌∷◌, Text, text_leb,
  ltb, leb, if◌then◌else◌, take, sort_by,
}
use sub2_ddq.Guardian.Contracts.{
  Moment, GuardianFieldOwner, ManualControl, RecoveryProbeBudgetPolicy, RecoveryProbeCandidate,
  seconds, is_fused,
}

pub data BlockReason : Type 0 where
  not_fused human_control ambiguous_mapping probe_interval hourly_budget : BlockReason

-- `blocked_counts`; a key that the dictionary lacks counts 0.
pub record BlockedCounts : Type 0 where
  pub not_fused : ℕ
  pub human_control : ℕ
  pub ambiguous_mapping : ℕ
  pub probe_interval : ℕ
  pub hourly_budget : ℕ

pub data GlobalBlock : Type 0 where
  disabled daily_requests_exhausted daily_tokens_exhausted : GlobalBlock

pub record RecoveryProbeSelection : Type 0 where
  pub selected_channel_ids : List Text
  pub blocked_counts : BlockedCounts
  pub global_block_reason : Option GlobalBlock

pub data SelectionResult : Type 0 where
  selection : RecoveryProbeSelection → SelectionResult
  naive_now : SelectionResult

abbrev pub no_blocks : BlockedCounts
no_blocks = record {
  not_fused = 0;
  human_control = 0;
  ambiguous_mapping = 0;
  probe_interval = 0;
  hourly_budget = 0;
}

abbrev pub is_none : ManualControl → Bool
is_none ManualControl.none = true
is_none _ = false

abbrev pub owned_by_guardian : GuardianFieldOwner → Bool
owned_by_guardian GuardianFieldOwner.guardian = true
owned_by_guardian _ = false

abbrev pub within : ℕ → ℕ → Option ℕ → Bool
within now interval none = false
within now interval (some t) = ltb now (t + seconds interval)

module _ (policy : RecoveryProbeBudgetPolicy) (now : ℕ) (hourly : Text → ℕ) where
  -- The tests of the loop body; `none` lets the candidate through.
  unfoldable pub blocked_by : RecoveryProbeCandidate → Option BlockReason
  blocked_by c =
      if not (is_fused c.health)
      then some BlockReason.not_fused
      else if not (is_none c.manual_control) || not (owned_by_guardian c.fuse_owner)
      then some BlockReason.human_control
      else if not c.uniquely_mapped
      then some BlockReason.ambiguous_mapping
      else if within now policy.interval_seconds c.last_probe_at
      then some BlockReason.probe_interval
      else if leb policy.per_channel_hourly_requests (hourly c.channel_id)
      then some BlockReason.hourly_budget
      else none

abbrev pub bump : BlockReason → BlockedCounts → BlockedCounts
bump BlockReason.not_fused b = record b { not_fused = b.not_fused + 1 }
bump BlockReason.human_control b = record b { human_control = b.human_control + 1 }
bump BlockReason.ambiguous_mapping b = record b { ambiguous_mapping = b.ambiguous_mapping + 1 }
bump BlockReason.probe_interval b = record b { probe_interval = b.probe_interval + 1 }
bump BlockReason.hourly_budget b = record b { hourly_budget = b.hourly_budget + 1 }

module _ (policy : RecoveryProbeBudgetPolicy) (now : ℕ) (hourly : Text → ℕ) where
  -- The loop, over the candidates in order: the counter and the eligible IDs.
  unfoldable pub screen : List RecoveryProbeCandidate → BlockedCounts × List Text
  screen [] = (no_blocks, [])
  screen (c ∷ cs) =
      let (b, ids) = screen cs in
      elim (blocked_by policy now hourly c) [
        | none ↦ (b, c.channel_id ∷ ids)
        | some r ↦ (bump r b, ids)
      ]

abbrev pub by_channel_id : RecoveryProbeCandidate → RecoveryProbeCandidate → Bool
by_channel_id c d = text_leb c.channel_id d.channel_id

abbrev blocked_selection : GlobalBlock → SelectionResult
blocked_selection r =
    SelectionResult.selection (record {
      selected_channel_ids = [];
      blocked_counts = no_blocks;
      global_block_reason = some r;
    })

-- `select_recovery_probe_candidates`
unfoldable pub select_recovery_probe_candidates :
    List RecoveryProbeCandidate
    → Moment
    → RecoveryProbeBudgetPolicy
    → ℕ
    → ℕ
    → (Text → ℕ)
    → SelectionResult
select_recovery_probe_candidates candidates (Moment.naive t) policy requests tokens hourly =
    SelectionResult.naive_now
select_recovery_probe_candidates candidates (Moment.aware now) policy requests tokens hourly =
    if not policy.enabled
    then blocked_selection GlobalBlock.disabled
    else if leb policy.daily_requests requests
    then blocked_selection GlobalBlock.daily_requests_exhausted
    else if leb policy.daily_tokens tokens
    then blocked_selection GlobalBlock.daily_tokens_exhausted
    else let (blocked, eligible) = screen policy now hourly (sort_by by_channel_id candidates) in
      let limit = min policy.concurrency (policy.daily_requests - requests) in
      SelectionResult.selection (record {
        selected_channel_ids = take limit eligible;
        blocked_counts = blocked;
        global_block_reason = none;
      })
