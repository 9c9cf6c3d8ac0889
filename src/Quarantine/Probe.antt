-- ===== src/Quarantine/Probe.antt =====
-- `update_account_quarantine_probe` of src/sub2api_mcp/repository.py: what a probe writes.
use sub2_ddq.Prelude.{
  ℕ, ◌+◌, Bool, true, false, ◌&&◌, Option, none, some, get, put, is_some, leb, ◌==◌, if◌then◌else◌,
}
use sub2_ddq.Guardian.Contracts.{Moment, seconds}
use sub2_ddq.Quarantine.Records.{
  AccountQuarantineRecord, QuarantineProbeResult, is_slow_first_token, is_within,
}
use sub2_ddq.Quarantine.{Registry, Reply, QuarantineError, quarantine_from_row}

-- A finished probe; a latency is a number, so the test for a negative one never fails.
pub record Probe : Type 0 where
  pub probed_at : Moment
  pub latency_ms : Option ℕ
  pub outcome : QuarantineProbeResult

-- Never before the last probe, nor at its time.
unfoldable pub effective_probed_at : ℕ → Option ℕ → ℕ
effective_probed_at at none = at
effective_probed_at at (some previous) = if leb at previous then previous + seconds 1 else at

-- The new streak, or none where the code raises.
abbrev pub success_streak : AccountQuarantineRecord → Option ℕ → QuarantineProbeResult → Option ℕ
success_streak r latency QuarantineProbeResult.passing =
    if is_slow_first_token r.reason
      && is_within r.threshold_ms latency
      && r.recovery_success_streak == 0
    then some 1
    else none
success_streak r latency QuarantineProbeResult.slow = if is_some latency then some 0 else none
success_streak r latency QuarantineProbeResult.never = some 0
success_streak r latency QuarantineProbeResult.recovered = some 0
success_streak r latency QuarantineProbeResult.failed = some 0
success_streak r latency QuarantineProbeResult.invalid = some 0

abbrev pub is_never : QuarantineProbeResult → Bool
is_never QuarantineProbeResult.never = true
is_never _ = false

-- The row after `UPDATE account_quarantines SET ...`.
unfoldable pub probed_row : ℕ → Probe → ℕ → AccountQuarantineRecord → AccountQuarantineRecord
probed_row at p streak r = record r {
  last_probe_at = some (effective_probed_at at r.last_probe_at);
  last_probe_latency_ms = p.latency_ms;
  last_probe_result = p.outcome;
  recovery_success_streak = streak;
}

-- The row that a probe leaves, or the error.
unfoldable pub probe_row : ℕ → Probe → AccountQuarantineRecord → Option AccountQuarantineRecord
probe_row at p r = elim (success_streak r p.latency_ms p.outcome) [
  | none ↦ none
  | some streak ↦ some (probed_row at p streak r)
]

abbrev pub store_probe : ℕ → Registry → Option AccountQuarantineRecord → Registry × Reply
store_probe id g none = (g, Reply.raised QuarantineError.value_error)
store_probe id g (some row) =
    (record g { quarantines = put id row g.quarantines }, quarantine_from_row row)

abbrev pub probe_found :
    ℕ → ℕ → Probe → Registry → Option AccountQuarantineRecord → Registry × Reply
probe_found id at p g none = (g, Reply.raised QuarantineError.not_found)
probe_found id at p g (some r) = store_probe id g (probe_row at p r)

abbrev pub probe_at : ℕ → Probe → Registry → Moment → Registry × Reply
probe_at id p g (Moment.naive at) = (g, Reply.raised QuarantineError.value_error)
probe_at id p g (Moment.aware at) = probe_found id at p g (get id g.quarantines)

-- `update_account_quarantine_probe`. The row is read back after the commit.
unfoldable pub update_account_quarantine_probe : ℕ → Probe → Registry → Registry × Reply
update_account_quarantine_probe id p g =
    if is_never p.outcome
    then (g, Reply.raised QuarantineError.value_error)
    else probe_at id p g p.probed_at
