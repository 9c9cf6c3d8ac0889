-- ===== src/Quarantine/ProbeLaws.antt =====
-- What `update_account_quarantine_probe` of src/sub2api_mcp/repository.py writes to a row.
use sub2_ddq.Prelude.{ℕ, true, false, Option, some, leb, ◌≡◌, inl, inr, arith, Option-cases}
use sub2_ddq.Quarantine.Records.{
  AccountQuarantineRecord, QuarantineProbeResult, is_valid_record, are_valid_probe_fields,
  is_at_most, max_latency_ms, is_valid_intent, AccountQuarantineIntent,
}
use sub2_ddq.Quarantine.{marker_of}
use sub2_ddq.Quarantine.Probe.{
  Probe, probe_row, probed_row, success_streak, effective_probed_at, is_never,
}

-- A promoted intent can be read.
pub marker_of_valid :
    (i : AccountQuarantineIntent) → is_valid_intent i ≡ true → is_valid_record (marker_of i) ≡ true
unfolding is_valid_intent is_valid_record marker_of
marker_of_valid i h = ground arith

-- The probe columns that a probe writes pass the validator.
probe_fields_valid :
    (r : AccountQuarantineRecord) (latency : Option ℕ) (outcome : QuarantineProbeResult)
    (at streak : ℕ)
    → is_never outcome ≡ false
    → success_streak r latency outcome ≡ some streak
    → are_valid_probe_fields outcome r.reason r.threshold_ms (some at) latency streak ≡ true
probe_fields_valid r latency QuarantineProbeResult.never at streak n h = cc
probe_fields_valid r latency QuarantineProbeResult.passing at streak n h = ground arith
probe_fields_valid r latency QuarantineProbeResult.recovered at streak n h = ground arith
probe_fields_valid r latency QuarantineProbeResult.failed at streak n h = ground arith
probe_fields_valid r latency QuarantineProbeResult.slow at streak n h = ground arith
probe_fields_valid r latency QuarantineProbeResult.invalid at streak n h = ground arith

streak_small :
    (r : AccountQuarantineRecord) (latency : Option ℕ) (outcome : QuarantineProbeResult)
    (streak : ℕ)
    → success_streak r latency outcome ≡ some streak
    → leb streak 1 ≡ true
streak_small r latency QuarantineProbeResult.never streak h = ground arith
streak_small r latency QuarantineProbeResult.passing streak h = ground arith
streak_small r latency QuarantineProbeResult.recovered streak h = ground arith
streak_small r latency QuarantineProbeResult.failed streak h = ground arith
streak_small r latency QuarantineProbeResult.slow streak h = ground arith
streak_small r latency QuarantineProbeResult.invalid streak h = ground arith

module _ (at : ℕ) (p : Probe) (r row : AccountQuarantineRecord)
    (e : probe_row at p r ≡ some row) where
  -- A row that a probe leaves comes of a streak that the code accepts.
  pub probe_row_inv :
      (streak : ℕ) × (success_streak r p.latency_ms p.outcome ≡ some streak)
      × (row ≡ probed_row at p streak r)
  unfolding probe_row
  probe_row_inv = elim (Option-cases (success_streak r p.latency_ms p.outcome)) [
    | inl none_e ↦ ground (arith, none_e, e)
    | inr (streak, some_e) ↦ (streak, some_e, ground (arith, some_e, e))
  ]

  -- A probe of a readable row whose latency is in range leaves a readable row of the same account.
  pub probe_row_valid :
      is_never p.outcome ≡ false
      → is_at_most max_latency_ms p.latency_ms ≡ true
      → is_valid_record r ≡ true
      → (is_valid_record row ≡ true) × (row.account_id ≡ r.account_id)
  unfolding is_valid_record probed_row
  probe_row_valid n small v =
      let (streak, s, w) = probe_row_inv in
      let at' = effective_probed_at at r.last_probe_at in
      rw w (
        ground (
          arith,
          probe_fields_valid r p.latency_ms p.outcome at' streak n s,
          streak_small r p.latency_ms p.outcome streak s,
        ))
