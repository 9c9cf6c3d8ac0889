-- ===== src/Quarantine/Refinement.antt =====
-- The quarantine tables of src/sub2api_mcp/repository.py implement the stages, call for call.
use sub2_ddq.Prelude.{
  ℕ, ◌+◌, ◌-◌, true, get, if◌then◌else◌, ◌≡◌, refl, inl, inr, arith, Bool-cases, List, [], ◌∷◌, All,
}
use mathlib.Core.Path.{fun_ext}
use sub2_ddq.Guardian.Contracts.{Moment}
use sub2_ddq.Quarantine.Records.{is_valid_record, is_valid_intent, is_at_most, max_latency_ms}
use sub2_ddq.Quarantine.Probe.{Probe, is_never, update_account_quarantine_probe, probe_at}
use sub2_ddq.Quarantine.Stages.{
  Op, exec, account_of, account_step, run_ops, replay, step, accounts_of, stage_in, weight,
  update_stage, stage_probe,
}
use sub2_ddq.Quarantine.Sound.{IsSound, Simulates, unchanged}
use sub2_ddq.Quarantine.Entry.{upsert_sim, intend_sim, promote_sim, drop_sim}
use sub2_ddq.Quarantine.Restore.{begin_sim, complete_sim, cancel_sim, remove_sim, probe_sim}
use sub2_ddq.Quarantine.{
  Registry, Reply, QuarantineError, is_full, registry_count, upsert_account_quarantine,
  upsert_account_quarantine_intent, promote_account_quarantine_intent,
  begin_account_quarantine_restore, complete_account_quarantine_restore,
}

-- The arguments are those that the models of contracts.py let through, and a latency is one that
-- they can hold: at most 3,600,000 ms, which `update_account_quarantine_probe` does not ask for.
unfoldable pub IsAdmissible : Op → Type 0
IsAdmissible (Op.upsert r) = is_valid_record r ≡ true
IsAdmissible (Op.intend i) = is_valid_intent i ≡ true
IsAdmissible (Op.update_probe id p) = is_at_most max_latency_ms p.latency_ms ≡ true
IsAdmissible _ = Unit

module _ (g : Registry) (s : IsSound g) where
  update_sim :
      (id : ℕ) (p : Probe) (m : Moment)
      → is_at_most max_latency_ms p.latency_ms ≡ true
      → Simulates g id
          (if is_never p.outcome
            then (g, Reply.raised QuarantineError.value_error)
            else probe_at id p g m)
          (stage_probe p m (stage_in g id))
  update_sim id p (Moment.naive at) small = elim (Bool-cases (is_never p.outcome)) [
    | inl e ↦ rw e (unchanged g id _ _ s refl)
    | inr e ↦ rw e (unchanged g id _ _ s refl)
  ]
  update_sim id p (Moment.aware at) small = elim (Bool-cases (is_never p.outcome)) [
    | inl e ↦ rw e (unchanged g id _ _ s refl)
    | inr e ↦
        unfold stage_in in
        rw e (
          probe_sim g s id p e small at (get id g.quarantines) (get id g.intents)
            (get id g.restores) refl refl (s.fits id) refl)
  ]

  exec_sim :
      (op : Op)
      → IsAdmissible op
      → Simulates g
          (account_of op)
          (exec op g)
          (account_step op (is_full g) (stage_in g (account_of op)))
  unfolding IsAdmissible account_of exec account_step stage_in upsert_account_quarantine
      upsert_account_quarantine_intent promote_account_quarantine_intent
      begin_account_quarantine_restore complete_account_quarantine_restore
      update_account_quarantine_probe
  exec_sim (Op.upsert r) v =
      let id = r.account_id in
      upsert_sim g s r (get id g.quarantines) (get id g.intents) (get id g.restores) v refl refl
        (s.fits id) refl
  exec_sim (Op.intend i) v =
      let id = i.account_id in
      intend_sim g s i (get id g.quarantines) (get id g.intents) (get id g.restores) v refl refl
        (s.fits id) refl
  exec_sim (Op.promote id) v =
      promote_sim g s id (get id g.quarantines) (get id g.intents) (get id g.restores) refl
        (s.fits id) refl
  exec_sim (Op.drop id) v =
      drop_sim g s id (get id g.quarantines) (get id g.intents) (get id g.restores) refl refl refl
        (s.fits id) refl
  exec_sim (Op.complete id) v =
      complete_sim g s id (get id g.quarantines) (get id g.intents) (get id g.restores) refl
        (s.fits id) refl
  exec_sim (Op.cancel id) v =
      cancel_sim g s id (get id g.quarantines) (get id g.intents) (get id g.restores) refl refl refl
        (s.fits id) refl
  exec_sim (Op.remove_verified id) v =
      remove_sim g s id (get id g.quarantines) (get id g.intents) (get id g.restores) refl refl
        (s.fits id) refl
  exec_sim (Op.begin id now) v =
      begin_sim g s id now (get id g.quarantines) (get id g.intents) (get id g.restores) refl refl
        (s.fits id) refl
  exec_sim (Op.update_probe id p) v = update_sim id p p.probed_at v

  -- One call, as a step of the accounts.
  step-exec :
      (op : Op)
      → IsAdmissible op
      → step op (accounts_of g) ≡ (accounts_of (exec op g).0, (exec op g).1)
  unfolding step accounts_of is_full
  step-exec op v =
      let m = exec_sim op v in
      let target = account_step op (is_full g) (stage_in g (account_of op)) in
      let stages : stage_in (exec op g).0 ≡ update_stage (account_of op) target.0 (stage_in g) =
        fun_ext (λ j. m.stages j) in
      let size : registry_count g + weight target.0 - weight (stage_in g (account_of op))
          ≡ registry_count (exec op g).0 =
        omega (arith, m.counted) in
      rw (stages, size, m.answered) refl

-- From a sound registry, every sequence of calls whose records and intents are valid and whose
-- probes measure at most 3,600,000 ms keeps it sound, answers each call as the stages do, and ends
-- in a registry whose accounts and whose count are those that the stages reach. In a sound registry an account has a pending intent or a quarantine, never both, a restore intent
-- only beside a quarantine, every row can be read, and quarantines and pending intents are at most
-- 10,000 together.
pub run_ops_refines :
    (ops : List Op) (g : Registry)
    → IsSound g
    → All IsAdmissible ops
    → IsSound (run_ops ops g).0
      × (replay ops (accounts_of g) ≡ (accounts_of (run_ops ops g).0, (run_ops ops g).1))
unfolding run_ops replay
run_ops_refines [] g s a = (s, refl)
run_ops_refines (op ∷ ops) g s a =
    let (sound, same) = run_ops_refines ops (exec op g).0 (exec_sim g s op a.0).sound a.1 in
    (sound, rw (step-exec g s op a.0, same) refl)
