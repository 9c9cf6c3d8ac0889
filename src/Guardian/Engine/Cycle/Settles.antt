-- ===== src/Guardian/Engine/Cycle/Settles.antt =====
-- A cycle of src/sub2api_mcp/guardian/engine.py gives back what it takes.
use sub2_ddq.Prelude.{
  ℕ, ◌+◌, ◌-◌, true, false, ◌&&◌, Option, none, some, List, [], ◌∷◌, Text, text_eq, Dict, get, put,
  get-put, is_some, max, ◌≡◌, refl, sym, subst, ap, ◌∙◌, inl, inr, arith, Bool-cases, sort_by,
  keep_if,
}
use sub2_ddq.Guardian.Contracts.{seconds}
use sub2_ddq.Storage.Leases.{Lease, acquire_lease, acquire_read, is_held, release_lease}
use sub2_ddq.Storage.Snapshots.{
  Snapshot, supersede_expired_input_snapshots, claim_input_snapshot, consume_input_snapshot,
  release_input_snapshot, is_open, supersede_but, claim_row, update_where, first_row, newest_first,
  capture_order, is_claimable, claimed_by,
}
use sub2_ddq.Guardian.Engine.Cycle.{
  Cycle, CycleState, Run, RunStatus, RunError, Evaluation, is_running, run_key, existing_run,
  is_taken, finish_run, finish_found, with_runs, release_claim, fail_cycle, finish_cycle,
  after_evaluation, with_claim, leased_cycle, created_cycle, run_once, lease_seconds,
}
use sub2_ddq.Guardian.Engine.Cycle.Claims.{
  owns_lease, claims_at_most, has_ended, releases_claim, consumes, weaker, supersedes, claims_row,
  ended_after, releases,
}

module _ (c : Cycle) where
  -- What a cycle leaves of its own, apart from the lease.
  abbrev pub CleanedUp : CycleState → Type 0
  CleanedUp s =
      (claims_at_most c.owner none s.snapshots ≡ true) × (has_ended (get c.run_id s.runs) ≡ true)

  -- What the block behind the lease keeps until its end.
  abbrev pub Holds : Option Text → CycleState → Type 0
  Holds claim s =
      (claims_at_most c.owner claim s.snapshots ≡ true) × (is_some (get c.run_id s.runs) ≡ true)

  fails_found :
      (claim : Option Text) (s : CycleState) (r : Option Run)
      → get c.run_id s.runs ≡ r
      → Holds claim s
      → CleanedUp (
          with_runs
            (record s { snapshots = release_claim c.owner claim s.snapshots })
            (finish_found c.run_id RunStatus.failed (some RunError.guardian_run_failed) s.runs r))
  fails_found claim s none e h = absurd (ground (arith, e, h.1))
  fails_found claim s (some r) e h = elim (Bool-cases (is_running r.status)) [
    | inl run ↦ rw run (
      releases_claim c.owner claim s.snapshots h.0,
      ended_after c.run_id RunStatus.failed (some RunError.guardian_run_failed) s.runs r refl,
    )
    | inr over ↦ rw over (releases_claim c.owner claim s.snapshots h.0, rw (e, over) refl)
  ]

  fails :
      (claim : Option Text) (s : CycleState) → Holds claim s → CleanedUp (fail_cycle c claim s).0
  unfolding finish_run
  fails claim s h = fails_found claim s (get c.run_id s.runs) refl h

  finishes_found :
      (claim : Option Text) (status : RunStatus) (error : Option RunError) (s : CycleState)
      (r : Option Run)
      → get c.run_id s.runs ≡ r
      → is_running status ≡ false
      → claims_at_most c.owner none s.snapshots ≡ true
      → is_some (get c.run_id s.runs) ≡ true
      → CleanedUp (finish_cycle c claim status s (finish_found c.run_id status error s.runs r)).0
  finishes_found claim status error s none e k h there = absurd (ground (arith, e, there))
  finishes_found claim status error s (some r) e k h there =
      elim (Bool-cases (is_running r.status)) [
        | inl run ↦ rw run (h, ended_after c.run_id status error s.runs r k)
        | inr over ↦ rw over (fails claim s (weaker c.owner claim s.snapshots h, there))
      ]

  finishes :
      (claim : Option Text) (status : RunStatus) (error : Option RunError) (s : CycleState)
      → is_running status ≡ false
      → Holds none s
      → CleanedUp (finish_cycle c claim status s (finish_run c.run_id status error s.runs)).0
  unfolding finish_run
  finishes claim status error s k h =
      finishes_found claim status error s (get c.run_id s.runs) refl k h.0 h.1

  evaluation_ends :
      (claim : Option Text) (outcome : Evaluation) (s : CycleState)
      → Holds claim s
      → CleanedUp (after_evaluation c claim outcome s).0
  evaluation_ends claim Evaluation.raised s h = fails claim s h
  evaluation_ends none Evaluation.cancelled s h = finishes none RunStatus.cancelled none s refl h
  evaluation_ends (some id) Evaluation.cancelled s h =
      finishes none RunStatus.cancelled none
        (record s { snapshots = release_input_snapshot id c.owner s.snapshots }) refl
        (releases c.owner id s.snapshots h.0, h.1)
  evaluation_ends none Evaluation.evaluated s h = finishes none RunStatus.succeeded none s refl h
  evaluation_ends (some id) Evaluation.evaluated s h =
      let rest = (consume_input_snapshot id c.owner c.now s.snapshots).0 in
      let clean = consumes c.owner id c.now s.snapshots h.0 in
      elim (Bool-cases (consume_input_snapshot id c.owner c.now s.snapshots).1) [
        | inl done ↦ rw done (
            finishes (some id) RunStatus.succeeded none (record s { snapshots = rest }) refl
              (clean, h.1))
        | inr lost ↦ rw lost (
            fails (some id) (record s { snapshots = rest })
              (weaker c.owner (some id) rest clean, h.1))
      ]

  not_owned : (l : Option Lease) → owns_lease c.owner (release_lease c.owner l) ≡ false
  unfolding release_lease
  not_owned none = refl
  not_owned (some l) = ground arith

  refused_not_owned :
      (l : Option Lease) (now : ℕ) → is_held l c.owner now ≡ true → owns_lease c.owner l ≡ false
  unfolding is_held
  refused_not_owned none now h = refl
  refused_not_owned (some l) now h = ground arith

  module _
      (others : (claim : Option Text) (s : CycleState)
        → Holds claim s
        → Holds claim (c.meanwhile s)) where
    claim_ends :
        (s : CycleState) (rows : List Snapshot) (found : Option Snapshot)
        → claims_at_most c.owner none rows ≡ true
        → is_some (get c.run_id s.runs) ≡ true
        → CleanedUp
            (with_claim c s
              (claim_row c.owner (c.now + seconds (max 1 (lease_seconds c))) rows found)).0
    claim_ends s rows none h there =
        finishes none RunStatus.succeeded none (record s { snapshots = rows }) refl (h, there)
    claim_ends s rows (some r) h there =
        let expires = c.now + seconds (max 1 (lease_seconds c)) in
        let claimed =
          update_where (λ x. text_eq x.snapshot_id r.snapshot_id && is_open x)
            (claimed_by c.owner expires) rows in
        evaluation_ends (some r.snapshot_id) c.evaluation
          (c.meanwhile (record s { snapshots = claimed }))
          (others (some r.snapshot_id) (record s { snapshots = claimed })
            (claims_row c.owner r.snapshot_id expires rows h, there))

    leased_ends : (s : CycleState) → Holds none s → CleanedUp (leased_cycle c s).0
    unfolding claim_input_snapshot supersede_expired_input_snapshots
    leased_ends s h = elim (Bool-cases c.shared_sampling) [
      | inl shared ↦
          let cutoff = c.now - seconds c.expire_seconds in
          let rows =
            supersede_but c.now cutoff s.snapshots
              (first_row (sort_by newest_first (keep_if is_open s.snapshots))) in
          rw shared (
            claim_ends s rows.0
              (first_row (sort_by capture_order (keep_if (is_claimable c.visible c.now) rows.0)))
              (supersedes c.owner c.now cutoff s.snapshots
                (first_row (sort_by newest_first (keep_if is_open s.snapshots))) h.0)
              h.1)
      | inr direct ↦ rw direct (evaluation_ends none c.evaluation (c.meanwhile s) (others none s h))
    ]

    with_runs_lease :
        (s : CycleState) (runs : Option (Dict Run)) → (with_runs s runs).lease ≡ s.lease
    with_runs_lease s none = refl
    with_runs_lease s (some runs) = refl

    finish_cycle_lease :
        (claim : Option Text) (status : RunStatus) (s : CycleState) (runs : Option (Dict Run))
        → (finish_cycle c claim status s runs).0.lease ≡ s.lease
    finish_cycle_lease claim status s none = with_runs_lease _ _
    finish_cycle_lease claim status s (some runs) = refl

    created_ends :
        (s : CycleState)
        → claims_at_most c.owner none s.snapshots ≡ true
        → (owns_lease c.owner (created_cycle c s).0.lease ≡ false) × CleanedUp (created_cycle c s).0
    unfolding acquire_lease acquire_read
    created_ends s h =
        let r : Run = record {
          idempotency_key = run_key c.key;
          dry_run = c.dry_run;
          status = RunStatus.running;
          error_code = none;
        } in
        let t : CycleState = record s { runs = put c.run_id r s.runs } in
        let there : is_some (get c.run_id t.runs) ≡ true = rw (get-put c.run_id r s.runs) refl in
        elim (Bool-cases (is_held s.lease c.owner c.now)) [
          | inl held ↦ rw held (
            ap (owns_lease c.owner) (finish_cycle_lease none RunStatus.failed t _)
                ∙ refused_not_owned s.lease c.now held,
            finishes none RunStatus.failed (some RunError.guardian_busy) t refl (h, there),
          )
          | inr free ↦ rw free (not_owned _, leased_ends _ (h, there))
        ]

    no_existing :
        (key : Option Text) (runs : Dict Run)
        → is_taken key runs ≡ false
        → existing_run key runs ≡ none
    unfolding existing_run is_taken
    no_existing none runs h = refl
    no_existing (some []) runs h = refl
    no_existing (some (x ∷ key)) runs h = ground (arith, h)

    creates :
        (s : CycleState)
        → is_taken (run_key c.key) s.runs ≡ false
        → run_once c s ≡ created_cycle c s
    unfolding run_once
    creates s new = ground (arith, no_existing (run_key c.key) s.runs new, new)

    -- A cycle whose key is that of no run ends with its run in a final status, without the lease, and
    -- with no open snapshot in its claim, whether it evaluates, is cancelled, raises, finds no
    -- snapshot or finds the lease taken. It is assumed that no snapshot is in the name of the
    -- cycle's owner before, and that what others do in the meantime makes no claim in that name
    -- and deletes no run; they may take the lease, the claim, or end the run.
    pub run_once_settles :
        (s : CycleState)
        → is_taken (run_key c.key) s.runs ≡ false
        → claims_at_most c.owner none s.snapshots ≡ true
        → (owns_lease c.owner (run_once c s).0.lease ≡ false) × CleanedUp (run_once c s).0
    run_once_settles s new h =
        subst (λ x. (owns_lease c.owner x.0.lease ≡ false) × CleanedUp x.0) (sym (creates s new))
          (created_ends s h)
