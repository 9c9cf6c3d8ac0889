-- ===== src/Quarantine/Restore.antt =====
-- The restore intents, the probes and the deletions of src/sub2api_mcp/repository.py do what the
-- stages say.
use sub2_ddq.Prelude.{
  ℕ, ◌≤◌, true, false, Option, none, some, get, put, remove, ◌≡◌, refl, arith, ◌∙◌,
}
use sub2_ddq.Quarantine.Records.{
  AccountQuarantineRecord, AccountQuarantineIntent, is_at_most, max_latency_ms,
}
use sub2_ddq.Quarantine.Probe.{Probe, probe_row, is_never, probe_found, store_probe}
use sub2_ddq.Quarantine.ProbeLaws.{probe_row_valid}
use sub2_ddq.Quarantine.Stages.{
  Stage, stage_of, stage_in, weight, stage_complete, stage_cancel, stage_remove, stage_begin,
  stage_probe_at, stage_probed,
}
use sub2_ddq.Quarantine.Sound.{
  IsFit, IsSound, Simulates, Written-kept, Written-put, Written-remove, written_smaller, unchanged,
}
use sub2_ddq.Quarantine.Entry.{readable}
use sub2_ddq.Quarantine.{
  Registry, Reply, delete_quarantine, begin_restore_found, complete_restore_found,
  cancel_account_quarantine_restore, remove_verified_account_quarantine,
}

-- A quarantine counts as one account, whatever its row and its restore intent.
busy :
    (r row : AccountQuarantineRecord) (t u : Option ℕ)
    → weight (stage_of (some row) none u) ≤ weight (stage_of (some r) none t)
busy r row none none = omega arith
busy r row none (some at) = omega arith
busy r row (some at) none = omega arith
busy r row (some at) (some to) = omega arith

module _ (g : Registry) (s : IsSound g) (id : ℕ) where
  -- The restore intent is written, or taken away.
  with_restore :
      (r : AccountQuarantineRecord) (t : Option ℕ) (at : ℕ) (reply : Reply)
      → get id g.quarantines ≡ some r
      → get id g.intents ≡ none
      → IsFit id (some r) none t
      → stage_in g id ≡ stage_of (some r) none t
      → Simulates g id
          (record g { restores = put id at g.restores }, reply)
          (Stage.restoring r at, reply)
  unfolding IsFit
  with_restore r t at reply eq ei f st =
      written_smaller g (record g { restores = put id at g.restores }) id
        (Written-kept id g.quarantines (some r) s.unique_quarantines eq)
        (Written-kept id g.intents none s.unique_intents ei)
        (Written-put id at g.restores s.unique_restores) f s reply (rw st (busy r r t (some at)))

  without_restore :
      (q : Option AccountQuarantineRecord) (i : Option AccountQuarantineIntent) (reply : Reply)
      → get id g.quarantines ≡ q
      → get id g.intents ≡ i
      → IsFit id q i none
      → weight (stage_of q i none) ≤ weight (stage_in g id)
      → Simulates g id
          (record g { restores = remove id g.restores }, reply)
          (stage_of q i none, reply)
  without_restore q i reply eq ei f h =
      written_smaller g (record g { restores = remove id g.restores }) id
        (Written-kept id g.quarantines q s.unique_quarantines eq)
        (Written-kept id g.intents i s.unique_intents ei)
        (Written-remove id g.restores s.unique_restores) f s reply h

  deleted :
      (i : Option AccountQuarantineIntent) (reply : Reply)
      → get id g.intents ≡ i
      → IsFit id none i none
      → weight (stage_of none i none) ≤ weight (stage_in g id)
      → Simulates g id (delete_quarantine id g, reply) (stage_of none i none, reply)
  unfolding delete_quarantine
  deleted i reply ei f h =
      written_smaller g
        (record g { quarantines = remove id g.quarantines; restores = remove id g.restores }) id
        (Written-remove id g.quarantines s.unique_quarantines)
        (Written-kept id g.intents i s.unique_intents ei)
        (Written-remove id g.restores s.unique_restores) f s reply h

  pub begin_sim :
      (now : ℕ) (q : Option AccountQuarantineRecord) (i : Option AccountQuarantineIntent)
      (t : Option ℕ)
      → get id g.quarantines ≡ q
      → get id g.intents ≡ i
      → IsFit id q i t
      → stage_in g id ≡ stage_of q i t
      → Simulates g id (begin_restore_found id now g q t) (stage_begin now (stage_of q i t))
  unfolding IsFit
  begin_sim now none none none eq ei f st = unchanged g id _ _ s st
  begin_sim now none none (some at) eq ei f st = elim f [ ]
  begin_sim now none (some i) none eq ei f st = unchanged g id _ _ s st
  begin_sim now none (some i) (some at) eq ei f st = elim f [ ]
  begin_sim now (some r) (some i) t eq ei f st = elim f [ ]
  begin_sim now (some r) none none eq ei f st =
      with_restore r none now (Reply.restore now) eq ei f st
  begin_sim now (some r) none (some at) eq ei f st = unchanged g id _ _ s st

  pub complete_sim :
      (q : Option AccountQuarantineRecord) (i : Option AccountQuarantineIntent) (t : Option ℕ)
      → get id g.intents ≡ i
      → IsFit id q i t
      → stage_in g id ≡ stage_of q i t
      → Simulates g id (complete_restore_found id g t q) (stage_complete (stage_of q i t))
  unfolding IsFit
  complete_sim none none none ei f st = unchanged g id _ _ s st
  complete_sim none none (some at) ei f st = elim f [ ]
  complete_sim none (some i) none ei f st = unchanged g id _ _ s st
  complete_sim none (some i) (some at) ei f st = elim f [ ]
  complete_sim (some r) (some i) t ei f st = elim f [ ]
  complete_sim (some r) none none ei f st = unchanged g id _ _ s st
  complete_sim (some r) none (some at) ei f st =
      rw (readable r f.0, f.0) (deleted none (Reply.quarantine r) ei tt (omega arith))

  pub cancel_sim :
      (q : Option AccountQuarantineRecord) (i : Option AccountQuarantineIntent) (t : Option ℕ)
      → get id g.quarantines ≡ q
      → get id g.intents ≡ i
      → get id g.restores ≡ t
      → IsFit id q i t
      → stage_in g id ≡ stage_of q i t
      → Simulates g id (cancel_account_quarantine_restore id g) (stage_cancel (stage_of q i t))
  unfolding IsFit cancel_account_quarantine_restore
  cancel_sim none none none eq ei et f st =
      rw et (without_restore none none (Reply.removed false) eq ei f (omega arith))
  cancel_sim none none (some at) eq ei et f st = elim f [ ]
  cancel_sim none (some i) none eq ei et f st =
      rw et (without_restore none (some i) (Reply.removed false) eq ei f (rw st (omega arith)))
  cancel_sim none (some i) (some at) eq ei et f st = elim f [ ]
  cancel_sim (some r) (some i) t eq ei et f st = elim f [ ]
  cancel_sim (some r) none none eq ei et f st =
      rw et (without_restore (some r) none (Reply.removed false) eq ei f (rw st (omega arith)))
  cancel_sim (some r) none (some at) eq ei et f st =
      rw et (without_restore (some r) none (Reply.removed true) eq ei f (rw st (omega arith)))

  pub remove_sim :
      (q : Option AccountQuarantineRecord) (i : Option AccountQuarantineIntent) (t : Option ℕ)
      → get id g.quarantines ≡ q
      → get id g.intents ≡ i
      → IsFit id q i t
      → stage_in g id ≡ stage_of q i t
      → Simulates g id (remove_verified_account_quarantine id g) (stage_remove (stage_of q i t))
  unfolding IsFit remove_verified_account_quarantine
  remove_sim none none none eq ei f st =
      rw eq (deleted none (Reply.removed false) ei tt (omega arith))
  remove_sim none none (some at) eq ei f st = elim f [ ]
  remove_sim none (some i) none eq ei f st =
      rw eq (deleted (some i) (Reply.removed false) ei f (rw st (omega arith)))
  remove_sim none (some i) (some at) eq ei f st = elim f [ ]
  remove_sim (some r) (some i) t eq ei f st = elim f [ ]
  remove_sim (some r) none none eq ei f st =
      rw eq (deleted none (Reply.removed true) ei tt (omega arith))
  remove_sim (some r) none (some at) eq ei f st =
      rw eq (deleted none (Reply.removed true) ei tt (omega arith))

  module _ (p : Probe) (n : is_never p.outcome ≡ false)
      (small : is_at_most max_latency_ms p.latency_ms ≡ true) (at : ℕ) where
    -- The quarantine's row after a probe, with or without a restore intent.
    store_sim :
        (r : AccountQuarantineRecord) (row : Option AccountQuarantineRecord) (t : Option ℕ)
        → probe_row at p r ≡ row
        → get id g.intents ≡ none
        → get id g.restores ≡ t
        → IsFit id (some r) none t
        → stage_in g id ≡ stage_of (some r) none t
        → Simulates g id (store_probe id g row) (stage_probed (λ q. stage_of (some q) none t) r row)
    unfolding IsFit
    store_sim r none t e ei et f st = unchanged g id _ _ s st
    store_sim r (some row) t e ei et f st =
        let v = probe_row_valid at p r row e n small f.0 in
        rw (readable row v.0) (
          written_smaller g (record g { quarantines = put id row g.quarantines }) id
            (Written-put id row g.quarantines s.unique_quarantines)
            (Written-kept id g.intents none s.unique_intents ei)
            (Written-kept id g.restores t s.unique_restores et) (v.0, v.1 ∙ f.1) s
            (Reply.quarantine row) (rw st (busy r row t t)))

    pub probe_sim :
        (q : Option AccountQuarantineRecord) (i : Option AccountQuarantineIntent) (t : Option ℕ)
        → get id g.intents ≡ i
        → get id g.restores ≡ t
        → IsFit id q i t
        → stage_in g id ≡ stage_of q i t
        → Simulates g id (probe_found id at p g q) (stage_probe_at p at (stage_of q i t))
    unfolding IsFit
    probe_sim none none none ei et f st = unchanged g id _ _ s st
    probe_sim none none (some made) ei et f st = elim f [ ]
    probe_sim none (some i) none ei et f st = unchanged g id _ _ s st
    probe_sim none (some i) (some made) ei et f st = elim f [ ]
    probe_sim (some r) (some i) t ei et f st = elim f [ ]
    probe_sim (some r) none none ei et f st = store_sim r (probe_row at p r) none refl ei et f st
    probe_sim (some r) none (some made) ei et f st =
        store_sim r (probe_row at p r) (some made) refl ei et f st
