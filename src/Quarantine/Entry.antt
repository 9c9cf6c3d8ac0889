-- ===== src/Quarantine/Entry.antt =====
-- The operations that enter an account into the quarantine tables of src/sub2api_mcp/repository.py, or
-- take its pending intent away, do what the stages say.
use sub2_ddq.Prelude.{
  ℕ, ◌+◌, ◌≤◌, true, false, Option, none, some, get, put, remove, ◌≡◌, refl, inl, inr, arith,
  Bool-cases,
}
use sub2_ddq.Quarantine.Records.{
  AccountQuarantineRecord, AccountQuarantineIntent, is_valid_record, is_valid_intent,
}
use sub2_ddq.Quarantine.ProbeLaws.{marker_of_valid}
use sub2_ddq.Quarantine.Stages.{
  stage_of, stage_in, weight, stage_upsert, stage_intend, stage_promote, stage_drop,
}
use sub2_ddq.Quarantine.Sound.{
  IsFit, IsSound, Simulates, Written-kept, Written-put, Written-remove, written_smaller,
  written_below, unchanged,
}
use sub2_ddq.Quarantine.{
  Registry, Reply, is_full, registry_count, max_account_quarantines, marker_of, quarantine_from_row,
  quarantine_intent_from_row, upsert_quarantine_found, upsert_intent_found, promote_found,
  remove_account_quarantine_intent,
}

pub room : (g : Registry) → is_full g ≡ false → registry_count g + 1 ≤ max_account_quarantines
unfolding is_full
room g h = ground arith

pub readable :
    (r : AccountQuarantineRecord)
    → is_valid_record r ≡ true
    → quarantine_from_row r ≡ Reply.quarantine r
unfolding quarantine_from_row
readable r v = rw v refl

readable_intent :
    (i : AccountQuarantineIntent)
    → is_valid_intent i ≡ true
    → quarantine_intent_from_row i ≡ Reply.intent i
unfolding quarantine_intent_from_row
readable_intent i v = rw v refl

marker_account :
    (i : AccountQuarantineIntent) (id : ℕ) → i.account_id ≡ id → (marker_of i).account_id ≡ id
unfolding marker_of
marker_account i id h = h

module _ (g : Registry) (s : IsSound g) (r : AccountQuarantineRecord) where
  pub upsert_sim :
      (q : Option AccountQuarantineRecord) (i : Option AccountQuarantineIntent) (t : Option ℕ)
      → is_valid_record r ≡ true
      → get r.account_id g.intents ≡ i
      → get r.account_id g.restores ≡ t
      → IsFit r.account_id q i t
      → stage_in g r.account_id ≡ stage_of q i t
      → Simulates g r.account_id
          (upsert_quarantine_found r g q i)
          (stage_upsert r (is_full g) (stage_of q i t))
  unfolding IsFit
  upsert_sim none none none v ei et f st = elim (Bool-cases (is_full g)) [
    | inl e ↦ rw e (unchanged g r.account_id _ _ s st)
    | inr e ↦
        rw (e, readable r v)
          (written_below g (record g { quarantines = put r.account_id r g.quarantines })
            r.account_id (Written-put r.account_id r g.quarantines s.unique_quarantines)
            (Written-kept r.account_id g.intents none s.unique_intents ei)
            (Written-kept r.account_id g.restores none s.unique_restores et) (v, refl) s
            (Reply.quarantine r) (room g e))
  ]
  upsert_sim none none (some at) v ei et f st = elim f [ ]
  upsert_sim none (some i) none v ei et f st = unchanged g r.account_id _ _ s st
  upsert_sim none (some i) (some at) v ei et f st = elim f [ ]
  upsert_sim (some old) (some i) t v ei et f st = elim f [ ]
  upsert_sim (some old) none none v ei et f st =
      rw (readable old f.0) (unchanged g r.account_id _ _ s st)
  upsert_sim (some old) none (some at) v ei et f st =
      rw (readable old f.0) (unchanged g r.account_id _ _ s st)

module _ (g : Registry) (s : IsSound g) (i : AccountQuarantineIntent) where
  pub intend_sim :
      (q : Option AccountQuarantineRecord) (old : Option AccountQuarantineIntent) (t : Option ℕ)
      → is_valid_intent i ≡ true
      → get i.account_id g.quarantines ≡ q
      → get i.account_id g.restores ≡ t
      → IsFit i.account_id q old t
      → stage_in g i.account_id ≡ stage_of q old t
      → Simulates g i.account_id
          (upsert_intent_found i g old q)
          (stage_intend i (is_full g) (stage_of q old t))
  unfolding IsFit
  intend_sim none none none v eq et f st = elim (Bool-cases (is_full g)) [
    | inl e ↦ rw e (unchanged g i.account_id _ _ s st)
    | inr e ↦
        rw (e, readable_intent i v)
          (written_below g (record g { intents = put i.account_id i g.intents }) i.account_id
            (Written-kept i.account_id g.quarantines none s.unique_quarantines eq)
            (Written-put i.account_id i g.intents s.unique_intents)
            (Written-kept i.account_id g.restores none s.unique_restores et) (v, refl) s
            (Reply.intent i) (room g e))
  ]
  intend_sim none none (some at) v eq et f st = elim f [ ]
  intend_sim none (some old) none v eq et f st =
      rw (readable_intent old f.0) (unchanged g i.account_id _ _ s st)
  intend_sim none (some old) (some at) v eq et f st = elim f [ ]
  intend_sim (some r) (some old) t v eq et f st = elim f [ ]
  intend_sim (some r) none none v eq et f st = unchanged g i.account_id _ _ s st
  intend_sim (some r) none (some at) v eq et f st = unchanged g i.account_id _ _ s st

module _ (g : Registry) (s : IsSound g) (id : ℕ) where
  pub promote_sim :
      (q : Option AccountQuarantineRecord) (i : Option AccountQuarantineIntent) (t : Option ℕ)
      → get id g.restores ≡ t
      → IsFit id q i t
      → stage_in g id ≡ stage_of q i t
      → Simulates g id (promote_found id g i q) (stage_promote (stage_of q i t))
  unfolding IsFit
  promote_sim none none none et f st = unchanged g id _ _ s st
  promote_sim none none (some at) et f st = elim f [ ]
  promote_sim none (some i) none et f st = rw (readable (marker_of i) (marker_of_valid i f.0)) (
      written_smaller g
        (record g {
          quarantines = put id (marker_of i) g.quarantines;
          intents = remove id g.intents;
        })
        id (Written-put id (marker_of i) g.quarantines s.unique_quarantines)
        (Written-remove id g.intents s.unique_intents)
        (Written-kept id g.restores none s.unique_restores et)
        (marker_of_valid i f.0, marker_account i id f.1) s (Reply.quarantine (marker_of i))
        (rw st (omega arith)))
  promote_sim none (some i) (some at) et f st = elim f [ ]
  promote_sim (some r) (some i) t et f st = elim f [ ]
  promote_sim (some r) none none et f st = unchanged g id _ _ s st
  promote_sim (some r) none (some at) et f st = unchanged g id _ _ s st

  -- The tables without the intent.
  no_intent :
      (q : Option AccountQuarantineRecord) (t : Option ℕ) (reply : Reply)
      → get id g.quarantines ≡ q
      → get id g.restores ≡ t
      → IsFit id q none t
      → weight (stage_of q none t) ≤ weight (stage_in g id)
      → Simulates g id
          (record g { intents = remove id g.intents }, reply)
          (stage_of q none t, reply)
  no_intent q t reply eq et f h =
      written_smaller g (record g { intents = remove id g.intents }) id
        (Written-kept id g.quarantines q s.unique_quarantines eq)
        (Written-remove id g.intents s.unique_intents)
        (Written-kept id g.restores t s.unique_restores et) f s reply h

  pub drop_sim :
      (q : Option AccountQuarantineRecord) (i : Option AccountQuarantineIntent) (t : Option ℕ)
      → get id g.quarantines ≡ q
      → get id g.intents ≡ i
      → get id g.restores ≡ t
      → IsFit id q i t
      → stage_in g id ≡ stage_of q i t
      → Simulates g id (remove_account_quarantine_intent id g) (stage_drop (stage_of q i t))
  unfolding IsFit remove_account_quarantine_intent
  drop_sim none none none eq ei et f st =
      rw ei (no_intent none none (Reply.removed false) eq et f (omega arith))
  drop_sim none none (some at) eq ei et f st = elim f [ ]
  drop_sim none (some i) none eq ei et f st =
      rw ei (no_intent none none (Reply.removed true) eq et tt (omega arith))
  drop_sim none (some i) (some at) eq ei et f st = elim f [ ]
  drop_sim (some r) (some i) t eq ei et f st = elim f [ ]
  drop_sim (some r) none none eq ei et f st =
      rw ei (no_intent (some r) none (Reply.removed false) eq et f (rw st (omega arith)))
  drop_sim (some r) none (some at) eq ei et f st =
      rw ei (no_intent (some r) (some at) (Reply.removed false) eq et f (rw st (omega arith)))
