-- ===== src/Guardian/Ledger/Stable.antt =====
-- A run and a record of src/sub2api_mcp/guardian/repository.py stay what they are once they are
-- settled.
use sub2_ddq.Prelude.{
  count, text_eq_lem, ℕ, leb, true, false, not, ◌&&◌, Option, none, some, List, [], ◌∷◌, ◌++◌, Text,
  text_eq, ◌==◌, is_some, Dict, get, put, ◌≡◌, refl, sym, subst, ap, ◌∙◌, ◌⊎◌, inl, inr, arith,
  Bool-cases,
}
use mathlib.Core.Option.{some_inj}
use sub2_ddq.Guardian.Contracts.{Moment, AccountRecoveryRunTrigger}
use sub2_ddq.Guardian.Ledger.{
  AccountRecoveryRunStatus, RecoveryRun, RecoveryRecord, RunCounts, Ledger, LedgerReply, is_running,
  find_run, find_record, insert_run, with_runs, create_account_recovery_run, finished_run,
  finish_found, finish_account_recovery_run, record_found, record_account_recovery_result,
  same_status, same_counts, same_record, is_sized, is_sized_option, is_aware, time_of,
}

-- The operations that write.
pub data LedgerOp : Type 0 where
  create : ℕ → Text → AccountRecoveryRunTrigger → Option Text → Option Text → ℕ → Moment → LedgerOp
  finish : ℕ → AccountRecoveryRunStatus → RunCounts → Moment → LedgerOp
  record_result : RecoveryRecord → LedgerOp

unfoldable pub exec : LedgerOp → Ledger → Ledger × LedgerReply
exec (LedgerOp.create id key trigger snapshot episode revision started) l =
    create_account_recovery_run id key trigger snapshot episode revision started l
exec (LedgerOp.finish id status counts finished) l =
    finish_account_recovery_run id status counts finished l
exec (LedgerOp.record_result r) l = record_account_recovery_result r l

unfoldable pub run_ops : List LedgerOp → Ledger → Ledger
run_ops [] l = l
run_ops (op ∷ ops) l = run_ops ops (exec op l).0

find-put_new :
    (key : Text) (id : ℕ) (r new : RecoveryRun) (runs : Dict RecoveryRun)
    → get id runs ≡ none
    → find_run key runs ≡ some r
    → find_run key (put id new runs) ≡ some r
unfolding find_run
find-put_new key id r new [] g h = cc
find-put_new key id r new (e ∷ runs) g h = ground (arith, find-put_new key id r new runs, g, h)

-- An update in place with the same key changes the run of a key only if it was the updated one.
find-put_same :
    (key : Text) (id : ℕ) (old new r : RecoveryRun) (runs : Dict RecoveryRun)
    → get id runs ≡ some old
    → text_eq new.dedup_key key ≡ text_eq old.dedup_key key
    → find_run key runs ≡ some r
    → (find_run key (put id new runs) ≡ some r)
      ⊎ ((r ≡ old) × (find_run key (put id new runs) ≡ some new))
unfolding find_run
find-put_same key id old new r [] g k h = cc
find-put_same key id old new r (e ∷ runs) g k h = elim (Bool-cases (id == e.0)) [
  | inl s ↦
      let here : e.1 ≡ old = some_inj.0 (rw s at g) in
      elim (Bool-cases (text_eq e.1.dedup_key key)) [
        | inl m ↦
            let mine : text_eq new.dedup_key key ≡ true =
              k ∙ subst (λ (x : RecoveryRun). text_eq x.dedup_key key ≡ true) here m in
            let is_r : e.1 ≡ r = some_inj.0 (rw m at h) in
            rw (s, mine) (inr (sym is_r ∙ here, refl))
        | inr m ↦
            let other : text_eq new.dedup_key key ≡ false =
              k ∙ subst (λ (x : RecoveryRun). text_eq x.dedup_key key ≡ false) here m in
            rw (s, other) (inl (rw m at h))
      ]
  | inr s ↦ elim (Bool-cases (text_eq e.1.dedup_key key)) [
    | inl m ↦ rw (s, m) (inl (rw m at h))
    | inr m ↦ rw (s, m) (find-put_same key id old new r runs (rw s at g) k (rw m at h))
  ]
]

find_record-append :
    (key : Text) (r new : RecoveryRecord) (records : List RecoveryRecord)
    → find_record key records ≡ some r
    → find_record key (records ++ (new ∷ [])) ≡ some r
find_record-append key r new [] h = cc
find_record-append key r new (x ∷ records) h =
    ground (arith, find_record-append key r new records, h)

-- The run is the same, or it was running and kept its ID and its key.
abbrev pub Continues : RecoveryRun → RecoveryRun → Type 0
Continues r r' =
    (r' ≡ r)
    ⊎ ((is_running r.status ≡ true)
        × (r'.run_id ≡ r.run_id)
        × (r'.dedup_key ≡ r.dedup_key)
        × (r'.trigger ≡ r.trigger))

Continues-trans : (a b c : RecoveryRun) → Continues a b → Continues b c → Continues a c
Continues-trans a b c (inl e) k = subst (λ x. Continues x c) e k
Continues-trans a b c (inr h) (inl e) = subst (λ x. Continues a x) (sym e) (inr h)
Continues-trans a b c (inr (run, id, key, trigger)) (inr (_, id', key', trigger')) =
    inr (run, id' ∙ id, key' ∙ key, trigger' ∙ trigger)

-- The key's run in a table, as the continuation of a run.
abbrev pub FindsRun : Text → RecoveryRun → Dict RecoveryRun → Type 0
FindsRun key r runs = (r' : RecoveryRun) × (find_run key runs ≡ some r') × Continues r r'

module _ (key : Text) (r : RecoveryRun) where
  insert_finds :
      (new : RecoveryRun) (l : Ledger) (old other : Option RecoveryRun)
      → get new.run_id l.runs ≡ other
      → find_run key l.runs ≡ some r
      → FindsRun key r (with_runs l (insert_run new l.runs old other)).0.runs
  insert_finds new l (some old) other g h = (r, h, inl refl)
  insert_finds new l none (some other) g h = (r, h, inl refl)
  insert_finds new l none none g h = (r, find-put_new key new.run_id r new l.runs g h, inl refl)

  finish_finds :
      (id : ℕ) (status : AccountRecoveryRunStatus) (counts : RunCounts) (at : ℕ) (l : Ledger)
      (found : Option RecoveryRun)
      → get id l.runs ≡ found
      → find_run key l.runs ≡ some r
      → FindsRun key r (finish_found id status counts at l found).0.runs
  unfolding finished_run
  finish_finds id status counts at l none g h = (r, h, inl refl)
  finish_finds id status counts at l (some old) g h = elim (Bool-cases (is_running old.status)) [
    | inl run ↦
        let new = finished_run status counts at old in
        rw run (elim (find-put_same key id old new r l.runs g refl h) [
          | inl same ↦ (r, same, inl refl)
          | inr (e, found) ↦
              (new, found, subst (λ x. Continues x new) (sym e) (inr (run, refl, refl, refl)))
        ])
    | inr over ↦
        rw over
          (elim (Bool-cases (same_status old.status status && same_counts old.result counts)) [
            | inl same ↦ rw same (r, h, inl refl)
            | inr other ↦ rw other (r, h, inl refl)
          ])
  ]

  record_runs :
      (x : RecoveryRecord) (l : Ledger) (found : Option RecoveryRecord)
      → (record_found x l found).0.runs ≡ l.runs
  record_runs x l none = ground arith
  record_runs x l (some stored) = ground arith

  exec_finds :
      (op : LedgerOp) (l : Ledger)
      → find_run key l.runs ≡ some r
      → FindsRun key r (exec op l).0.runs
  unfolding exec create_account_recovery_run finish_account_recovery_run
      record_account_recovery_result
  exec_finds (LedgerOp.create id k trigger snapshot episode revision started) l h =
      elim (Bool-cases
        (is_sized 512 k && is_sized_option 128 episode && leb 1 revision && is_aware started)) [
          | inl ok ↦ rw ok (insert_finds _ l (find_run k l.runs) (get id l.runs) refl h)
          | inr bad ↦ rw bad (r, h, inl refl)
        ]
  exec_finds (LedgerOp.finish id status counts finished) l h =
      elim (Bool-cases (not (is_running status) && is_aware finished)) [
        | inl ok ↦ rw ok (finish_finds id status counts (time_of finished) l (get id l.runs) refl h)
        | inr bad ↦ rw bad (r, h, inl refl)
      ]
  exec_finds (LedgerOp.record_result x) l h =
      (r, ap (find_run key) (record_runs x l (find_record x.dedup_key l.records)) ∙ h, inl refl)

-- How many runs of the table have the key.
abbrev pub runs_with : Text → Dict RecoveryRun → ℕ
runs_with key runs = count (λ e. text_eq e.1.dedup_key key) runs

runs_with-put_new :
    (key : Text) (id : ℕ) (new : RecoveryRun) (runs : Dict RecoveryRun)
    → get id runs ≡ none
    → text_eq new.dedup_key key ≡ false
    → runs_with key (put id new runs) ≡ runs_with key runs
runs_with-put_new key id new [] g k = ground (arith, k)
runs_with-put_new key id new (e ∷ runs) g k =
    ground (arith, runs_with-put_new key id new runs, g, k)

runs_with-put_same :
    (key : Text) (id : ℕ) (old new : RecoveryRun) (runs : Dict RecoveryRun)
    → get id runs ≡ some old
    → text_eq new.dedup_key key ≡ text_eq old.dedup_key key
    → runs_with key (put id new runs) ≡ runs_with key runs
runs_with-put_same key id old new [] g k = cc
runs_with-put_same key id old new (e ∷ runs) g k = elim (Bool-cases (id == e.0)) [
  | inl s ↦
      let here : e.1 ≡ old = some_inj.0 (rw s at g) in
      let same : text_eq new.dedup_key key ≡ text_eq e.1.dedup_key key =
        k ∙ ap (λ (x : RecoveryRun). text_eq x.dedup_key key) (sym here) in
      rw (s, same) refl
  | inr s ↦
      let rest = runs_with-put_same key id old new runs (rw s at g) k in ground (arith, s, rest)
]

module _ (key : Text) (r : RecoveryRun) where
  insert_counts :
      (new : RecoveryRun) (l : Ledger) (old other : Option RecoveryRun)
      → find_run new.dedup_key l.runs ≡ old
      → get new.run_id l.runs ≡ other
      → find_run key l.runs ≡ some r
      → runs_with key (with_runs l (insert_run new l.runs old other)).0.runs ≡ runs_with key l.runs
  insert_counts new l (some old) other f g h = refl
  insert_counts new l none (some other) f g h = refl
  insert_counts new l none none f g h = elim (Bool-cases (text_eq new.dedup_key key)) [
    | inl same ↦
        let found : find_run new.dedup_key l.runs ≡ some r =
          ap (λ k. find_run k l.runs) (text_eq_lem new.dedup_key key same) ∙ h in
        absurd (ground (arith, f, found))
    | inr different ↦ runs_with-put_new key new.run_id new l.runs g different
  ]

  finish_counts :
      (id : ℕ) (status : AccountRecoveryRunStatus) (counts : RunCounts) (at : ℕ) (l : Ledger)
      (found : Option RecoveryRun)
      → get id l.runs ≡ found
      → runs_with key (finish_found id status counts at l found).0.runs ≡ runs_with key l.runs
  unfolding finished_run
  finish_counts id status counts at l none g = refl
  finish_counts id status counts at l (some old) g = elim (Bool-cases (is_running old.status)) [
    | inl run ↦
        rw run (runs_with-put_same key id old (finished_run status counts at old) l.runs g refl)
    | inr over ↦
        rw over
          (elim (Bool-cases (same_status old.status status && same_counts old.result counts)) [
            | inl same ↦ rw same refl
            | inr other ↦ rw other refl
          ])
  ]

  exec_counts :
      (op : LedgerOp) (l : Ledger)
      → find_run key l.runs ≡ some r
      → runs_with key (exec op l).0.runs ≡ runs_with key l.runs
  unfolding exec create_account_recovery_run finish_account_recovery_run
      record_account_recovery_result
  exec_counts (LedgerOp.create id k trigger snapshot episode revision started) l h =
      elim (Bool-cases
        (is_sized 512 k && is_sized_option 128 episode && leb 1 revision && is_aware started)) [
          | inl ok ↦ rw ok (insert_counts _ l (find_run k l.runs) (get id l.runs) refl refl h)
          | inr bad ↦ rw bad refl
        ]
  exec_counts (LedgerOp.finish id status counts finished) l h =
      elim (Bool-cases (not (is_running status) && is_aware finished)) [
        | inl ok ↦ rw ok (finish_counts id status counts (time_of finished) l (get id l.runs) refl)
        | inr bad ↦ rw bad refl
      ]
  exec_counts (LedgerOp.record_result x) l h =
      ap (runs_with key) (record_runs key r x l (find_record x.dedup_key l.records))

-- Whatever is created, finished and recorded after, with nothing deleted in between, the dedup key
-- of a run finds that run: the row is what it was, or it was running and its ID, key and trigger are
-- the same. So a run that is finished keeps its status and its counts. And the table has as many
-- runs with the key as before: a creation with a used key makes no second run.
pub run_ops_finds :
    (ops : List LedgerOp) (l : Ledger) (key : Text) (r : RecoveryRun)
    → find_run key l.runs ≡ some r
    → FindsRun key r (run_ops ops l).runs
      × (runs_with key (run_ops ops l).runs ≡ runs_with key l.runs)
unfolding run_ops
run_ops_finds [] l key r h = ((r, h, inl refl), refl)
run_ops_finds (op ∷ ops) l key r h =
    let (r', found, step) = exec_finds key r op l h in
    let (later, size) = run_ops_finds ops (exec op l).0 key r' found in
    let (r'', last, steps) = later in
    ((r'', last, Continues-trans r r' r'' step steps), size ∙ exec_counts key r op l h)

module _ (key : Text) (x : RecoveryRecord) where
  recorded_keeps :
      (new : RecoveryRecord) (l : Ledger) (found : Option RecoveryRecord)
      → find_record key l.records ≡ some x
      → find_record key (record_found new l found).0.records ≡ some x
  recorded_keeps new l (some stored) h = elim (Bool-cases (same_record stored new)) [
    | inl same ↦ rw same h
    | inr other ↦ rw other h
  ]
  recorded_keeps new l none h = elim (Bool-cases (is_some (get new.run_id l.runs))) [
    | inl there ↦ rw there (find_record-append key x new l.records h)
    | inr missing ↦ rw missing h
  ]

  finish_records :
      (id : ℕ) (status : AccountRecoveryRunStatus) (counts : RunCounts) (at : ℕ) (l : Ledger)
      (found : Option RecoveryRun)
      → (finish_found id status counts at l found).0.records ≡ l.records
  finish_records id status counts at l none = refl
  finish_records id status counts at l (some old) = ground arith

  exec_keeps :
      (op : LedgerOp) (l : Ledger)
      → find_record key l.records ≡ some x
      → find_record key (exec op l).0.records ≡ some x
  unfolding exec create_account_recovery_run finish_account_recovery_run
      record_account_recovery_result
  exec_keeps (LedgerOp.create id k trigger snapshot episode revision started) l h =
      elim (Bool-cases
        (is_sized 512 k && is_sized_option 128 episode && leb 1 revision && is_aware started)) [
          | inl ok ↦ rw ok h
          | inr bad ↦ rw bad h
        ]
  exec_keeps (LedgerOp.finish id status counts finished) l h =
      elim (Bool-cases (not (is_running status) && is_aware finished)) [
        | inl ok ↦ rw ok (
            ap (find_record key)
              (finish_records id status counts (time_of finished) l (get id l.runs))
            ∙ h)
        | inr bad ↦ rw bad h
      ]
  exec_keeps (LedgerOp.record_result new) l h =
      recorded_keeps new l (find_record new.dedup_key l.records) h

-- A recorded result is never changed: whatever is created, finished and recorded after, its key
-- finds the same record.
pub run_ops_keeps_record :
    (ops : List LedgerOp) (l : Ledger) (key : Text) (x : RecoveryRecord)
    → find_record key l.records ≡ some x
    → find_record key (run_ops ops l).records ≡ some x
unfolding run_ops
run_ops_keeps_record [] l key x h = h
run_ops_keeps_record (op ∷ ops) l key x h =
    run_ops_keeps_record ops (exec op l).0 key x (exec_keeps key x op l h)
