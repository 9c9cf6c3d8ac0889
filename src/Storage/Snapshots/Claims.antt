-- ===== src/Storage/Snapshots/Claims.antt =====
-- A claim of a snapshot is exclusive, and a consumed snapshot stays consumed.
use sub2_ddq.Prelude.{
  max, ℕ, ◌+◌, ◌<◌, ◌≡◌, refl, Bool, true, false, ◌&&◌, Option, none, some, List, [], ◌∷◌, map,
  Text, text_eq, All, All-imp, All-and, All-sort_by, All-keep_if, All-keep_if_of_All,
  All-find_first, keep_if, sort_by, Bool-cases, Option-cases, inl, inr, subst, sym, arith, has_text,
  has_text_duplicates, text_eq_sym, text_eq_lem,
}
use sub2_ddq.Guardian.Contracts.{seconds}
use sub2_ddq.Storage.Snapshots.{
  Snapshot, capture_order, claim_input_snapshot, claim_row, claimed_by, consume_input_snapshot,
  consumed, first_row, is_claim_of, is_claimable, is_free, is_open, is_superseded, newest_first,
  release_input_snapshot, supersede_but, supersede_expired_input_snapshots, unclaimed,
}
use sub2_ddq.Storage.Snapshots.Steps.{
  SnapshotOp, run_op, run_ops, ByOther, IsKept, KeepsClaims, All-rows, KeepsClaims-update_where,
  KeepsClaims-refl, KeepsClaims-trans,
}

-- The primary key.
abbrev pub IsTable : List Snapshot → Type 0
IsTable rows = has_text_duplicates (map (λ r. r.snapshot_id) rows) ≡ false

-- Behind the row, no row has its ID.
other_rows :
    (r : Snapshot) (rows : List Snapshot)
    → has_text r.snapshot_id (map (λ r. r.snapshot_id) rows) ≡ false
    → All (λ s. text_eq s.snapshot_id r.snapshot_id ≡ false) rows
other_rows r [] h = tt
other_rows r (s ∷ rows) h = (ground (arith, h), other_rows r rows (ground (arith, h)))

-- With a primary key, rows with one ID are one row.
one_row :
    (rows : List Snapshot)
    → IsTable rows
    → All (λ r. All (λ s. text_eq s.snapshot_id r.snapshot_id ≡ true → s ≡ r) rows) rows
one_row [] u = tt
one_row (x ∷ rows) u =
    let absent = other_rows x rows (ground (arith, u)) in
    let among = one_row rows (ground (arith, u)) in
    (
      (λ e. refl, All-imp _ _ rows (λ s a e. ground (arith, a, e)) absent),
      All-imp _ _ rows
          (λ r h. (λ e. ground (arith, h.0, e, text_eq_sym x.snapshot_id r.snapshot_id), h.1))
          (All-and _ _ rows absent among),
    )

kept_claim :
    (holder owner : Text) (t : ℕ) (id : Text) (r : Snapshot)
    → text_eq holder owner ≡ false
    → IsKept holder t r
    → is_claim_of id owner r ≡ false
unfolding is_claim_of
kept_claim holder owner t id r n k = elim (Option-cases r.claim_owner) [
  | inl e ↦ ground (arith, e)
  | inr (o, e) ↦ elim (Bool-cases (text_eq o holder)) [
    | inl same ↦
        let other : text_eq o owner ≡ false =
          subst (λ x. text_eq x owner ≡ false) (sym (text_eq_lem o holder same)) n in
        ground (arith, e, other)
    | inr f ↦ ground (arith, e, f, k)
  ]
]

kept_free :
    (holder : Text) (t now : ℕ) (r : Snapshot)
    → now < t
    → IsKept holder t r
    → (is_open r && is_free now r) ≡ false
unfolding is_free
kept_free holder t now r l k = ground (arith, l, k)

-- The row that is claimed is not kept, so an update of its ID passes over the kept rows.
passes_over :
    (holder : Text) (t now : ℕ) (visible : Snapshot → Bool) (r s : Snapshot)
    → now < t
    → is_claimable visible now r ≡ true
    → (text_eq s.snapshot_id r.snapshot_id ≡ true → s ≡ r)
    → IsKept holder t s
    → (text_eq s.snapshot_id r.snapshot_id && is_open s) ≡ false
unfolding is_claimable
passes_over holder t now visible r s l c h k =
    elim (Bool-cases (text_eq s.snapshot_id r.snapshot_id)) [
      | inr e ↦ rw e refl
      | inl e ↦
          let closed = kept_free holder t now r l (subst (IsKept holder t) (h e) k) in
          ground (arith, c, closed)
    ]

KeepsClaims-claim_row :
    (holder owner : Text) (t now expires : ℕ) (visible : Snapshot → Bool) (rows : List Snapshot)
    (o : Option Snapshot)
    → IsTable rows
    → now < t
    → first_row (sort_by capture_order (keep_if (is_claimable visible now) rows)) ≡ o
    → KeepsClaims holder t rows (claim_row owner expires rows o).0
KeepsClaims-claim_row holder owner t now expires visible rows none u l e =
    KeepsClaims-refl holder t rows
KeepsClaims-claim_row holder owner t now expires visible rows (some r) u l e =
    let found = keep_if (is_claimable visible now) rows in
    let claimable : is_claimable visible now r ≡ true =
      All-find_first (λ s. is_claimable visible now s ≡ true) (λ s. true)
        (sort_by capture_order found) r
        (All-sort_by (λ s. is_claimable visible now s ≡ true) capture_order found
          (All-keep_if (is_claimable visible now) rows))
        e in
    let P : Snapshot → Type 0 =
      λ r. All (λ s. text_eq s.snapshot_id r.snapshot_id ≡ true → s ≡ r) rows in
    let same : P r =
      All-find_first P (λ s. true) (sort_by capture_order found) r
        (All-sort_by P capture_order found
          (All-keep_if_of_All P (is_claimable visible now) rows (one_row rows u)))
        e in
    KeepsClaims-update_where holder t _ (claimed_by owner expires) rows (λ s. refl)
      (All-imp _ _ rows (λ s h k. passes_over holder t now visible r s l claimable h k) same)

KeepsClaims-supersede_but :
    (holder : Text) (t now cutoff : ℕ) (rows : List Snapshot) (o : Option Snapshot)
    → now < t
    → KeepsClaims holder t rows (supersede_but now cutoff rows o).0
unfolding is_superseded
KeepsClaims-supersede_but holder t now cutoff rows none l = KeepsClaims-refl holder t rows
KeepsClaims-supersede_but holder t now cutoff rows (some latest) l =
    KeepsClaims-update_where holder t (is_superseded now cutoff latest.snapshot_id) (consumed now)
      rows (λ s. refl) (All-rows rows (λ r k. ground (arith, kept_free holder t now r l k)))

-- One operation of another owner before the time.
run_op-KeepsClaims :
    (holder : Text) (t : ℕ) (op : SnapshotOp) (rows : List Snapshot)
    → IsTable rows
    → ByOther holder t op
    → KeepsClaims holder t rows (run_op op rows)
unfolding run_op supersede_expired_input_snapshots claim_input_snapshot consume_input_snapshot
    release_input_snapshot
run_op-KeepsClaims holder t (SnapshotOp.supersede now cutoff) rows u b =
    KeepsClaims-supersede_but holder t now cutoff rows
      (first_row (sort_by newest_first (keep_if is_open rows))) b
run_op-KeepsClaims holder t (SnapshotOp.claim visible owner now lease_seconds) rows u b =
    KeepsClaims-claim_row holder owner t now (now + seconds (max 1 lease_seconds)) visible rows _ u
      b refl
run_op-KeepsClaims holder t (SnapshotOp.consume id owner now) rows u b =
    KeepsClaims-update_where holder t (is_claim_of id owner) (consumed now) rows (λ s. refl)
      (All-rows rows (λ r k. kept_claim holder owner t id r b k))
run_op-KeepsClaims holder t (SnapshotOp.release id owner) rows u b =
    KeepsClaims-update_where holder t (is_claim_of id owner) unclaimed rows (λ s. refl)
      (All-rows rows (λ r k. kept_claim holder owner t id r b k))

same_ids :
    (holder : Text) (t : ℕ) (rs ss : List Snapshot)
    → KeepsClaims holder t rs ss
    → map (λ r. r.snapshot_id) ss ≡ map (λ r. r.snapshot_id) rs
same_ids holder t [] [] h = refl
same_ids holder t [] (s ∷ ss) h = elim h [ ]
same_ids holder t (r ∷ rs) [] h = elim h [ ]
same_ids holder t (r ∷ rs) (s ∷ ss) h = ground (arith, h.0.0, same_ids holder t rs ss h.1)

-- A claim is exclusive and consumption is final. Let others than the holder supersede, claim,
-- consume and release any number of times, each operation alone and its time before `t`, with no
-- snapshot recorded or deleted in between: every row keeps its place and its ID, and a row that is
-- consumed, or claimed by the holder until `t` at least, is unchanged.
pub run_ops-KeepsClaims :
    (holder : Text) (t : ℕ) (ops : List SnapshotOp) (rows : List Snapshot)
    → IsTable rows
    → All (ByOther holder t) ops
    → KeepsClaims holder t rows (run_ops ops rows)
unfolding run_ops
run_ops-KeepsClaims holder t [] rows u b = KeepsClaims-refl holder t rows
run_ops-KeepsClaims holder t (op ∷ ops) rows u b =
    let one = run_op-KeepsClaims holder t op rows u b.0 in
    let next = run_op op rows in
    let table : IsTable next =
      subst (λ ids. has_text_duplicates ids ≡ false) (sym (same_ids holder t rows next one)) u in
    KeepsClaims-trans holder t rows next (run_ops ops next) one
      (run_ops-KeepsClaims holder t ops next table b.1)
