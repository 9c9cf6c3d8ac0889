-- ===== src/Storage/Snapshots/Steps.antt =====
-- Operations on the snapshots as steps, and what it is to keep a holder's claims.
use sub2_ddq.Prelude.{
  ℕ, ◌<◌, ◌≡◌, refl, Bool, true, false, ◌&&◌, ◌||◌, Option, none, some, List, [], ◌∷◌, Text,
  text_eq, leb, All, Bool-cases, inl, inr, subst, sym, arith, is_some, ◌∙◌,
}
use sub2_ddq.Storage.Snapshots.{
  Snapshot, claim_input_snapshot, consume_input_snapshot, release_input_snapshot,
  supersede_expired_input_snapshots, update_where,
}

-- One operation on the rows that are there; recording and deleting rows is none of them.
pub data SnapshotOp : Type 0 where
  supersede : (now cutoff : ℕ) → SnapshotOp
  claim : (visible : Snapshot → Bool) (owner : Text) (now lease_seconds : ℕ) → SnapshotOp
  consume : (id owner : Text) (now : ℕ) → SnapshotOp
  release : (id owner : Text) → SnapshotOp

unfoldable pub run_op : SnapshotOp → List Snapshot → List Snapshot
run_op (SnapshotOp.supersede now cutoff) rows =
    (supersede_expired_input_snapshots now cutoff rows).0
run_op (SnapshotOp.claim visible owner now lease_seconds) rows =
    (claim_input_snapshot visible owner now lease_seconds rows).0
run_op (SnapshotOp.consume id owner now) rows = (consume_input_snapshot id owner now rows).0
run_op (SnapshotOp.release id owner) rows = release_input_snapshot id owner rows

unfoldable pub run_ops : List SnapshotOp → List Snapshot → List Snapshot
run_ops [] rows = rows
run_ops (op ∷ ops) rows = run_ops ops (run_op op rows)

-- An operation of another owner than the holder, before the time.
abbrev pub ByOther : Text → ℕ → SnapshotOp → Type 0
ByOther holder t (SnapshotOp.supersede now cutoff) = now < t
ByOther holder t (SnapshotOp.claim visible owner now lease_seconds) = now < t
ByOther holder t (SnapshotOp.consume id owner now) = text_eq holder owner ≡ false
ByOther holder t (SnapshotOp.release id owner) = text_eq holder owner ≡ false

abbrev pub is_claimed : Text → Option Text → Bool
is_claimed holder none = false
is_claimed holder (some o) = text_eq o holder

abbrev pub lasts_until : ℕ → Option ℕ → Bool
lasts_until t none = false
lasts_until t (some e) = leb t e

-- The row is consumed, or claimed by the holder until the time at least.
abbrev pub IsKept : Text → ℕ → Snapshot → Type 0
IsKept holder t r =
    (is_some r.consumed_at || (is_claimed holder r.claim_owner && lasts_until t r.claim_expires_at))
    ≡ true

-- The rows keep their places and IDs, and one that is consumed or under the holder's claim is
-- unchanged.
abbrev pub KeepsClaims : Text → ℕ → List Snapshot → List Snapshot → Type 0
KeepsClaims holder t [] [] = Unit
KeepsClaims holder t [] (s ∷ ss) = ⊥
KeepsClaims holder t (r ∷ rs) [] = ⊥
KeepsClaims holder t (r ∷ rs) (s ∷ ss) =
    ((s.snapshot_id ≡ r.snapshot_id) × (IsKept holder t r → s ≡ r)) × KeepsClaims holder t rs ss

pub All-rows : {P : Snapshot → Type 0} (rows : List Snapshot) → ((r : Snapshot) → P r) → All P rows
All-rows [] h = tt
All-rows (r ∷ rows) h = (h r, All-rows rows h)

-- An update that passes over every kept row.
pub KeepsClaims-update_where :
    (holder : Text) (t : ℕ) (p : Snapshot → Bool) (f : Snapshot → Snapshot) (rows : List Snapshot)
    → ((r : Snapshot) → (f r).snapshot_id ≡ r.snapshot_id)
    → All (λ r. IsKept holder t r → p r ≡ false) rows
    → KeepsClaims holder t rows (update_where p f rows)
KeepsClaims-update_where holder t p f [] i h = tt
KeepsClaims-update_where holder t p f (r ∷ rows) i h =
    let rest = KeepsClaims-update_where holder t p f rows i h.1 in
    elim (Bool-cases (p r)) [
      | inl e ↦ rw e ((i r, λ k. ground (arith, h.0 k, e)), rest)
      | inr e ↦ rw e ((refl, λ k. refl), rest)
    ]

pub KeepsClaims-refl :
    (holder : Text) (t : ℕ) (rows : List Snapshot) → KeepsClaims holder t rows rows
KeepsClaims-refl holder t [] = tt
KeepsClaims-refl holder t (r ∷ rows) = ((refl, λ k. refl), KeepsClaims-refl holder t rows)

pub KeepsClaims-trans :
    (holder : Text) (t : ℕ) (rs ss us : List Snapshot)
    → KeepsClaims holder t rs ss
    → KeepsClaims holder t ss us
    → KeepsClaims holder t rs us
KeepsClaims-trans holder t [] [] us h k = k
KeepsClaims-trans holder t [] (s ∷ ss) us h k = elim h [ ]
KeepsClaims-trans holder t (r ∷ rs) [] us h k = elim h [ ]
KeepsClaims-trans holder t (r ∷ rs) (s ∷ ss) [] h k = elim k [ ]
KeepsClaims-trans holder t (r ∷ rs) (s ∷ ss) (u ∷ us) h k = (
  (k.0.0 ∙ h.0.0, λ kept. k.0.1 (subst (IsKept holder t) (sym (h.0.1 kept)) kept) ∙ h.0.1 kept),
  KeepsClaims-trans holder t rs ss us h.1 k.1,
)
