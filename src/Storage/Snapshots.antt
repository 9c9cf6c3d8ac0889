-- ===== src/Storage/Snapshots.antt =====
-- The queue of input snapshots in src/sub2api_mcp/guardian/repository.py: the table
-- `guardian_input_snapshots` and the operations that supersede, claim, consume and release a row.
pub mod Steps
pub mod Claims
mod Examples
use sub2_ddq.Prelude.{
  ℕ, ◌+◌, Bool, true, false, ◌&&◌, ◌||◌, not, Option, none, some, List, [], ◌∷◌, map, max, Text,
  text_eq, text_leb, ltb, leb, ◌==◌, if◌then◌else◌, keep_if, find_first, sort_by, count, is_some,
  length,
}
use sub2_ddq.Guardian.Contracts.{Moment, seconds}

-- A row, without the payload's columns, which no operation here changes.
pub record Snapshot : Type 0 where
  pub snapshot_id : Text
  pub captured_at : ℕ
  pub claim_owner : Option Text
  pub claim_expires_at : Option ℕ
  pub consumed_at : Option ℕ

-- `UPDATE guardian_input_snapshots SET ... WHERE ...`
abbrev pub update_where : (Snapshot → Bool) → (Snapshot → Snapshot) → List Snapshot → List Snapshot
update_where p f rows = map (λ r. if p r then f r else r) rows

abbrev pub is_open : Snapshot → Bool
is_open r = not (is_some r.consumed_at)

abbrev pub expired_by : ℕ → Option ℕ → Bool
expired_by now none = false
expired_by now (some t) = leb t now

-- `claim_owner IS NULL OR claim_expires_at <= now`; a comparison with NULL does not hold.
unfoldable pub is_free : ℕ → Snapshot → Bool
is_free now r = not (is_some r.claim_owner) || expired_by now r.claim_expires_at

abbrev pub unclaimed : Snapshot → Snapshot
unclaimed r = record r { claim_owner = none; claim_expires_at = none }

abbrev pub consumed : ℕ → Snapshot → Snapshot
consumed now r = record r { consumed_at = some now; claim_owner = none; claim_expires_at = none }

-- `ORDER BY captured_at, snapshot_id`
abbrev pub capture_order : Snapshot → Snapshot → Bool
capture_order a b =
    ltb a.captured_at b.captured_at
    || (a.captured_at == b.captured_at && text_leb a.snapshot_id b.snapshot_id)

abbrev pub newest_first : Snapshot → Snapshot → Bool
newest_first a b = capture_order b a

-- The first row of a query in an order.
abbrev pub first_row : List Snapshot → Option Snapshot
first_row rows = find_first (λ r. true) rows

-- The rows that `supersede_expired_input_snapshots` consumes.
unfoldable pub is_superseded : ℕ → ℕ → Text → Snapshot → Bool
is_superseded now cutoff latest r =
    is_open r && ltb r.captured_at cutoff && not (text_eq r.snapshot_id latest) && is_free now r

abbrev pub supersede_but : ℕ → ℕ → List Snapshot → Option Snapshot → List Snapshot × ℕ
supersede_but now cutoff rows none = (rows, 0)
supersede_but now cutoff rows (some latest) =
    let p = is_superseded now cutoff latest.snapshot_id in
    (update_where p (consumed now) rows, count p rows)

-- `supersede_expired_input_snapshots`, for a cutoff with a zone.
unfoldable pub supersede_expired_input_snapshots : ℕ → ℕ → List Snapshot → List Snapshot × ℕ
supersede_expired_input_snapshots now cutoff rows =
    supersede_but now cutoff rows (first_row (sort_by newest_first (keep_if is_open rows)))

abbrev pub claimed_by : Text → ℕ → Snapshot → Snapshot
claimed_by owner expires r = record r { claim_owner = some owner; claim_expires_at = some expires }

unfoldable pub is_claimable : (Snapshot → Bool) → ℕ → Snapshot → Bool
is_claimable visible now r = visible r && (is_open r && is_free now r)

abbrev pub claim_row : Text → ℕ → List Snapshot → Option Snapshot → List Snapshot × Option Snapshot
claim_row owner expires rows none = (rows, none)
claim_row owner expires rows (some r) = (
  update_where (λ s. text_eq s.snapshot_id r.snapshot_id && is_open s) (claimed_by owner expires)
      rows,
  some r,
)

-- `claim_input_snapshot` of an owner with a valid name; `visible` tells the rows that no other
-- transaction has locked. The answer is the row whose payload is handed out.
unfoldable pub claim_input_snapshot :
    (Snapshot → Bool) → Text → ℕ → ℕ → List Snapshot → List Snapshot × Option Snapshot
claim_input_snapshot visible owner now lease_seconds rows =
    claim_row owner (now + seconds (max 1 lease_seconds)) rows
      (first_row (sort_by capture_order (keep_if (is_claimable visible now) rows)))

abbrev pub claims : Text → Option Text → Bool
claims owner none = false
claims owner (some o) = text_eq o owner

-- `snapshot_id = ... AND claim_owner = ... AND consumed_at IS NULL`
unfoldable pub is_claim_of : Text → Text → Snapshot → Bool
is_claim_of id owner r = text_eq r.snapshot_id id && claims owner r.claim_owner && is_open r

-- `consume_input_snapshot`
unfoldable pub consume_input_snapshot : Text → Text → ℕ → List Snapshot → List Snapshot × Bool
consume_input_snapshot id owner now rows = (
  update_where (is_claim_of id owner) (consumed now) rows,
  count (is_claim_of id owner) rows == 1,
)

-- `release_input_snapshot`
unfoldable pub release_input_snapshot : Text → Text → List Snapshot → List Snapshot
release_input_snapshot id owner rows = update_where (is_claim_of id owner) unclaimed rows
