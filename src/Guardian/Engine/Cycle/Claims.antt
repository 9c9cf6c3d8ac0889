-- ===== src/Guardian/Engine/Cycle/Claims.antt =====
-- The claims of one owner in the snapshots of src/sub2api_mcp/guardian/repository.py.
use sub2_ddq.Prelude.{
  ℕ, Bool, true, false, not, ◌&&◌, ◌||◌, Option, none, some, List, [], ◌∷◌, Text, text_eq, Dict,
  get, put, get-put, all, ◌≡◌, refl, arith,
}
use sub2_ddq.Storage.Leases.{Lease}
use sub2_ddq.Storage.Snapshots.{
  Snapshot, consume_input_snapshot, release_input_snapshot, claims, is_open, is_claim_of,
  supersede_but, is_superseded, update_where, consumed, claimed_by,
}
use sub2_ddq.Guardian.Engine.Cycle.{Run, RunStatus, RunError, is_running, release_claim}

abbrev pub owns_lease : Text → Option Lease → Bool
owns_lease owner none = false
owns_lease owner (some l) = text_eq l.owner owner

-- An open snapshot of which the owner has the claim.
abbrev pub is_mine : Text → Snapshot → Bool
is_mine owner r = claims owner r.claim_owner && is_open r

abbrev pub is_claimed_row : Option Text → Snapshot → Bool
is_claimed_row none r = false
is_claimed_row (some id) r = text_eq r.snapshot_id id

-- The owner has no claim but that of the one snapshot.
abbrev pub claims_at_most : Text → Option Text → List Snapshot → Bool
claims_at_most owner claim rows = all (λ r. not (is_mine owner r) || is_claimed_row claim r) rows

-- The run is there, and no longer running.
abbrev pub has_ended : Option Run → Bool
has_ended none = false
has_ended (some r) = not (is_running r.status)

pub releases :
    (owner id : Text) (rows : List Snapshot)
    → claims_at_most owner (some id) rows ≡ true
    → claims_at_most owner none (release_input_snapshot id owner rows) ≡ true
unfolding release_input_snapshot is_claim_of
releases owner id [] h = refl
releases owner id (r ∷ rows) h = ground (arith, releases owner id rows, h)

pub releases_claim :
    (owner : Text) (claim : Option Text) (rows : List Snapshot)
    → claims_at_most owner claim rows ≡ true
    → claims_at_most owner none (release_claim owner claim rows) ≡ true
releases_claim owner none rows h = h
releases_claim owner (some id) rows h = releases owner id rows h

pub consumes :
    (owner id : Text) (now : ℕ) (rows : List Snapshot)
    → claims_at_most owner (some id) rows ≡ true
    → claims_at_most owner none (consume_input_snapshot id owner now rows).0 ≡ true
unfolding consume_input_snapshot is_claim_of
consumes owner id now [] h = refl
consumes owner id now (r ∷ rows) h = ground (arith, consumes owner id now rows, h)

pub weaker :
    (owner : Text) (claim : Option Text) (rows : List Snapshot)
    → claims_at_most owner none rows ≡ true
    → claims_at_most owner claim rows ≡ true
weaker owner claim [] h = refl
weaker owner claim (r ∷ rows) h = ground (arith, weaker owner claim rows, h)

supersedes_rows :
    (owner : Text) (p : Snapshot → Bool) (now : ℕ) (rows : List Snapshot)
    → claims_at_most owner none rows ≡ true
    → claims_at_most owner none (update_where p (consumed now) rows) ≡ true
supersedes_rows owner p now [] h = refl
supersedes_rows owner p now (r ∷ rows) h = ground (arith, supersedes_rows owner p now rows, h)

pub supersedes :
    (owner : Text) (now cutoff : ℕ) (rows : List Snapshot) (latest : Option Snapshot)
    → claims_at_most owner none rows ≡ true
    → claims_at_most owner none (supersede_but now cutoff rows latest).0 ≡ true
supersedes owner now cutoff rows none h = h
supersedes owner now cutoff rows (some r) h =
    supersedes_rows owner (is_superseded now cutoff r.snapshot_id) now rows h

pub claims_row :
    (owner id : Text) (expires : ℕ) (rows : List Snapshot)
    → claims_at_most owner none rows ≡ true
    → claims_at_most owner
        (some id)
        (update_where (λ s. text_eq s.snapshot_id id && is_open s) (claimed_by owner expires) rows)
      ≡ true
claims_row owner id expires [] h = refl
claims_row owner id expires (r ∷ rows) h = ground (arith, claims_row owner id expires rows, h)

pub ended_after :
    (id : ℕ) (status : RunStatus) (error : Option RunError) (runs : Dict Run) (r : Run)
    → is_running status ≡ false
    → has_ended (get id (put id (record r { status = status; error_code = error }) runs)) ≡ true
ended_after id status error runs r h =
    rw (get-put id (record r { status = status; error_code = error }) runs, h) refl
