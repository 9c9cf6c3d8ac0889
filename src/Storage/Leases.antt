-- ===== src/Storage/Leases.antt =====
-- The leases of src/sub2api_mcp/guardian/repository.py and src/sub2api_mcp/repository.py. All three
-- tables have one row for a key, and the scheduler's and the account control's have one key, so the
-- model is the row of a key. Times are microseconds.
pub mod Exclusive
mod Examples
use sub2_ddq.Prelude.{
  ℕ, ◌+◌, Bool, true, false, ◌&&◌, not, Option, none, some, List, [], ◌∷◌, Text, text_eq, ltb,
  if◌then◌else◌,
}
use sub2_ddq.Guardian.Contracts.{seconds}

pub record Lease : Type 0 where
  pub owner : Text
  pub expires_at : ℕ

-- `row is not None and row["owner"] != owner and row["expires_at"] > now`
unfoldable pub is_held : Option Lease → Text → ℕ → Bool
is_held none owner now = false
is_held (some l) owner now = not (text_eq l.owner owner) && ltb now l.expires_at

-- The insert that updates the row on a conflict.
abbrev pub upsert_lease : Text → ℕ → ℕ → Option Lease → Option Lease
upsert_lease owner now lease_seconds row =
    some (record { owner = owner; expires_at = now + seconds lease_seconds })

-- The transaction from its read on: the row it has read, and the row that it meets at its insert.
unfoldable pub acquire_read : Option Lease → Text → ℕ → ℕ → Option Lease → Option Lease × Bool
acquire_read read owner now lease_seconds row =
    if is_held read owner now
    then (row, false)
    else (upsert_lease owner now lease_seconds row, true)

-- `acquire_lease`, `acquire_scheduler_lease` and `acquire_account_control_lease` with the row locked
-- from the read on.
unfoldable pub acquire_lease : Text → ℕ → ℕ → Option Lease → Option Lease × Bool
acquire_lease owner now lease_seconds row = acquire_read row owner now lease_seconds row

-- `release_lease` and `release_account_control_lease`
unfoldable pub release_lease : Text → Option Lease → Option Lease
release_lease owner none = none
release_lease owner (some l) = if text_eq l.owner owner then none else some l
