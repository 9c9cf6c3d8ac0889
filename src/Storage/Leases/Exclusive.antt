-- ===== src/Storage/Leases/Exclusive.antt =====
-- Who can hold a lease at the same time.
use sub2_ddq.Prelude.{
  ℕ, ◌+◌, ◌<◌, ◌≡◌, ◌⊎◌, refl, Bool, true, false, Option, none, some, List, [], ◌∷◌, Text, text_eq,
  if◌then◌else◌, All, arith,
}
use sub2_ddq.Guardian.Contracts.{seconds}
use sub2_ddq.Storage.Leases.{Lease, acquire_lease, acquire_read, is_held, release_lease}

-- An operation on the row of a lease.
pub data LeaseOp : Type 0 where
  acquire : (owner : Text) (now lease_seconds : ℕ) → LeaseOp
  release : (owner : Text) → LeaseOp

-- The operations in order: the row they leave, and whether one of them acquired the lease.
unfoldable pub run_leases : List LeaseOp → Option Lease → Option Lease × Bool
run_leases [] row = (row, false)
run_leases (LeaseOp.acquire owner now lease_seconds ∷ ops) row =
    let (next, got) = acquire_lease owner now lease_seconds row in
    let (last, later) = run_leases ops next in (last, if got then true else later)
run_leases (LeaseOp.release owner ∷ ops) row = run_leases ops (release_lease owner row)

-- An operation of another owner, and before the time.
abbrev pub ByOther : Text → ℕ → LeaseOp → Type 0
ByOther holder t (LeaseOp.acquire owner now lease_seconds) =
    (text_eq holder owner ≡ false) × (now < t)
ByOther holder t (LeaseOp.release owner) = text_eq holder owner ≡ false

-- As long as a lease has not expired, no sequence of operations of other owners takes it: the row
-- stays what it is, and none of them is told that it holds the lease.
pub run_leases_exclusive :
    (l : Lease) (ops : List LeaseOp)
    → All (ByOther l.owner l.expires_at) ops
    → run_leases ops (some l) ≡ (some l, false)
unfolding run_leases acquire_lease acquire_read is_held release_lease
run_leases_exclusive l [] h = refl
run_leases_exclusive l (LeaseOp.acquire owner now lease_seconds ∷ ops) h =
    ground (arith, h.0, run_leases_exclusive l ops h.1)
run_leases_exclusive l (LeaseOp.release owner ∷ ops) h =
    ground (arith, h.0, run_leases_exclusive l ops h.1)

-- An owner gets the lease exactly if no one else holds it, or the lease has expired, or the owner
-- holds it already; then it is the owner's until the seconds are over, and else the row is kept.
pub acquire_lease_iff :
    (owner : Text) (now lease_seconds : ℕ) (row : Option Lease)
    → let (next, got) = acquire_lease owner now lease_seconds row in
      ((got ≡ true)
        × (is_held row owner now ≡ false)
        × (next ≡ some (record { owner = owner; expires_at = now + seconds lease_seconds })))
      ⊎ ((got ≡ false) × (is_held row owner now ≡ true) × (next ≡ row))
unfolding acquire_lease acquire_read
acquire_lease_iff owner now lease_seconds row = ground arith

-- With no row for the key the lock of the read locks nothing: two owners that both read before
-- either inserts are both told that they hold the lease, and the row is the later one's.
pub acquire_read_race :
    (first second : Text) (now later lease_seconds : ℕ)
    → let (middle, got_first) = acquire_read none first now lease_seconds none in
      let (last, got_second) = acquire_read none second later lease_seconds middle in
      (got_first ≡ true)
      × (got_second ≡ true)
      × (last ≡ some (record { owner = second; expires_at = later + seconds lease_seconds }))
unfolding acquire_read is_held
acquire_read_race first second now later lease_seconds = (refl, refl, refl)
