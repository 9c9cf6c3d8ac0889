-- ===== src/Storage/Leases/Examples.antt =====
-- Leases of concrete owners.
use sub2_ddq.Prelude.{◌+◌, ◌≡◌, ◌⊎◌, refl, true, false, none, some, [], ◌∷◌, codes, arith}
use sub2_ddq.Guardian.Contracts.{seconds}
use sub2_ddq.Storage.Leases.{Lease, acquire_lease, acquire_read, is_held}
use sub2_ddq.Storage.Leases.Exclusive.{
  LeaseOp, acquire_lease_iff, acquire_read_race, run_leases, run_leases_exclusive,
}

abbrev lease : Lease
lease = record { owner = codes "a"; expires_at = seconds 100 }

run_leases_exclusive_example :
    run_leases
      (LeaseOp.acquire (codes "b") (seconds 50) 120 ∷ LeaseOp.release (codes "b") ∷ [])
      (some lease)
    ≡ (some lease, false)
run_leases_exclusive_example =
    run_leases_exclusive lease
      (LeaseOp.acquire (codes "b") (seconds 50) 120 ∷ LeaseOp.release (codes "b") ∷ [])
      ((refl, omega arith), (refl, tt))

acquire_lease_iff_example :
    let (next, got) = acquire_lease (codes "b") (seconds 150) 120 (some lease) in
    ((got ≡ true)
      × (is_held (some lease) (codes "b") (seconds 150) ≡ false)
      × (next ≡ some (record { owner = codes "b"; expires_at = seconds 150 + seconds 120 })))
    ⊎ ((got ≡ false)
        × (is_held (some lease) (codes "b") (seconds 150) ≡ true)
        × (next ≡ some lease))
acquire_lease_iff_example = acquire_lease_iff (codes "b") (seconds 150) 120 (some lease)

acquire_read_race_example :
    let (middle, got_first) = acquire_read none (codes "a") (seconds 1) 120 none in
    let (last, got_second) = acquire_read none (codes "b") (seconds 2) 120 middle in
    (got_first ≡ true)
    × (got_second ≡ true)
    × (last ≡ some (record { owner = codes "b"; expires_at = seconds 2 + seconds 120 }))
acquire_read_race_example = acquire_read_race (codes "a") (codes "b") (seconds 1) (seconds 2) 120
