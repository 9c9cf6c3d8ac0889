-- ===== src/Jobs/Claims.antt =====
-- Which job a worker gets.
use sub2_ddq.Prelude.{
  Memᴰ, All-Memᴰ, All-keep_if_of_All, ◌≡◌, ◌<◌, ◌≤◌, ◌⊎◌, Bool, true, ◌&&◌, none, some, List, [],
  ◌∷◌, any, keep_if, find_first, sort_by, All, All-of_sort_by, All-sort_by, All-imp, IsOrder,
  IsSorted, sort_by-IsSorted, arith, All-keep_if, All-find_first, subst, Bool-cases, Option-cases,
  inl, inr,
}
use mathlib.Core.Option.{some_inj}
use sub2_ddq.Jobs.{Job, JobStatus, JobType, same_type, claim_order, claimable, first_claimable}

claim_order-IsOrder : IsOrder claim_order
claim_order-IsOrder = (λ a b. ground arith, λ a b c h k. ground (arith, h, k))

-- The job comes before another: it is older, or as old with an ID that is no greater.
abbrev pub IsBefore : Job → Job → Type 0
IsBefore j k =
    (j.created_at < k.created_at) ⊎ ((j.created_at ≡ k.created_at) × (j.job_id ≤ k.job_id))

-- The job waits, no other transaction has locked it, and a worker for the types takes it.
abbrev pub Waits : (Job → Bool) → List JobType → Job → Type 0
Waits visible types j =
    (j.status ≡ JobStatus.queued) × (visible j ≡ true) × (any (same_type j.job_type) types ≡ true)

order_lem : (j k : Job) → claim_order j k ≡ true → IsBefore j k
order_lem j k h = ground arith

nothing : (jobs : List Job) → find_first (λ j. true) jobs ≡ none → All (λ k. ⊥) jobs
nothing [] h = tt
nothing (k ∷ jobs) h = cc

module _ (visible : Job → Bool) (types : List JobType) where
  abbrev is_candidate : Job → Bool
  is_candidate j = visible j && claimable types j

  candidate_lem : (j : Job) → is_candidate j ≡ true → Waits visible types j
  candidate_lem j h = ground arith

  waits_lem : (j : Job) → Waits visible types j → is_candidate j ≡ true
  waits_lem j (q, seen, type) = ground arith

  first_of_sorted :
      (jobs : List Job) (j : Job)
      → IsSorted claim_order jobs
      → find_first (λ j. true) jobs ≡ some j
      → All (λ k. claim_order j k ≡ true) jobs
  first_of_sorted [] j s h = cc
  first_of_sorted (k ∷ jobs) j s h =
      let same : k ≡ j = some_inj.0 h in
      subst (λ m. All (λ k. claim_order m k ≡ true) (k ∷ jobs)) same (ground (arith, s), s.0)

  -- What holds of the kept items holds of every item that passes the test.
  All-of_keep_if :
      (P : Job → Type 0) (jobs : List Job)
      → All P (keep_if is_candidate jobs)
      → All (λ k. is_candidate k ≡ true → P k) jobs
  All-of_keep_if P [] h = tt
  All-of_keep_if P (k ∷ jobs) h = elim (Bool-cases (is_candidate k)) [
    | inl e ↦
        let kept : P k × All P (keep_if is_candidate jobs) = rw e at h in
        (λ c. kept.0, All-of_keep_if P jobs kept.1)
    | inr e ↦
        let kept : All P (keep_if is_candidate jobs) = rw e at h in
        (λ c. absurd (ground (arith, c, e)), All-of_keep_if P jobs kept)
  ]

  nobody_left :
      (jobs : List Job)
      → find_first (λ j. true) (sort_by claim_order (keep_if is_candidate jobs)) ≡ none
      → All (λ k. Waits visible types k → ⊥) jobs
  nobody_left jobs h =
      let found = keep_if is_candidate jobs in
      let empty : All (λ k. ⊥) found =
        All-of_sort_by claim_order (λ k. ⊥) found (nothing (sort_by claim_order found) h) in
      All-imp _ _ jobs (λ k no waits. no (waits_lem k waits)) (All-of_keep_if (λ k. ⊥) jobs empty)

  -- A claim takes the first of the jobs that wait. Where it finds a job, that is a job of the
  -- table that waits, before every job that waits, by creation time and then by ID; where it finds
  -- none, none waits. A job waits if it is queued, not locked by another transaction, and of one of
  -- the types.
  pub first_claimable-first :
      (jobs : List Job)
      → ((j : Job) × (first_claimable visible types jobs ≡ some j)
          × Memᴰ j jobs
          × Waits visible types j
          × All (λ k. Waits visible types k → IsBefore j k) jobs)
        ⊎ ((first_claimable visible types jobs ≡ none) × All (λ k. Waits visible types k → ⊥) jobs)
  unfolding first_claimable
  first_claimable-first jobs =
      let found = keep_if is_candidate jobs in
      let sorted = sort_by claim_order found in
      elim (Option-cases (find_first (λ j. true) sorted)) [
        | inl e ↦ inr (e, nobody_left jobs e)
        | inr (j, e) ↦
            let mine : is_candidate j ≡ true =
              All-find_first (λ k. is_candidate k ≡ true) (λ j. true) sorted j
                (All-sort_by (λ k. is_candidate k ≡ true) claim_order found
                  (All-keep_if is_candidate jobs))
                e in
            let there : Memᴰ j jobs =
              All-find_first (λ k. Memᴰ k jobs) (λ j. true) sorted j
                (All-sort_by (λ k. Memᴰ k jobs) claim_order found
                  (All-keep_if_of_All (λ k. Memᴰ k jobs) is_candidate jobs (All-Memᴰ jobs)))
                e in
            let first : All (λ k. claim_order j k ≡ true) found =
              All-of_sort_by claim_order (λ k. claim_order j k ≡ true) found
                (first_of_sorted sorted j (sort_by-IsSorted claim_order claim_order-IsOrder found)
                  e) in
            inl (
              j,
              e,
              there,
              candidate_lem j mine,
              All-imp _ _ jobs (λ k c waits. order_lem j k (c (waits_lem k waits)))
                  (All-of_keep_if (λ k. claim_order j k ≡ true) jobs first),
            )
      ]
