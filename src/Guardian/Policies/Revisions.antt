-- ===== src/Guardian/Policies/Revisions.antt =====
-- A patch of the policy in src/sub2api_mcp/guardian/service.py loses nobody's update.
use sub2_ddq.Prelude.{
  ℕ, ◌+◌, ◌≤◌, ◌<◌, Bool, true, false, Option, some, List, [], ◌∷◌, ◌==◌, ◌≡◌, refl, sym, subst,
  ◌⊎◌, inl, inr, ◌↔◌, arith, Bool-cases,
}
use sub2_ddq.Guardian.Policies.{PolicyRow, PolicyReply, update_policy, patch_policy}

module _ (P : Type 0) where
  -- Updates that others make, each with its policy and the revision that it expects.
  unfoldable pub run_updates : List (P × ℕ) → Option (PolicyRow P) → Option (PolicyRow P)
  run_updates [] s = s
  run_updates ((policy, expected) ∷ updates) s =
      run_updates updates (update_policy P policy expected s).0

  abbrev pub is_saved : PolicyReply P → Bool
  is_saved (PolicyReply.saved r) = true
  is_saved _ = false

  -- The row is the same, or its revision has grown.
  abbrev IsLater : PolicyRow P → Option (PolicyRow P) → Type 0
  IsLater r s = (s ≡ some r) ⊎ ((r' : PolicyRow P) × (s ≡ some r') × (r.revision < r'.revision))

  update_grows :
      (policy : P) (expected : ℕ) (r : PolicyRow P)
      → IsLater r (update_policy P policy expected (some r)).0
  unfolding update_policy
  update_grows policy expected r = elim (Bool-cases (r.revision == expected)) [
    | inl same ↦ rw same (inr (_, refl, ground (arith, same)))
    | inr other ↦ rw other (inl refl)
  ]

  run_grows : (updates : List (P × ℕ)) (r : PolicyRow P) → IsLater r (run_updates updates (some r))
  unfolding run_updates
  run_grows [] r = inl refl
  run_grows ((policy, expected) ∷ updates) r = elim (update_grows policy expected r) [
    | inl same ↦ subst (λ s. IsLater r (run_updates updates s)) (sym same) (run_grows updates r)
    | inr (r', is_r', more) ↦
        subst (λ s. IsLater r (run_updates updates s)) (sym is_r')
          (elim (run_grows updates r') [
            | inl same ↦ inr (r', same, more)
            | inr (r'', is_r'', further) ↦ inr (r'', is_r'', omega arith)
          ])
  ]

  saved_expected :
      (policy : P) (expected : ℕ) (r : PolicyRow P)
      → is_saved (update_policy P policy expected (some r)).1 ≡ true
      → r.revision ≡ expected
  unfolding update_policy
  saved_expected policy expected r h = elim (Bool-cases (r.revision == expected)) [
    | inl same ↦ ground (arith, same)
    | inr other ↦ absurd (ground (arith, other, h))
  ]

  saved_row :
      (policy : P) (expected : ℕ) (r : PolicyRow P)
      → r.revision ≡ expected
      → (update_policy P policy expected (some r)).0
        ≡ some (record { policy = policy; revision = r.revision + 1 })
  unfolding update_policy
  saved_row policy expected r e = ground (arith, e)

  patched :
      (policy : P) (expected : ℕ) (r : PolicyRow P) (s : Option (PolicyRow P))
      → expected ≤ r.revision
      → IsLater r s
      → is_saved (update_policy P policy expected s).1 ≡ true
      → (expected ≡ r.revision)
        × (s ≡ some r)
        × ((update_policy P policy expected s).0
            ≡ some (record { policy = policy; revision = r.revision + 1 }))
  patched policy expected r s le (inl same) h =
      let hit =
        saved_expected policy expected r
          (subst (λ x. is_saved (update_policy P policy expected x).1 ≡ true) same h) in
      (
        sym hit,
        same,
        subst
            (λ x.
              (update_policy P policy expected x).0
              ≡ some (record { policy = policy; revision = r.revision + 1 }))
            (sym same) (saved_row policy expected r hit),
      )
  patched policy expected r s le (inr (r', is_r', more)) h =
      let hit =
        saved_expected policy expected r'
          (subst (λ x. is_saved (update_policy P policy expected x).1 ≡ true) is_r' h) in
      absurd (omega arith)

  saves :
      (policy : P) (expected : ℕ) (r : PolicyRow P) (s : Option (PolicyRow P))
      → expected ≡ r.revision
      → s ≡ some r
      → is_saved (update_policy P policy expected s).1 ≡ true
  unfolding update_policy
  saves policy expected r s hit e = rw e (ground (arith, hit))

  -- No update is lost. The policy is read, others update it in the meantime, and the patch is
  -- written with a revision that the row had reached when it was read. The patch is saved exactly
  -- if it expects the revision that was read and the meantime left the row as it was, and the new
  -- row is then the patch of that row's policy, with the next revision.
  pub patch_policy-is_saved :
      (merge : P → P) (expected : ℕ) (updates : List (P × ℕ)) (r : PolicyRow P)
      → expected ≤ r.revision
      → (is_saved (patch_policy P merge expected (run_updates updates) (some r)).1 ≡ true) ↔ (
          (expected ≡ r.revision)
          × (run_updates updates (some r) ≡ some r)
          × ((patch_policy P merge expected (run_updates updates) (some r)).0
              ≡ some (record { policy = merge r.policy; revision = r.revision + 1 })))
  unfolding patch_policy
  patch_policy-is_saved merge expected updates r le =
      let later = run_updates updates (some r) in
      (
        λ h. patched (merge r.policy) expected r later le (run_grows updates r) h,
        λ (hit, same, row). saves (merge r.policy) expected r later hit same,
      )
