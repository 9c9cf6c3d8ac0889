-- ===== src/Guardian/Policies/Examples.antt =====
-- A policy that is a number, and a patch that adds 1.
use sub2_ddq.Prelude.{ℕ, ◌+◌, true, none, some, List, [], ◌∷◌, ◌≡◌, refl, ◌↔◌, arith}
use sub2_ddq.Guardian.Policies.{
  PolicyRow, PolicyReply, initialize_policy, update_policy, patch_policy,
}
use sub2_ddq.Guardian.Policies.Revisions.{run_updates, is_saved, patch_policy-is_saved}

abbrev row : PolicyRow ℕ
row = record { policy = 40; revision = 3 }

abbrev expected : ℕ
expected = 3

-- Another update that comes with an old revision.
abbrev updates : List (ℕ × ℕ)
updates = (7, 2) ∷ []

patch_policy-is_saved_example :
    (is_saved ℕ (patch_policy ℕ (λ n. n + 1) expected (run_updates ℕ updates) (some row)).1 ≡ true)
    ↔ ((expected ≡ row.revision)
        × (run_updates ℕ updates (some row) ≡ some row)
        × ((patch_policy ℕ (λ n. n + 1) expected (run_updates ℕ updates) (some row)).0
            ≡ some (record { policy = 41; revision = 4 })))
patch_policy-is_saved_example =
    patch_policy-is_saved ℕ (λ n. n + 1) expected updates row (omega arith)

patch_is_saved :
    is_saved ℕ (patch_policy ℕ (λ n. n + 1) expected (run_updates ℕ updates) (some row)).1 ≡ true
unfolding patch_policy run_updates update_policy
patch_is_saved = refl

-- An update in the meantime makes the patch a conflict.
patch_conflicts :
    (patch_policy ℕ (λ n. n + 1) 1 (run_updates ℕ ((9, 1) ∷ [])) (initialize_policy ℕ 5 none)).1
    ≡ PolicyReply.revision_conflict
unfolding patch_policy run_updates update_policy initialize_policy
patch_conflicts = refl
