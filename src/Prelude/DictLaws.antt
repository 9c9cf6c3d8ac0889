-- ===== src/Prelude/DictLaws.antt =====
-- What `put` and `remove` do to every lookup and to the number of entries, as equations.
use Prim.Native.Nat.{ℕ, ◌+◌}
use mathlib.Core.Path.{◌≡◌, refl, subst, sym}
use mathlib.Core.Logic.{inl, inr}
use mathlib.Core.Bool.{false}
use mathlib.Core.Option.{none, some}
use mathlib.Core.List.{[], ◌∷◌}
use native.Mathlib.Omega.{arith}
use sub2_ddq.Prelude.Lists.{length, elem}
use sub2_ddq.Prelude.Tests.{◌==◌, if◌then◌else◌, Bool-cases, ==_iff, is_some}
use sub2_ddq.Prelude.Dicts.{Dict, get, put, remove, keys, HasUniqueKeys}

module _ {ℓ} {A : Type ℓ} where
  pub get-put_if :
      (j k : ℕ) (v : A) (d : Dict A) → get j (put k v d) ≡ (if j == k then some v else get j d)
  get-put_if j k v [] = ground arith
  get-put_if j k v (e ∷ d) = ground (arith, get-put_if j k v d)

  pub get-remove_if :
      (j k : ℕ) (d : Dict A) → get j (remove k d) ≡ (if j == k then none else get j d)
  get-remove_if j k [] = ground arith
  get-remove_if j k (e ∷ d) = ground (arith, get-remove_if j k d)

  -- A key that is there is overwritten in place.
  pub length-put_lem :
      (k : ℕ) (v : A) (d : Dict A)
      → length (put k v d) ≡ length d + (if is_some (get k d) then 0 else 1)
  length-put_lem k v [] = omega arith
  length-put_lem k v (e ∷ d) = ground (arith, length-put_lem k v d)

  elem-keys-get : (k : ℕ) (d : Dict A) → elem k (keys d) ≡ is_some (get k d)
  elem-keys-get k [] = refl
  elem-keys-get k (e ∷ d) = ground (arith, elem-keys-get k d)

  remove_absent : (k : ℕ) (d : Dict A) → elem k (keys d) ≡ false → remove k d ≡ d
  remove_absent k [] h = refl
  remove_absent k (e ∷ d) h = ground (arith, remove_absent k d)

  elem-keys-remove :
      (j k : ℕ) (d : Dict A) → elem j (keys d) ≡ false → elem j (keys (remove k d)) ≡ false
  elem-keys-remove j k [] h = refl
  elem-keys-remove j k (e ∷ d) h = ground (arith, elem-keys-remove j k d)

  pub HasUniqueKeys-remove : (k : ℕ) (d : Dict A) → HasUniqueKeys d → HasUniqueKeys (remove k d)
  HasUniqueKeys-remove k [] u = refl
  HasUniqueKeys-remove k (e ∷ d) u =
      ground (arith, HasUniqueKeys-remove k d, elem-keys-remove e.0 k d)

  -- With unique keys a removal takes at most one entry.
  pub length-remove_lem :
      (k : ℕ) (d : Dict A)
      → HasUniqueKeys d
      → length (remove k d) + (if is_some (get k d) then 1 else 0) ≡ length d
  length-remove_lem k [] u = omega arith
  length-remove_lem k (e ∷ d) u = elim (Bool-cases (k == e.0)) [
    | inl s ↦
        let gone : elem k (keys d) ≡ false =
          subst (λ j. elem j (keys d) ≡ false) (sym ((==_iff k e.0).0 s)) (ground arith) in
        ground (arith, remove_absent k d gone)
    | inr s ↦ ground (arith, length-remove_lem k d)
  ]
