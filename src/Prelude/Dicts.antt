-- ===== src/Prelude/Dicts.antt =====
-- Python dictionaries with numbers as keys: association lists in the order of insertion.
use Prim.Native.Nat.{ℕ, ◌+◌, ◌≤◌}
use mathlib.Core.Path.{◌≡◌, refl, subst, sym, ◌∙◌}
use mathlib.Core.Logic.{◌⊎◌, inl, inr}
use mathlib.Core.Bool.{false, ◌||◌}
use mathlib.Core.Option.{Option, none, some, some_inj}
use mathlib.Core.List.{List, [], ◌∷◌, map}
use native.Mathlib.Omega.{arith}
use sub2_ddq.Prelude.Lists.{length, All, All-and, All-imp, elem, has_duplicates}
use sub2_ddq.Prelude.Tests.{◌==◌, if◌then◌else◌, Bool-cases, ==_iff}

abbrev pub Dict {ℓ} : Type ℓ → Type ℓ
Dict A = List (ℕ × A)

module _ {ℓ} {A : Type ℓ} where
  -- `d.get(k)`
  abbrev pub get : ℕ → Dict A → Option A
  get k [] = none
  get k (e ∷ d) = let rest = get k d in if k == e.0 then some e.1 else rest

  -- `d[k] = v`: in place if the key is there, else at the end.
  abbrev pub put : ℕ → A → Dict A → Dict A
  put k v [] = (k, v) ∷ []
  put k v (e ∷ d) = let rest = put k v d in if k == e.0 then (k, v) ∷ d else e ∷ rest

  pub get-put : (k : ℕ) (v : A) (d : Dict A) → get k (put k v d) ≡ some v
  get-put k v [] = ground arith
  get-put k v (e ∷ d) = ground (arith, get-put k v d)

  pub get-put_other :
      (j k : ℕ) (v : A) (d : Dict A) → (j == k) ≡ false → get j (put k v d) ≡ get j d
  get-put_other j k v [] h = ground arith
  get-put_other j k v (e ∷ d) h = ground (arith, get-put_other j k v d h)

-- `d.get(k, 0)`
abbrev pub get_count : ℕ → Dict ℕ → ℕ
get_count k d = elim (get k d) [ none ↦ 0 | some n ↦ n ]

-- `d[k] = d.get(k, 0) + n` adds `n` at `k` alone.
pub get_count-put :
    (g k n : ℕ) (d : Dict ℕ)
    → get_count g (put k (get_count k d + n) d) ≡ get_count g d + (if g == k then n else 0)
get_count-put g k n d = elim (Bool-cases (g == k)) [
  | inl e ↦
      let same = (==_iff g k).0 e in
      subst
        (λ k. get_count g (put k (get_count k d + n) d) ≡ get_count g d + (if g == k then n else 0))
        same (ground (arith, get-put g (get_count g d + n) d))
  | inr e ↦ ground (arith, get-put_other g k (get_count k d + n) d e)
]

module _ {ℓ} {A : Type ℓ} where
  abbrev pub keys : Dict A → List ℕ
  keys d = map (λ e. e.0) d

  -- Each key stands once.
  abbrev pub HasUniqueKeys : Dict A → Type 0
  HasUniqueKeys d = has_duplicates (keys d) ≡ false

  elem-keys-put :
      (j k : ℕ) (v : A) (d : Dict A) → elem j (keys (put k v d)) ≡ (j == k || elem j (keys d))
  elem-keys-put j k v [] = ground arith
  elem-keys-put j k v (e ∷ d) = ground (arith, elem-keys-put j k v d)

  pub HasUniqueKeys-put : (k : ℕ) (v : A) (d : Dict A) → HasUniqueKeys d → HasUniqueKeys (put k v d)
  HasUniqueKeys-put k v [] u = refl
  HasUniqueKeys-put k v (e ∷ d) u = elim (Bool-cases (k == e.0)) [
    | inl s ↦ rw s (subst (λ j. has_duplicates (j ∷ keys d) ≡ false) (sym ((==_iff k e.0).0 s)) u)
    | inr s ↦ ground (arith, elem-keys-put e.0 k v d, HasUniqueKeys-put k v d)
  ]

  other_keys : (k : ℕ) (d : Dict A) → elem k (keys d) ≡ false → All (λ e. (e.0 == k) ≡ false) d
  other_keys k [] h = tt
  other_keys k (e ∷ d) h = (ground arith, other_keys k d (ground arith))

  -- Every entry is what its key gives.
  pub All-get : (d : Dict A) → HasUniqueKeys d → All (λ e. get e.0 d ≡ some e.1) d
  All-get [] u = tt
  All-get (e ∷ d) u = (
    ground arith,
    All-imp _ _ d (λ x h. ground (arith, h))
        (All-and _ _ d (All-get d (ground arith)) (other_keys e.0 d (ground arith))),
  )

pub get_count-some : (k : ℕ) (d : Dict ℕ) (n : ℕ) → get k d ≡ some n → get_count k d ≡ n
get_count-some k d n h = ground (arith, h)

module _ {ℓ} {A : Type ℓ} where
  -- `d.pop(k, None)`
  abbrev pub remove : ℕ → Dict A → Dict A
  remove k [] = []
  remove k (e ∷ d) = let rest = remove k d in if k == e.0 then rest else e ∷ rest

  pub get-remove : (k : ℕ) (d : Dict A) → get k (remove k d) ≡ none
  get-remove k [] = refl
  get-remove k (e ∷ d) = ground (arith, get-remove k d)

  pub get-remove_other : (j k : ℕ) (d : Dict A) → (j == k) ≡ false → get j (remove k d) ≡ get j d
  get-remove_other j k [] h = refl
  get-remove_other j k (e ∷ d) h = ground (arith, get-remove_other j k d h)

  pub length-remove : (k : ℕ) (d : Dict A) → length (remove k d) ≤ length d
  length-remove k [] = omega arith
  length-remove k (e ∷ d) = ground (arith, length-remove k d)

  pub length-put : (k : ℕ) (v : A) (d : Dict A) → length (put k v d) ≤ length d + 1
  length-put k v [] = omega arith
  length-put k v (e ∷ d) = ground (arith, length-put k v d)

  -- What a dictionary with an entry put or removed holds.
  pub get-put_cases :
      (j k : ℕ) (v x : A) (d : Dict A)
      → get j (put k v d) ≡ some x
      → ((j ≡ k) × (x ≡ v)) ⊎ (((j == k) ≡ false) × (get j d ≡ some x))
  get-put_cases j k v x d h = elim (Bool-cases (j == k)) [
    | inl e ↦
        let same = (==_iff j k).0 e in
        inl (
          same,
          some_inj.0 (sym h ∙ subst (λ i. get i (put k v d) ≡ some v) (sym same) (get-put k v d)),
        )
    | inr e ↦ inr (e, sym (get-put_other j k v d e) ∙ h)
  ]

  pub get-remove-some :
      (j k : ℕ) (x : A) (d : Dict A)
      → get j (remove k d) ≡ some x
      → ((j == k) ≡ false) × (get j d ≡ some x)
  get-remove-some j k x d h = elim (Bool-cases (j == k)) [
    | inl e ↦
        let gone =
          subst (λ i. get i (remove k d) ≡ none) (sym ((==_iff j k).0 e)) (get-remove k d) in
        ground (arith, gone, h)
    | inr e ↦ (e, sym (get-remove_other j k d e) ∙ h)
  ]

  -- Keys with different answers differ.
  pub get_apart :
      (j k : ℕ) (x y : Option A) (d : Dict A)
      → get j d ≡ x
      → get k d ≡ y
      → (x ≡ y → ⊥)
      → (j == k) ≡ false
  get_apart j k x y d h i n = elim (Bool-cases (j == k)) [
    | inl e ↦ elim (n (sym h ∙ subst (λ i. get i d ≡ y) (sym ((==_iff j k).0 e)) i)) [ ]
    | inr e ↦ e
  ]
