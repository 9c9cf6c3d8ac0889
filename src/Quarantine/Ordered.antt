-- ===== src/Quarantine/Ordered.antt =====
-- The rows that a listing of the quarantine tables orders: strictly ordered, readable, and as many
-- as the table holds.
use sub2_ddq.Prelude.{
  ℕ, suc, Bool, true, false, not, ◌||◌, some, List, [], ◌∷◌, map, Dict, ◌==◌, all, any, elem,
  insert_by, sort_by, length, ◌≡◌, refl, ap, inl, inr, arith, Bool-cases, All, All-imp, All-get,
  All-sort_by, All-insert_by, keys, get, HasUniqueKeys, is_some,
}
use sub2_ddq.Storage.Paging.Complete.{IsStrictlySorted}

module _ {ℓ} {A : Type ℓ} (lt : A → A → Bool) where
  -- Every two items compare.
  pub IsApart : List A → Type 0
  IsApart [] = Unit
  IsApart (x ∷ xs) = All (λ y. (lt x y || lt y x) ≡ true) xs × IsApart xs

module _ {ℓ} {A : Type ℓ} (lt : A → A → Bool)
    (transitive : (a b c : A) → lt a b ≡ true → lt b c ≡ true → lt a c ≡ true) where
  insert_by-IsStrictlySorted :
      (x : A) (xs : List A)
      → All (λ y. (lt x y || lt y x) ≡ true) xs
      → IsStrictlySorted lt xs
      → IsStrictlySorted lt (insert_by (λ a b. not (lt b a)) x xs)
  unfolding IsStrictlySorted
  insert_by-IsStrictlySorted x [] c s = (tt, tt)
  insert_by-IsStrictlySorted x (y ∷ ys) c s = elim (Bool-cases (lt y x)) [
    | inl e ↦ rw e (
      All-insert_by (λ z. lt y z ≡ true) (λ a b. not (lt b a)) x ys e s.0,
      insert_by-IsStrictlySorted x ys c.1 s.1,
    )
    | inr e ↦
        let first : lt x y ≡ true = ground (arith, c.0, e) in
        rw e (
          (
            first,
            All-imp (λ z. lt y z ≡ true) (λ z. lt x z ≡ true) ys (λ z h. transitive x y z first h)
                s.0,
          ),
          s,
        )
  ]

  pub sort_by-IsStrictlySorted :
      (xs : List A) → IsApart lt xs → IsStrictlySorted lt (sort_by (λ a b. not (lt b a)) xs)
  unfolding IsStrictlySorted IsApart
  sort_by-IsStrictlySorted [] a = tt
  sort_by-IsStrictlySorted (x ∷ xs) a =
      insert_by-IsStrictlySorted x (sort_by (λ a b. not (lt b a)) xs)
        (All-sort_by (λ y. (lt x y || lt y x) ≡ true) (λ a b. not (lt b a)) xs a.0)
        (sort_by-IsStrictlySorted xs a.1)

module _ {ℓ} {A : Type ℓ} where
  any-insert_by :
      (p : A → Bool) (le : A → A → Bool) (x : A) (xs : List A)
      → any p (insert_by le x xs) ≡ (p x || any p xs)
  any-insert_by p le x [] = refl
  any-insert_by p le x (y ∷ ys) = ground (arith, any-insert_by p le x ys)

  pub any-sort_by :
      (p : A → Bool) (le : A → A → Bool) (xs : List A) → any p (sort_by le xs) ≡ any p xs
  any-sort_by p le [] = refl
  any-sort_by p le (x ∷ xs) =
      ground (arith, any-insert_by p le x (sort_by le xs), any-sort_by p le xs)

  pub elem-map : (id : ℕ) (f : A → ℕ) (xs : List A) → elem id (map f xs) ≡ any (λ x. id == f x) xs
  elem-map id f [] = refl
  elem-map id f (x ∷ xs) = rw (elem-map id f xs) refl

  pub all-of_All : (p : A → Bool) (xs : List A) → All (λ x. p x ≡ true) xs → all p xs ≡ true
  all-of_All p [] h = refl
  all-of_All p (x ∷ xs) h = rw (h.0, all-of_All p xs h.1) refl

  -- What holds of every entry that a key gives holds of every row.
  pub All-rows_of {κ} :
      (P : ℕ → A → Type κ) (d : Dict A)
      → HasUniqueKeys d
      → ((k : ℕ) (x : A) → get k d ≡ some x → P k x)
      → All (λ e. P e.0 e.1) d
  All-rows_of P d u h =
      All-imp (λ e. get e.0 d ≡ some e.1) (λ e. P e.0 e.1) d (λ e g. h e.0 e.1 g) (All-get d u)

  pub All-of_entries {κ} :
      (P : A → Type κ) (d : Dict A) → All (λ e. P e.1) d → All P (map (λ e. e.1) d)
  All-of_entries P [] h = tt
  All-of_entries P (e ∷ d) h = (h.0, All-of_entries P d h.1)

  pub length-rows_of : (d : Dict A) → length (map (λ e. e.1) d) ≡ length d
  length-rows_of [] = refl
  length-rows_of (e ∷ d) = ap suc (length-rows_of d)

module _ {ℓ} {A : Type ℓ} (name : A → ℕ) where
  -- The names of the rows are the keys.
  pub any-rows_of :
      (id : ℕ) (d : Dict A)
      → All (λ e. name e.1 ≡ e.0) d
      → any (λ x. id == name x) (map (λ e. e.1) d) ≡ is_some (get id d)
  any-rows_of id [] h = refl
  any-rows_of id (e ∷ d) h = rw (h.0, any-rows_of id d h.1) (ground arith)

  module _ (lt : A → A → Bool)
      (total : (a b : A) → (name a == name b) ≡ false → (lt a b || lt b a) ≡ true) where
    apart_from :
        (e : ℕ × A) (d : Dict A)
        → name e.1 ≡ e.0
        → elem e.0 (keys d) ≡ false
        → All (λ e. name e.1 ≡ e.0) d
        → All (λ y. (lt e.1 y || lt y e.1) ≡ true) (map (λ e. e.1) d)
    apart_from e [] n h ns = tt
    apart_from e (o ∷ d) n h ns =
        (total e.1 o.1 (rw (n, ns.0) (ground arith)), apart_from e d n (ground arith) ns.1)

    pub rows_of-IsApart :
        (d : Dict A) → HasUniqueKeys d → All (λ e. name e.1 ≡ e.0) d → IsApart lt (map (λ e. e.1) d)
    unfolding IsApart
    rows_of-IsApart [] u h = tt
    rows_of-IsApart (e ∷ d) u h =
        (apart_from e d h.0 (ground arith) h.1, rows_of-IsApart d (ground arith) h.1)
