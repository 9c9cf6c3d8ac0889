-- ===== src/Prelude/Lists.antt =====
-- Lists with Boolean tests and native lengths; sets of identifiers are lists with `elem`.
use Prim.Native.Nat.{ℕ, zero, suc, ◌+◌, ◌≤◌}
use mathlib.Core.Path.{◌≡◌, refl, ap, subst, sym}
use mathlib.Core.Bool.{Bool, true, false, ◌&&◌, ◌||◌}
use mathlib.Core.Option.{Option, none, some, some_inj}
use mathlib.Core.List.{List, [], ◌∷◌, map, Memᴰ}
use native.Mathlib.Omega.{arith}
use sub2_ddq.Prelude.Tests.{◌==◌, if◌then◌else◌, ==_iff, Bool-cases}
use mathlib.Core.Logic.{inl, inr}

module _ {ℓ} {A : Type ℓ} where
  abbrev pub length : List A → ℕ
  length [] = 0
  length (x ∷ xs) = suc (length xs)

  -- `xs[:n]`
  abbrev pub take : ℕ → List A → List A
  take zero xs = []
  take (suc n) [] = []
  take (suc n) (x ∷ xs) = x ∷ take n xs

  -- `any(p(x) for x in xs)`
  abbrev pub any : (A → Bool) → List A → Bool
  any p [] = false
  any p (x ∷ xs) = p x || any p xs

  -- `all(p(x) for x in xs)`
  abbrev pub all : (A → Bool) → List A → Bool
  all p [] = true
  all p (x ∷ xs) = p x && all p xs

  -- `sum(p(x) for x in xs)`
  abbrev pub count : (A → Bool) → List A → ℕ
  count p [] = 0
  count p (x ∷ xs) = (if p x then 1 else 0) + count p xs

  -- `[x for x in xs if p(x)]`
  abbrev pub keep_if : (A → Bool) → List A → List A
  keep_if p [] = []
  keep_if p (x ∷ xs) = let rest = keep_if p xs in if p x then x ∷ rest else rest

  -- `next((x for x in xs if p(x)), None)`
  abbrev pub find_first : (A → Bool) → List A → Option A
  find_first p [] = none
  find_first p (x ∷ xs) = let rest = find_first p xs in if p x then some x else rest

  -- Before the first item that is not below `x`; `le` is the order of the sort key.
  abbrev pub insert_by : (A → A → Bool) → A → List A → List A
  insert_by le x [] = x ∷ []
  insert_by le x (y ∷ ys) = let rest = insert_by le x ys in if le x y then x ∷ y ∷ ys else y ∷ rest

  -- `sorted(xs, key=...)`: a stable sort.
  abbrev pub sort_by : (A → A → Bool) → List A → List A
  sort_by le [] = []
  sort_by le (x ∷ xs) = insert_by le x (sort_by le xs)

  abbrev pub All {κ} : (A → Type κ) → List A → Type κ
  All P [] = Unit
  All P (x ∷ xs) = P x × All P xs

abbrev pub elem : ℕ → List ℕ → Bool
elem k [] = false
elem k (x ∷ xs) = k == x || elem k xs

-- `len(set(xs)) != len(xs)`
abbrev pub has_duplicates : List ℕ → Bool
has_duplicates [] = false
has_duplicates (x ∷ xs) = elem x xs || has_duplicates xs

-- `set(xs) <= set(ys)`
abbrev pub subset : List ℕ → List ℕ → Bool
subset xs ys = all (λ x. elem x ys) xs

-- `set(xs) & set(ys)`, as a truth value
abbrev pub meets : List ℕ → List ℕ → Bool
meets xs ys = any (λ x. elem x ys) xs

module _ {ℓ} {A : Type ℓ} where
  pub length-take-le : (n : ℕ) (xs : List A) → length (take n xs) ≤ n
  length-take-le zero xs = omega arith
  length-take-le (suc n) [] = omega arith
  length-take-le (suc n) (x ∷ xs) = omega (arith, length-take-le n xs)

  pub All-take {κ} : (P : A → Type κ) (n : ℕ) (xs : List A) → All P xs → All P (take n xs)
  All-take P zero xs h = tt
  All-take P (suc n) [] h = tt
  All-take P (suc n) (x ∷ xs) h = (h.0, All-take P n xs h.1)

  pub count-insert_by :
      (p : A → Bool) (le : A → A → Bool) (x : A) (xs : List A)
      → count p (insert_by le x xs) ≡ count p (x ∷ xs)
  count-insert_by p le x [] = refl
  count-insert_by p le x (y ∷ ys) = ground (arith, count-insert_by p le x ys)

  -- A sort keeps how often each test holds.
  pub count-sort_by :
      (p : A → Bool) (le : A → A → Bool) (xs : List A) → count p (sort_by le xs) ≡ count p xs
  count-sort_by p le [] = refl
  count-sort_by p le (x ∷ xs) =
      omega (arith, count-insert_by p le x (sort_by le xs), count-sort_by p le xs)

  length-insert_by :
      (le : A → A → Bool) (x : A) (xs : List A) → length (insert_by le x xs) ≡ suc (length xs)
  length-insert_by le x [] = refl
  length-insert_by le x (y ∷ ys) = ground (arith, length-insert_by le x ys)

  pub length-sort_by : (le : A → A → Bool) (xs : List A) → length (sort_by le xs) ≡ length xs
  length-sort_by le [] = refl
  length-sort_by le (x ∷ xs) =
      omega (arith, length-insert_by le x (sort_by le xs), length-sort_by le xs)

module _ {ℓ} {A B : Type ℓ} where
  pub All-map {κ} :
      (P : B → Type κ) (f : A → B) (xs : List A) → ((a : A) → P (f a)) → All P (map f xs)
  All-map P f [] h = tt
  All-map P f (x ∷ xs) h = (h x, All-map P f xs h)

  pub All-map_of_All {κ} :
      (P : A → Type κ) (Q : B → Type κ) (f : A → B) (xs : List A)
      → ((a : A) → P a → Q (f a))
      → All P xs
      → All Q (map f xs)
  All-map_of_All P Q f [] h all_p = tt
  All-map_of_All P Q f (x ∷ xs) h all_p = (h x all_p.0, All-map_of_All P Q f xs h all_p.1)

  pub length-map : (f : A → B) (xs : List A) → length (map f xs) ≡ length xs
  length-map f [] = refl
  length-map f (x ∷ xs) = ap suc (length-map f xs)

module _ {ℓ} {A : Type ℓ} where
  pub length-keep_if : (p : A → Bool) (xs : List A) → length (keep_if p xs) ≡ count p xs
  length-keep_if p [] = refl
  length-keep_if p (x ∷ xs) = ground (arith, length-keep_if p xs)

-- A test that holds of all items holds of each.
pub all-elem :
    (p : ℕ → Bool) (g : ℕ) (xs : List ℕ) → all p xs ≡ true → elem g xs ≡ true → p g ≡ true
all-elem p g [] h e = cc
all-elem p g (x ∷ xs) h e = elim (Bool-cases (g == x)) [
  | inl s ↦ subst (λ k. p k ≡ true) (sym ((==_iff g x).0 s)) (ground arith)
  | inr s ↦ ground (arith, all-elem p g xs)
]

module _ {ℓ} {A : Type ℓ} where
  pub All-find_first {κ} :
      (P : A → Type κ) (p : A → Bool) (xs : List A) (a : A)
      → All P xs
      → find_first p xs ≡ some a
      → P a
  All-find_first P p [] a h f = cc
  All-find_first P p (x ∷ xs) a h f = elim (Bool-cases (p x)) [
    | inl e ↦ subst P (some_inj.0 (rw e at f)) h.0
    | inr e ↦ All-find_first P p xs a h.1 (rw e at f)
  ]

  -- What is kept passes the test.
  pub All-keep_if : (p : A → Bool) (xs : List A) → All (λ x. p x ≡ true) (keep_if p xs)
  All-keep_if p [] = tt
  All-keep_if p (x ∷ xs) = elim (Bool-cases (p x)) [
    | inl e ↦ rw e (e, All-keep_if p xs)
    | inr e ↦ rw e (All-keep_if p xs)
  ]

  pub All-keep_if_of_All {κ} :
      (P : A → Type κ) (p : A → Bool) (xs : List A) → All P xs → All P (keep_if p xs)
  All-keep_if_of_All P p [] h = tt
  All-keep_if_of_All P p (x ∷ xs) h = elim (Bool-cases (p x)) [
    | inl e ↦ rw e (h.0, All-keep_if_of_All P p xs h.1)
    | inr e ↦ rw e (All-keep_if_of_All P p xs h.1)
  ]

  pub All-insert_by {κ} :
      (P : A → Type κ) (le : A → A → Bool) (x : A) (xs : List A)
      → P x
      → All P xs
      → All P (insert_by le x xs)
  All-insert_by P le x [] h hs = (h, tt)
  All-insert_by P le x (y ∷ ys) h hs = elim (Bool-cases (le x y)) [
    | inl e ↦ rw e (h, hs)
    | inr e ↦ rw e (hs.0, All-insert_by P le x ys h hs.1)
  ]

  pub All-sort_by {κ} :
      (P : A → Type κ) (le : A → A → Bool) (xs : List A) → All P xs → All P (sort_by le xs)
  All-sort_by P le [] h = tt
  All-sort_by P le (x ∷ xs) h = All-insert_by P le x (sort_by le xs) h.0 (All-sort_by P le xs h.1)

  -- Two families that hold of all items.
  pub All-and {κ μ} :
      (P : A → Type κ) (Q : A → Type μ) (xs : List A)
      → All P xs
      → All Q xs
      → All (λ x. P x × Q x) xs
  All-and P Q [] h k = tt
  All-and P Q (x ∷ xs) h k = ((h.0, k.0), All-and P Q xs h.1 k.1)

  -- A family that follows from another, item by item.
  pub All-imp {κ μ} :
      (P : A → Type κ) (Q : A → Type μ) (xs : List A) → ((x : A) → P x → Q x) → All P xs → All Q xs
  All-imp P Q [] f h = tt
  All-imp P Q (x ∷ xs) f h = (f x h.0, All-imp P Q xs f h.1)

module _ {ℓ} {A : Type ℓ} (le : A → A → Bool) where
  -- `le` is total and transitive.
  abbrev pub IsOrder : Type ℓ
  IsOrder =
      ((a b : A) → (le a b || le b a) ≡ true)
      × ((a b c : A) → le a b ≡ true → le b c ≡ true → le a c ≡ true)

  abbrev pub IsSorted : List A → Type 0
  IsSorted [] = Unit
  IsSorted (x ∷ xs) = All (λ y. le x y ≡ true) xs × IsSorted xs

  insert_by-IsSorted : IsOrder → (x : A) (xs : List A) → IsSorted xs → IsSorted (insert_by le x xs)
  insert_by-IsSorted o x [] s = (tt, tt)
  insert_by-IsSorted o x (y ∷ ys) s = elim (Bool-cases (le x y)) [
    | inl e ↦
        let above =
          All-imp (λ z. le y z ≡ true) (λ z. le x z ≡ true) ys (λ z h. o.1 x y z e h) s.0 in
        rw e ((e, above), s)
    | inr e ↦
        let other : le y x ≡ true = ground (arith, o.0 x y, e) in
        rw e (All-insert_by (λ z. le y z ≡ true) le x ys other s.0, insert_by-IsSorted o x ys s.1)
  ]

  pub sort_by-IsSorted : IsOrder → (xs : List A) → IsSorted (sort_by le xs)
  sort_by-IsSorted o [] = tt
  sort_by-IsSorted o (x ∷ xs) = insert_by-IsSorted o x (sort_by le xs) (sort_by-IsSorted o xs)

  All-of_insert_by {κ} :
      (P : A → Type κ) (x : A) (xs : List A) → All P (insert_by le x xs) → P x × All P xs
  All-of_insert_by P x [] h = h
  All-of_insert_by P x (y ∷ ys) h = elim (Bool-cases (le x y)) [
    | inl e ↦ rw e at h
    | inr e ↦
        let k : All P (y ∷ insert_by le x ys) = rw e at h in
        let rest = All-of_insert_by P x ys k.1 in (rest.0, (k.0, rest.1))
  ]

  -- What holds of the sorted list's items holds of the list's.
  pub All-of_sort_by {κ} : (P : A → Type κ) (xs : List A) → All P (sort_by le xs) → All P xs
  All-of_sort_by P [] h = tt
  All-of_sort_by P (x ∷ xs) h =
      let k = All-of_insert_by P x (sort_by le xs) h in (k.0, All-of_sort_by P xs k.1)

module _ {ℓ} {A : Type ℓ} where
  pub All-Memᴰ : (xs : List A) → All (λ x. Memᴰ x xs) xs
  All-Memᴰ [] = tt
  All-Memᴰ (x ∷ xs) =
      (Memᴰ.head refl, All-imp (λ y. Memᴰ y xs) _ xs (λ y m. Memᴰ.tail m) (All-Memᴰ xs))

  -- An item that passes the test, with what holds of all items.
  pub any_lem {κ} :
      (P : A → Type κ) (p : A → Bool) (xs : List A)
      → All P xs
      → any p xs ≡ true
      → (x : A) × P x × (p x ≡ true)
  any_lem P p [] h e = cc
  any_lem P p (x ∷ xs) h e = elim (Bool-cases (p x)) [
    | inl same ↦ (x, h.0, same)
    | inr other ↦ any_lem P p xs h.1 (ground (arith, e, other))
  ]

-- An item that passes the test is kept.
pub elem-keep_if :
    (p : ℕ → Bool) (g : ℕ) (xs : List ℕ)
    → elem g xs ≡ true
    → p g ≡ true
    → elem g (keep_if p xs) ≡ true
elem-keep_if p g [] e h = cc
elem-keep_if p g (x ∷ xs) e h = elim (Bool-cases (g == x)) [
  | inl s ↦
      let kept : p x ≡ true = subst (λ k. p k ≡ true) ((==_iff g x).0 s) h in
      rw kept (ground (arith, s))
  | inr s ↦ ground (arith, elem-keep_if p g xs, s, e, h)
]
