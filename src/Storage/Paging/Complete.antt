-- ===== src/Storage/Paging/Complete.antt =====
-- A scan that follows the cursors of keyset pages sees every row once, in order.
use sub2_ddq.Prelude.{
  ℕ, suc, zero, ◌+◌, ◌<◌, ◌≤◌, Bool, true, false, Option, none, some, List, [], ◌∷◌, ◌++◌, ltb,
  length, take, keep_if, ◌≡◌, refl, sym, subst, ap, ◌∙◌, inl, inr, arith, Bool-cases, All, Text,
}
use mathlib.Core.Option
use mathlib.Core.List.{append_assoc}
use sub2_ddq.Storage.Paging.{last, cut_page, Page, Scan, scan_pages}

module _ {ℓ} {A : Type ℓ} where
  unfoldable pub IsStrictlySorted : (A → A → Bool) → List A → Type 0
  IsStrictlySorted lt [] = Unit
  IsStrictlySorted lt (x ∷ xs) = All (λ y. lt x y ≡ true) xs × IsStrictlySorted lt xs

  kept_whole : (p : A → Bool) (xs : List A) → All (λ x. p x ≡ true) xs → keep_if p xs ≡ xs
  kept_whole p [] h = refl
  kept_whole p (x ∷ xs) h = rw (h.0, kept_whole p xs h.1) refl

  All-append_right {κ} : (P : A → Type κ) (xs ys : List A) → All P (xs ++ ys) → All P ys
  All-append_right P [] ys h = h
  All-append_right P (x ∷ xs) ys h = All-append_right P xs ys h.1

  -- A list of more than `k` items, cut behind its item number `k`.
  cut_behind :
      (k : ℕ) (xs : List A)
      → k < length xs
      → (mid : List A) × (l : A) × (tail : List A) × (xs ≡ mid ++ (l ∷ tail))
        × (take (suc k) xs ≡ mid ++ (l ∷ []))
        × (last (take (suc k) xs) ≡ some l)
        × (length tail + suc k ≡ length xs)
  unfolding last
  cut_behind k [] h = elim h [ ]
  cut_behind zero (x ∷ xs) h = ([], x, xs, refl, refl, refl, omega arith)
  cut_behind (suc k) (x ∷ []) h = absurd (omega arith)
  cut_behind (suc k) (x ∷ y ∷ xs) h =
      let (mid, l, tail, e, t, z, n) = cut_behind k (y ∷ xs) (omega arith) in
      (
        x ∷ mid,
        l,
        tail,
        ap (λ (r : List A). x ∷ r) e,
        ap (λ (r : List A). x ∷ r) t,
        z,
        omega (arith, n),
      )

  take_twice : (n : ℕ) (xs : List A) → take n (take (suc n) xs) ≡ take n xs
  take_twice zero xs = refl
  take_twice (suc n) [] = refl
  take_twice (suc n) (x ∷ xs) = rw (take_twice n xs) refl

  pub take_short : (n : ℕ) (xs : List A) → length xs ≤ n → take n xs ≡ xs
  take_short zero [] h = refl
  take_short zero (x ∷ xs) h = elim h [ ]
  take_short (suc n) [] h = refl
  take_short (suc n) (x ∷ xs) h = rw (take_short n xs (omega arith)) refl

  cut_page_rest :
      (limit : ℕ) (rest : List A) → length rest ≤ limit → cut_page limit rest ≡ (rest, none)
  unfolding cut_page
  cut_page_rest limit rest h =
      let e : limit + 1 ≡ suc limit = omega arith in
      rw
        (
          e,
          take_twice limit rest,
          take_short limit rest h,
          take_short (suc limit) rest (omega arith),
        )
        (ground arith)

  length-take_lem : (n : ℕ) (xs : List A) → n ≤ length xs → length (take n xs) ≡ n
  length-take_lem zero xs h = refl
  length-take_lem (suc n) [] h = elim h [ ]
  length-take_lem (suc n) (x ∷ xs) h = omega (arith, length-take_lem n xs)

  cut_page_more :
      (limit : ℕ) (rest : List A)
      → limit < length rest
      → cut_page limit rest ≡ (take limit rest, last (take limit rest))
  unfolding cut_page
  cut_page_more limit rest h =
      let e : limit + 1 ≡ suc limit = omega arith in
      rw (e, take_twice limit rest) (ground (arith, length-take_lem (suc limit) rest))

-- How many rows so many pages hold.
unfoldable pub page_capacity : ℕ → ℕ → ℕ
page_capacity zero limit = 0
page_capacity (suc n) limit = limit + page_capacity n limit

some_page : (n limit : ℕ) → 0 < page_capacity n limit → 0 < n
unfolding page_capacity
some_page zero limit h = h
some_page (suc n) limit h = omega arith

pages_left {ℓ} :
    {A : Type ℓ} (n k : ℕ) (rest tail : List A)
    → suc k < length rest
    → length tail + suc k ≡ length rest
    → length rest ≤ suc k + page_capacity n (suc k)
    → 0 < page_capacity n (suc k)
pages_left n k rest tail more size h = omega arith

regroup {ℓ} :
    {A : Type ℓ} (xs mid : List A) (l : A) (tail rest : List A)
    → rest ≡ mid ++ (l ∷ tail)
    → xs ++ rest ≡ (xs ++ (mid ++ (l ∷ []))) ++ tail
regroup xs mid l tail rest e = rw e (simp append_assoc)

abbrev pub marked {ℓ} : {A : Type ℓ} → (A → Text) → List A × Option A → Page A
marked mark (items, l) = Page.fetched items (Option.map mark l)

module _ {ℓ} {A : Type ℓ} (lt : A → A → Bool) (irreflexive : (a : A) → lt a a ≡ false)
    (asymmetric : (a b : A) → lt a b ≡ true → lt b a ≡ false) where
  -- What comes after a row of a strictly sorted list.
  keep_after :
      (before : List A) (l : A) (tail : List A)
      → IsStrictlySorted lt (before ++ (l ∷ tail))
      → keep_if (lt l) (before ++ (l ∷ tail)) ≡ tail
  unfolding IsStrictlySorted
  keep_after [] l tail s = rw (irreflexive l) (kept_whole (lt l) tail s.0)
  keep_after (x ∷ before) l tail s =
      let below = All-append_right (λ y. lt x y ≡ true) before (l ∷ tail) s.0 in
      rw (asymmetric x l below.0) (keep_after before l tail s.1)

  module _ (fetch : Option Text → Page A) (mark : A → Text) (k : ℕ) (rows : List A)
      (sorted : IsStrictlySorted lt rows) (first : fetch none ≡ marked mark (cut_page (suc k) rows))
      (later : All
        (λ l. fetch (some (mark l)) ≡ marked mark (cut_page (suc k) (keep_if (lt l) rows)))
        rows) where
    -- The page behind a row.
    behind :
        (before : List A) (l : A) (tail : List A)
        → rows ≡ before ++ (l ∷ tail)
        → fetch (some (mark l)) ≡ marked mark (cut_page (suc k) tail)
    behind before l tail e =
        let at = All-append_right _ before (l ∷ tail) (
          subst
            (λ xs.
              All
                (λ l. fetch (some (mark l)) ≡ marked mark (cut_page (suc k) (keep_if (lt l) rows)))
                xs)
            e later) in
        let rest : keep_if (lt l) rows ≡ tail =
          subst (λ xs. keep_if (lt l) xs ≡ tail) (sym e)
            (keep_after before l tail (subst (IsStrictlySorted lt) e sorted)) in
        rw rest at (at.0)

    scan_from :
        (n : ℕ) (cursor : Option Text) (seen before rest : List A)
        → fetch cursor ≡ marked mark (cut_page (suc k) rest)
        → rows ≡ before ++ rest
        → 0 < n
        → length rest ≤ page_capacity n (suc k)
        → scan_pages fetch n cursor seen ≡ Scan.scanned (seen ++ rest)
    unfolding scan_pages page_capacity
    scan_from zero cursor seen before rest f e pos h = elim pos [ ]
    scan_from (suc n) cursor seen before rest f e pos h =
        elim (Bool-cases (ltb (suc k) (length rest))) [
          | inl more ↦
              let (mid, l, tail, whole, page, end, size) = cut_behind k rest (ground arith) in
              let cut : cut_page (suc k) rest ≡ (mid ++ (l ∷ []), some l) =
                cut_page_more (suc k) rest (ground arith) ∙ rw (end, page) refl in
              let there : rows ≡ (before ++ mid) ++ (l ∷ tail) =
                e
                ∙ ap (λ (r : List A). before ++ r) whole
                ∙ sym (append_assoc before mid (l ∷ tail)) in
              let past : rows ≡ (before ++ (mid ++ (l ∷ []))) ++ tail =
                e ∙ regroup before mid l tail rest whole in
              let left : length tail ≤ page_capacity n (suc k) = omega (arith, size) in
              let pages : 0 < n =
                some_page n (suc k) (pages_left n k rest tail (ground arith) size h) in
              let next =
                scan_from n (some (mark l)) (seen ++ (mid ++ (l ∷ [])))
                  (before ++ (mid ++ (l ∷ []))) tail (behind (before ++ mid) l tail there) past
                  pages left in
              let answer : fetch cursor ≡ Page.fetched (mid ++ (l ∷ [])) (some (mark l)) =
                f ∙ ap (λ (x : List A × Option A). marked mark x) cut in
              rw (answer, scan_pages)
                (next
                  ∙ ap (λ (r : List A). Scan.scanned r) (sym (regroup seen mid l tail rest whole)))
          | inr done ↦
              let answer : fetch cursor ≡ Page.fetched rest none =
                f
                ∙ ap (λ (x : List A × Option A). marked mark x)
                    (cut_page_rest (suc k) rest (ground arith)) in
              rw (answer, scan_pages) refl
        ]

    -- A scan with room for every row ends with every row.
    pub scan_complete :
        (n : ℕ)
        → 0 < n
        → length rows ≤ page_capacity n (suc k)
        → scan_pages fetch n none [] ≡ Scan.scanned rows
    scan_complete n pos h = scan_from n none [] [] rows first refl pos h
