-- ===== src/Storage/Paging.antt =====
-- Keyset paging, the way the listings of src/sub2api_mcp/repository.py do it: one row more than the
-- limit is fetched, the page is cut, and the last row of a cut page marks where the next begins.
pub mod Complete
use sub2_ddq.Prelude.{
  ℕ, suc, zero, ◌+◌, ◌<◌, ◌≤◌, Bool, true, false, Option, none, some, List, [], ◌∷◌, ◌++◌, ltb,
  if◌then◌else◌, length, take, keep_if, ◌≡◌, refl, sym, subst, ap, ◌∙◌, inl, inr, arith, Bool-cases,
  Option-cases, All, Text,
}
use mathlib.Core.List.{append_assoc}
use mathlib.Core.Option

module _ {ℓ} {A : Type ℓ} where
  -- `rows[-1]`, of a list that may be empty.
  unfoldable pub last : List A → Option A
  last [] = none
  last (x ∷ []) = some x
  last (x ∷ y ∷ xs) = last (y ∷ xs)

  -- The page of the rows that match, and the row that marks the next page.
  unfoldable pub cut_page : ℕ → List A → List A × Option A
  cut_page limit matching =
      let rows = take (limit + 1) matching in
      let selected = take limit rows in
      (selected, if ltb limit (length rows) then last selected else none)

  abbrev pub after : (A → A → Bool) → Option A → A → Bool
  after lt none r = true
  after lt (some l) r = lt l r

-- What a listing answers: a page with the cursor of the next, or an error.
pub data PageError : Type 0 where
  invalid_page_size invalid_cursor data_invalid : PageError

pub data Page {ℓ} (A : Type ℓ) : Type ℓ where
  fetched : List A → Option Text → Page A
  refused : PageError → Page A

pub data Scan {ℓ} (A : Type ℓ) : Type ℓ where
  scanned : List A → Scan A
  scan_raised : PageError → Scan A
  scan_limit_reached : Scan A

module _ {ℓ} {A : Type ℓ} (fetch : Option Text → Page A) where
  -- A loop over pages with a bound on their number, which follows the cursors and keeps the items.
  unfoldable pub scan_pages : ℕ → Option Text → List A → Scan A
  scan_pages zero cursor seen = Scan.scan_limit_reached
  scan_pages (suc n) cursor seen = elim (fetch cursor) [
    | Page.refused e ↦ Scan.scan_raised e
    | Page.fetched items none ↦ Scan.scanned (seen ++ items)
    | Page.fetched items (some next) ↦ scan_pages n (some next) (seen ++ items)
  ]
