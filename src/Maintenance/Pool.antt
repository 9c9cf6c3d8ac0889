-- ===== src/Maintenance/Pool.antt =====
-- `_MinimumUsablePool` of core/maintenance.py.
pub mod Counts
use sub2_ddq.Prelude.{
  ℕ, ◌+◌, ◌-◌, Bool, true, false, ◌&&◌, ◌||◌, not, Option, none, some, List, [], ◌∷◌, Dict, get,
  put, get_count, elem, any, all, keep_if, ltb, leb, is_some, if◌then◌else◌,
}
use sub2_ddq.Maintenance.{AccountGroupState, is_usable}

-- `account.account_id not in excluded_account_ids and self._is_usable(account)`
abbrev pub is_counted : List ℕ → AccountGroupState → Bool
is_counted excluded a = not (elem a.account_id excluded) && is_usable a

-- The inner loop: `setdefault(group_id, 0)`, and one more if the account counts.
unfoldable pub count_in_groups : Bool → List ℕ → Dict ℕ → Dict ℕ
count_in_groups counted [] counts = counts
count_in_groups counted (g ∷ gs) counts =
    count_in_groups counted gs (put g (get_count g counts + (if counted then 1 else 0)) counts)

-- The outer loop of `__init__`.
unfoldable pub count_accounts : List ℕ → List AccountGroupState → Dict ℕ → Dict ℕ
count_accounts excluded [] counts = counts
count_accounts excluded (a ∷ accounts) counts =
    count_accounts excluded accounts (count_in_groups (is_counted excluded a) a.group_ids counts)

-- `_MinimumUsablePool(accounts, excluded_account_ids=...)`
unfoldable pub minimum_usable_pool : List AccountGroupState → List ℕ → Dict ℕ
minimum_usable_pool accounts excluded = count_accounts excluded accounts []

-- `self._counts[group_id] - decrement >= 1`; stopping at 0 does not change the test.
abbrev pub keeps_one : Dict ℕ → AccountGroupState → ℕ → Bool
keeps_one counts a g = leb 1 (get_count g counts - (if is_usable a then 1 else 0))

unfoldable pub can_disable : Dict ℕ → AccountGroupState → Bool
can_disable counts a = elim a.group_ids [
  | [] ↦ false
  | g ∷ gs ↦
      not (any (λ k. not (is_some (get k counts))) (g ∷ gs)) && all (keeps_one counts a) (g ∷ gs)
]

unfoldable pub blocking_group_ids : Dict ℕ → AccountGroupState → List ℕ
blocking_group_ids counts a =
    keep_if (λ k. not (is_some (get k counts)) || not (keeps_one counts a k)) a.group_ids
