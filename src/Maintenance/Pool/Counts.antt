-- ===== src/Maintenance/Pool/Counts.antt =====
-- What the counts of the pool are, and what a granted disable leaves.
use sub2_ddq.Prelude.{
  ℕ, ◌+◌, ◌≤◌, ◌≡◌, refl, Bool, true, false, ◌&&◌, ◌||◌, some, List, [], ◌∷◌, Dict, put, get_count,
  elem, any, all, if◌then◌else◌, ◌==◌, has_duplicates, count, Bool-cases, arith, All, ==_iff, map,
  ◌↔◌, get_count-put, find_first, all-elem, inl, inr, subst, sym,
}
use sub2_ddq.Maintenance.{AccountGroupState, close_account}
use sub2_ddq.Maintenance.Pool.{
  is_counted, count_in_groups, count_accounts, minimum_usable_pool, keeps_one, can_disable,
}

abbrev pub occurrences : ℕ → List ℕ → ℕ
occurrences g gs = count (λ k. g == k) gs

-- How often the group stands in an account that counts.
abbrev pub usable_in : List ℕ → ℕ → List AccountGroupState → ℕ
usable_in excluded g [] = 0
usable_in excluded g (a ∷ accounts) =
    (if is_counted excluded a then occurrences g a.group_ids else 0) + usable_in excluded g accounts

count_in_groups_lem :
    (counted : Bool) (g : ℕ) (gs : List ℕ) (counts : Dict ℕ)
    → get_count g (count_in_groups counted gs counts)
      ≡ get_count g counts + (if counted then occurrences g gs else 0)
unfolding count_in_groups
count_in_groups_lem counted g [] counts = ground arith
count_in_groups_lem counted g (k ∷ gs) counts =
    let n : ℕ = if counted then 1 else 0 in
    ground (
      arith,
      count_in_groups_lem counted g gs (put k (get_count k counts + n) counts),
      get_count-put g k n counts,
    )

count_accounts_lem :
    (excluded : List ℕ) (g : ℕ) (accounts : List AccountGroupState) (counts : Dict ℕ)
    → get_count g (count_accounts excluded accounts counts)
      ≡ get_count g counts + usable_in excluded g accounts
unfolding count_accounts
count_accounts_lem excluded g [] counts = omega arith
count_accounts_lem excluded g (a ∷ accounts) counts = omega (
  arith,
  count_accounts_lem excluded g accounts
      (count_in_groups (is_counted excluded a) a.group_ids counts),
  count_in_groups_lem (is_counted excluded a) g a.group_ids counts,
)

-- The pool's count of a group is the number of times that it stands in a usable account that is
-- not excluded.
pub minimum_usable_pool_lem :
    (excluded : List ℕ) (g : ℕ) (accounts : List AccountGroupState)
    → get_count g (minimum_usable_pool accounts excluded) ≡ usable_in excluded g accounts
unfolding minimum_usable_pool
minimum_usable_pool_lem excluded g accounts =
    omega (arith, count_accounts_lem excluded g accounts [])

-- The IDs of a snapshot, each at most once.
abbrev pub IsSnapshot : List AccountGroupState → Type 0
IsSnapshot accounts = has_duplicates (map (λ a. a.account_id) accounts) ≡ false

absent_occurrences : (g : ℕ) (gs : List ℕ) → elem g gs ≡ false → occurrences g gs ≡ 0
absent_occurrences g [] h = refl
absent_occurrences g (k ∷ gs) h = ground (arith, absent_occurrences g gs)

occurrences-le_one : (g : ℕ) (gs : List ℕ) → has_duplicates gs ≡ false → occurrences g gs ≤ 1
occurrences-le_one g [] h = omega arith
occurrences-le_one g (k ∷ gs) h = elim (Bool-cases (g == k)) [
  | inl e ↦
      let same = (==_iff g k).0 e in
      ground
        (arith, absent_occurrences g gs, subst (λ k. has_duplicates (k ∷ gs) ≡ false) (sym same) h)
  | inr e ↦ ground (arith, occurrences-le_one g gs)
]

absent :
    (x : AccountGroupState) (accounts : List AccountGroupState)
    → IsSnapshot (x ∷ accounts)
    → elem x.account_id (map (λ a. a.account_id) accounts) ≡ false
absent x accounts s = ground arith

module _ (id : ℕ) (excluded : List ℕ) (g : ℕ) where
  usable_in-close_other :
      (accounts : List AccountGroupState)
      → elem id (map (λ a. a.account_id) accounts) ≡ false
      → usable_in (id ∷ excluded) g (close_account id accounts) ≡ usable_in excluded g accounts
  usable_in-close_other [] h = refl
  usable_in-close_other (a ∷ accounts) h = ground (arith, usable_in-close_other accounts)

  -- Closing the one account with the ID takes away what it counted, and no more.
  usable_in-close :
      (accounts : List AccountGroupState) (a : AccountGroupState)
      → IsSnapshot accounts
      → find_first (λ x. x.account_id == id) accounts ≡ some a
      → usable_in excluded g accounts
        ≡ usable_in (id ∷ excluded) g (close_account id accounts)
          + (if is_counted excluded a then occurrences g a.group_ids else 0)
  usable_in-close [] a s h = cc
  usable_in-close (x ∷ accounts) a s h = elim (Bool-cases (x.account_id == id)) [
    | inl e ↦ ground (
      arith,
      usable_in-close_other accounts,
      subst (λ k. elem k (map (λ a. a.account_id) accounts) ≡ false) ((==_iff x.account_id id).0 e)
          (absent x accounts s),
    )
    | inr e ↦ ground (arith, usable_in-close accounts a)
  ]

-- A group is served if an account that counts stands in it.
unfoldable pub is_served : List ℕ → ℕ → List AccountGroupState → Bool
is_served excluded g accounts = any (λ a. is_counted excluded a && elem g a.group_ids) accounts

occurrences-positive : (g : ℕ) (gs : List ℕ) → elem g gs ≡ true → 1 ≤ occurrences g gs
occurrences-positive g [] h = cc
occurrences-positive g (k ∷ gs) h = ground (arith, occurrences-positive g gs)

pub usable_in-positive :
    (excluded : List ℕ) (g : ℕ) (accounts : List AccountGroupState)
    → (1 ≤ usable_in excluded g accounts) ↔ (is_served excluded g accounts ≡ true)
unfolding is_served
usable_in-positive excluded g [] = (λ h. ground arith, λ h. cc)
usable_in-positive excluded g (a ∷ accounts) =
    let ih = usable_in-positive excluded g accounts in
    (
      λ h. ground (arith, ih, absent_occurrences g a.group_ids),
      λ h. ground (arith, ih, occurrences-positive g a.group_ids),
    )

can_disable-keeps_one :
    (counts : Dict ℕ) (a : AccountGroupState) (g : ℕ)
    → can_disable counts a ≡ true
    → elem g a.group_ids ≡ true
    → keeps_one counts a g ≡ true
unfolding can_disable
can_disable-keeps_one counts a g h e =
    let every : all (keeps_one counts a) a.group_ids ≡ true = ground (arith, h) in
    all-elem (keeps_one counts a) g a.group_ids every e

-- Where the pool allows an account to be disabled, every group that had a usable account keeps
-- one, and every group of the account has one.
pub can_disable-is_served :
    (excluded : List ℕ) (accounts : List AccountGroupState) (id : ℕ) (a : AccountGroupState) (g : ℕ)
    → IsSnapshot accounts
    → has_duplicates a.group_ids ≡ false
    → find_first (λ x. x.account_id == id) accounts ≡ some a
    → can_disable (minimum_usable_pool accounts excluded) a ≡ true
    → (is_served excluded g accounts || elem g a.group_ids) ≡ true
    → is_served (id ∷ excluded) g (close_account id accounts) ≡ true
can_disable-is_served excluded accounts id a g s d f c h =
    let served = (usable_in-positive (id ∷ excluded) g (close_account id accounts)).0 in
    let taken = usable_in-close id excluded g accounts a s f in
    elim (Bool-cases (elem g a.group_ids)) [
      | inl e ↦
          let left = can_disable-keeps_one (minimum_usable_pool accounts excluded) a g c e in
          served (
            ground (
              arith,
              left,
              minimum_usable_pool_lem excluded g accounts,
              taken,
              occurrences-le_one g a.group_ids d,
            ))
      | inr e ↦ served (
          ground (
            arith,
            usable_in-positive excluded g accounts,
            taken,
            absent_occurrences g a.group_ids e,
          ))
    ]

ids-close_account :
    (id : ℕ) (accounts : List AccountGroupState)
    → map (λ a. a.account_id) (close_account id accounts) ≡ map (λ a. a.account_id) accounts
ids-close_account id [] = refl
ids-close_account id (a ∷ accounts) = ground (arith, ids-close_account id accounts)

-- Closing an account keeps a snapshot a snapshot.
pub IsSnapshot-close_account :
    (id : ℕ) (accounts : List AccountGroupState)
    → IsSnapshot accounts
    → IsSnapshot (close_account id accounts)
IsSnapshot-close_account id accounts s =
    subst (λ ids. has_duplicates ids ≡ false) (sym (ids-close_account id accounts)) s

-- No account names a group twice.
abbrev pub HasDistinctGroups : List AccountGroupState → Type 0
HasDistinctGroups accounts = All (λ a. has_duplicates a.group_ids ≡ false) accounts

pub HasDistinctGroups-close_account :
    (id : ℕ) (accounts : List AccountGroupState)
    → HasDistinctGroups accounts
    → HasDistinctGroups (close_account id accounts)
HasDistinctGroups-close_account id [] h = tt
HasDistinctGroups-close_account id (a ∷ accounts) h =
    (ground arith, HasDistinctGroups-close_account id accounts h.1)
