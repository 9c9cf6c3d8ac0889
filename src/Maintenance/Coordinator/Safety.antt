-- ===== src/Maintenance/Coordinator/Safety.antt =====
-- The loop of `MaintenanceCoordinator.run` never empties a group.
use sub2_ddq.Prelude.{
  ℕ, ◌≡◌, refl, true, false, ◌&&◌, ◌||◌, some, List, [], ◌∷◌, elem, ◌==◌, if◌then◌else◌,
  has_duplicates, or_true, All, All-find_first, Bool-cases, inl, inr, arith, subst, sym,
  Option-cases, ◌⊎◌,
}
use sub2_ddq.Maintenance.{
  AccountDisableResult, AccountGroupState, MaintenanceAdjustment, MaintenanceNotice, close_account,
}
use sub2_ddq.Maintenance.Pool.{can_disable, minimum_usable_pool}
use sub2_ddq.Maintenance.Pool.Counts.{
  HasDistinctGroups, HasDistinctGroups-close_account, IsSnapshot, IsSnapshot-close_account,
  can_disable-is_served, is_served,
}
use sub2_ddq.Maintenance.Coordinator.{
  Attempt, attempt, attempt_on, checked_disable, disable_loop, fresh_account,
}

-- The accounts that calls may have closed: those that succeeded or are uncertain.
abbrev pub may_be_closed : List AccountDisableResult → List ℕ
may_be_closed [] = []
may_be_closed (r ∷ rs) =
    let rest = may_be_closed rs in
    if r.success || r.state_uncertain then r.account_id ∷ rest else rest

abbrev pub close_all : List ℕ → List AccountGroupState → List AccountGroupState
close_all [] accounts = accounts
close_all (id ∷ ids) accounts = close_all ids (close_account id accounts)

abbrev pub exclude_all : List ℕ → List ℕ → List ℕ
exclude_all [] excluded = excluded
exclude_all (id ∷ ids) excluded = exclude_all ids (id ∷ excluded)

Attempt-cases :
    (o : Attempt)
    → ((n : MaintenanceNotice) × (o ≡ Attempt.withheld n))
      ⊎ ((a : MaintenanceAdjustment) × (r : AccountDisableResult) × (o ≡ Attempt.called a r))
Attempt-cases (Attempt.withheld n) = inl (n, refl)
Attempt-cases (Attempt.called a r) = inr (a, r, refl)

-- With the accounts of `ids` closed and left out, the group is served.
abbrev pub IsServedAfter : List ℕ → List AccountGroupState → ℕ → List ℕ → Type 0
IsServedAfter adjusted accounts g ids =
    is_served (exclude_all ids adjusted) g (close_all ids accounts) ≡ true

-- The groups of the adjustments are served once the accounts of `view` are closed.
abbrev pub AdjustedGroupsServed :
    List ℕ → List AccountGroupState → List ℕ × List MaintenanceAdjustment → Type 0
AdjustedGroupsServed adjusted accounts view =
    All (λ a. (g : ℕ) → elem g a.group_ids ≡ true → IsServedAfter adjusted accounts g view.0) view.1

checked_disable-id : (id : ℕ) (r : AccountDisableResult) → (checked_disable id r).account_id ≡ id
unfolding checked_disable
checked_disable-id id r = ground arith

checked_disable-one :
    (id : ℕ) (r : AccountDisableResult)
    → ((checked_disable id r).success && (checked_disable id r).state_uncertain) ≡ false
unfolding checked_disable
checked_disable-one id r = ground arith

module _ (known monitored : List ℕ) (disable : ℕ → AccountDisableResult) where
  -- What holds when `disable_account` is called.
  abbrev pub IsCalled :
      List ℕ → List AccountGroupState → MaintenanceAdjustment → AccountDisableResult → Type 0
  IsCalled adjusted accounts a r =
      (r.account_id ≡ a.account_id)
      × (b : AccountGroupState) × (fresh_account a.account_id accounts ≡ some b)
      × (can_disable (minimum_usable_pool accounts adjusted) b ≡ true)
      × (a.group_ids ≡ b.group_ids)

  attempt_on-called :
      (adjusted : List ℕ) (accounts : List AccountGroupState) (c a : MaintenanceAdjustment)
      (b : AccountGroupState) (r : AccountDisableResult)
      → attempt_on known monitored disable adjusted accounts c b ≡ Attempt.called a r
      → (a.account_id ≡ c.account_id)
        × (r.account_id ≡ a.account_id)
        × (can_disable (minimum_usable_pool accounts adjusted) b ≡ true)
        × (a.group_ids ≡ b.group_ids)
  unfolding attempt_on
  attempt_on-called adjusted accounts c a b r h =
      let same = checked_disable-id c.account_id (disable c.account_id) in ground (arith, h, same)

  attempt_lem :
      (adjusted : List ℕ) (accounts : List AccountGroupState) (c a : MaintenanceAdjustment)
      (r : AccountDisableResult)
      → attempt known monitored disable adjusted accounts c ≡ Attempt.called a r
      → IsCalled adjusted accounts a r
  unfolding attempt
  attempt_lem adjusted accounts c a r h =
      elim (Option-cases (fresh_account c.account_id accounts)) [
        | inl e ↦ ground (arith, rw (attempt, e) at h)
        | inr (b, e) ↦
            let (i, j, k, l) = attempt_on-called adjusted accounts c a b r (rw (attempt, e) at h) in
            (j, b, subst (λ id. fresh_account id accounts ≡ some b) (sym i) e, k, l)
      ]

  call-is_served :
      (adjusted : List ℕ) (accounts : List AccountGroupState) (c a : MaintenanceAdjustment)
      (r : AccountDisableResult) (g : ℕ)
      → IsSnapshot accounts
      → HasDistinctGroups accounts
      → attempt known monitored disable adjusted accounts c ≡ Attempt.called a r
      → (is_served adjusted g accounts || elem g a.group_ids) ≡ true
      → is_served (a.account_id ∷ adjusted) g (close_account a.account_id accounts) ≡ true
  call-is_served adjusted accounts c a r g s d h v =
      let (i, b, f, k, l) = attempt_lem adjusted accounts c a r h in
      can_disable-is_served adjusted accounts a.account_id b g s
        (All-find_first (λ a. has_duplicates a.group_ids ≡ false)
          (λ x. x.account_id == a.account_id) accounts b d f)
        f k (subst (λ gs. (is_served adjusted g accounts || elem g gs) ≡ true) l v)

  -- The accounts that the calls of the loop may have closed, and the adjustments it reports.
  abbrev pub loop_view :
      List ℕ
      → List AccountGroupState
      → List MaintenanceAdjustment
      → List ℕ × List MaintenanceAdjustment
  loop_view adjusted accounts cs =
      let out = disable_loop known monitored disable adjusted accounts cs in
      (may_be_closed out.calls, out.adjustments)

  loop_view-withheld :
      (adjusted : List ℕ) (accounts : List AccountGroupState) (c : MaintenanceAdjustment)
      (cs : List MaintenanceAdjustment) (n : MaintenanceNotice)
      → attempt known monitored disable adjusted accounts c ≡ Attempt.withheld n
      → loop_view adjusted accounts (c ∷ cs) ≡ loop_view adjusted accounts cs
  unfolding disable_loop
  loop_view-withheld adjusted accounts c cs n e = ground (arith, e)

  -- After a call: nothing more if it is uncertain, the account and the rest of the loop if it
  -- succeeds, and the rest of the loop if it is refused.
  loop_view-called :
      (adjusted : List ℕ) (accounts : List AccountGroupState) (c : MaintenanceAdjustment)
      (cs : List MaintenanceAdjustment) (a : MaintenanceAdjustment) (r : AccountDisableResult)
      → attempt known monitored disable adjusted accounts c ≡ Attempt.called a r
      → r.account_id ≡ a.account_id
      → let rest = loop_view (a.account_id ∷ adjusted) (close_account a.account_id accounts) cs in
        (loop_view adjusted accounts (c ∷ cs) ≡ (a.account_id ∷ [], []))
        ⊎ (loop_view adjusted accounts (c ∷ cs) ≡ (a.account_id ∷ rest.0, a ∷ rest.1))
        ⊎ (loop_view adjusted accounts (c ∷ cs) ≡ loop_view adjusted accounts cs)
  unfolding disable_loop
  loop_view-called adjusted accounts c cs a r e i = elim (Bool-cases r.state_uncertain) [
    | inl u ↦ inl (ground (arith, e))
    | inr u ↦ elim (Bool-cases r.success) [
      | inl w ↦ inr (inl (ground (arith, e)))
      | inr w ↦ inr (inr (ground (arith, e)))
    ]
  ]

  -- Let every call whose result is a success or uncertain have closed its account. Then every
  -- group that had a usable account before the loop, apart from those adjusted before, still has
  -- one.
  pub disable_loop-is_served :
      (adjusted : List ℕ) (accounts : List AccountGroupState) (cs : List MaintenanceAdjustment)
      (g : ℕ)
      → IsSnapshot accounts
      → HasDistinctGroups accounts
      → is_served adjusted g accounts ≡ true
      → IsServedAfter adjusted accounts g (loop_view adjusted accounts cs).0
  unfolding disable_loop
  disable_loop-is_served adjusted accounts [] g s d h = h
  disable_loop-is_served adjusted accounts (c ∷ cs) g s d h =
      elim (Attempt-cases (attempt known monitored disable adjusted accounts c)) [
        | inl (n, e) ↦
            subst (λ v. IsServedAfter adjusted accounts g v.0)
              (sym (loop_view-withheld adjusted accounts c cs n e))
              (disable_loop-is_served adjusted accounts cs g s d h)
        | inr (a, r, e) ↦
            let v = call-is_served adjusted accounts c a r g s d e (rw h refl) in
            let rest =
              disable_loop-is_served (a.account_id ∷ adjusted) (close_account a.account_id accounts)
                cs g (IsSnapshot-close_account a.account_id accounts s)
                (HasDistinctGroups-close_account a.account_id accounts d) v in
            let refused = disable_loop-is_served adjusted accounts cs g s d h in
            let to : List ℕ × List MaintenanceAdjustment → Type 0 =
              λ v. IsServedAfter adjusted accounts g v.0 in
            elim (loop_view-called adjusted accounts c cs a r e
              (attempt_lem adjusted accounts c a r e).0) [
                | inl i ↦ subst to (sym i) v
                | inr (inl i) ↦ subst to (sym i) rest
                | inr (inr i) ↦ subst to (sym i) refused
              ]
      ]

  -- Let every call whose result is a success or uncertain have closed its account. Then every
  -- group of every account that the loop reports as closed has a usable account.
  pub disable_loop-AdjustedGroupsServed :
      (adjusted : List ℕ) (accounts : List AccountGroupState) (cs : List MaintenanceAdjustment)
      → IsSnapshot accounts
      → HasDistinctGroups accounts
      → AdjustedGroupsServed adjusted accounts (loop_view adjusted accounts cs)
  unfolding disable_loop
  disable_loop-AdjustedGroupsServed adjusted accounts [] s d = tt
  disable_loop-AdjustedGroupsServed adjusted accounts (c ∷ cs) s d =
      elim (Attempt-cases (attempt known monitored disable adjusted accounts c)) [
        | inl (n, e) ↦
            subst (AdjustedGroupsServed adjusted accounts)
              (sym (loop_view-withheld adjusted accounts c cs n e))
              (disable_loop-AdjustedGroupsServed adjusted accounts cs s d)
        | inr (a, r, e) ↦
            let s' = IsSnapshot-close_account a.account_id accounts s in
            let d' = HasDistinctGroups-close_account a.account_id accounts d in
            let rest =
              disable_loop-AdjustedGroupsServed (a.account_id ∷ adjusted)
                (close_account a.account_id accounts) cs s' d' in
            let refused = disable_loop-AdjustedGroupsServed adjusted accounts cs s d in
            let to = AdjustedGroupsServed adjusted accounts in
            elim (loop_view-called adjusted accounts c cs a r e
              (attempt_lem adjusted accounts c a r e).0) [
                | inl i ↦ subst to (sym i) tt
                | inr (inl i) ↦ subst to (sym i) (
                  (λ g h.
                      disable_loop-is_served (a.account_id ∷ adjusted)
                        (close_account a.account_id accounts) cs g s' d'
                        (call-is_served adjusted accounts c a r g s d e
                          (rw h (or_true (is_served adjusted g accounts))))),
                  rest,
                )
                | inr (inr i) ↦ subst to (sym i) refused
              ]
      ]
