-- ===== src/Guardian/Selection/Laws.antt =====
-- Which accounts the selection protects, and that it is exact.
use sub2_ddq.Prelude.{
  ap, sym, count-sort_by, ℕ, ◌<◌, ◌≡◌, ◌≢◌, ◌↔◌, ◌⊎◌, refl, ◌∙◌, Bool, true, false, not, ◌&&◌, ◌||◌,
  Option, none, List, [], ◌∷◌, map, elem, subset, meets, keep_if, sort_by, length, arith,
  Bool-cases, inl, inr, ltb, count, length-map, length-sort_by, length-keep_if,
}
use sub2_ddq.Guardian.Contracts.{
  AccountObservation, AccountStatus, AccountRecoveryRunTrigger, AccountRecoveryPolicy, is_active,
}
use sub2_ddq.Guardian.Selection.{
  RecoveryDecision, RecoverySelection, Selected, is_oauth_type, classification, channel_scope,
  in_group, decide_account, block, by_account_id, finish_selection,
  select_account_recovery_candidates,
}

-- `active` and not schedulable with no automatic protection: a human paused the account.
abbrev pub human_pause : AccountObservation → Bool
human_pause a = is_active a.status && (not a.schedulable && not a.automatic_pause)

-- No credential of a person, not expired, and not paused by a human.
abbrev pub MayTouch : AccountObservation → Type 0
MayTouch a = (is_oauth_type a.account_type ≡ false) × (a.expired ≡ false) × (human_pause a ≡ false)

module _ (trigger : AccountRecoveryRunTrigger) (group_id : Option ℕ)
    (monitored quarantined processed : List ℕ) where
  -- What a decision that selects or lets write has checked.
  pub record IsSafe (d : RecoveryDecision) : Type 0 where
    pub tested :
        d.selected ≡ true
        → MayTouch d.account
          × (meets d.account.group_ids monitored ≡ true)
          × (elem d.account.account_id processed ≡ false)
    pub written :
        d.writeback_allowed ≡ true
        → MayTouch d.account
          × (meets d.account.group_ids monitored ≡ true)
          × ((channel_scope trigger group_id ≡ true)
              ⊎ (subset d.account.group_ids monitored ≡ true))
    pub hourly :
        trigger ≡ AccountRecoveryRunTrigger.hourly_active_check
        → d.selected ≡ true
        → d.writeback_allowed ≡ true

  -- Outside the hourly check, an account that Guardian may touch is tested if its status is not
  -- active, one of its groups is monitored and it was not processed before.
  pub abnormal_account_selected :
      (a : AccountObservation)
      → MayTouch a
      → a.status ≢ AccountStatus.active
      → meets a.group_ids monitored ≡ true
      → elem a.account_id processed ≡ false
      → trigger ≢ AccountRecoveryRunTrigger.hourly_active_check
      → (decide_account trigger group_id monitored quarantined processed a).selected ≡ true
  unfolding decide_account classification
  abnormal_account_selected a m s g p t = ground arith

none_selected-block : (ds : List RecoveryDecision) → keep_if (λ d. d.selected) (map block ds) ≡ []
none_selected-block [] = refl
none_selected-block (d ∷ ds) = none_selected-block ds

count_blocked :
    (p : AccountObservation → Bool) (ds : List RecoveryDecision)
    → count (λ d. p d.account) (map block ds) ≡ count (λ d. p d.account) ds
count_blocked p [] = refl
count_blocked p (d ∷ ds) = ground (arith, count_blocked p ds)

-- Every decision is about its own account.
count-decide_account :
    (p : AccountObservation → Bool) (trigger : AccountRecoveryRunTrigger) (group_id : Option ℕ)
    (monitored quarantined processed : List ℕ) (xs : List AccountObservation)
    → count
        (λ d. p d.account)
        (map (decide_account trigger group_id monitored quarantined processed) xs)
      ≡ count p xs
unfolding decide_account
count-decide_account p trigger group_id monitored quarantined processed [] = refl
count-decide_account p trigger group_id monitored quarantined processed (x ∷ xs) =
    ground (arith, count-decide_account p trigger group_id monitored quarantined processed xs)

count-keep_if :
    (p q : AccountObservation → Bool) (xs : List AccountObservation)
    → count p (keep_if q xs) ≡ count (λ a. q a && p a) xs
count-keep_if p q [] = refl
count-keep_if p q (x ∷ xs) = ground (arith, count-keep_if p q xs)

finish_exact :
    (trigger : AccountRecoveryRunTrigger) (scope : Bool) (cap : ℕ) (ds : List RecoveryDecision)
    {s : RecoverySelection}
    → finish_selection trigger scope cap ds ≡ Selected.ok s
    → ((p : AccountObservation → Bool)
        → count (λ d. p d.account) s.decisions ≡ count (λ d. p d.account) ds)
      × (s.selected_account_ids
          ≡ map (λ d. d.account.account_id) (keep_if (λ d. d.selected) s.decisions))
      × (s.global_block_reason ≢ none → s.selected_account_ids ≡ [])
      × ((s.global_block_reason ≢ none) ↔ ((scope ≡ true) × (cap < length ds)))
unfolding finish_selection
finish_exact trigger scope cap ds {s} h = (
  λ p. elim (Bool-cases (scope && ltb cap (length ds))) [
    | inl large ↦
        let e : map block ds ≡ s.decisions = ground arith in
        ap (count (λ d. p d.account)) (sym e) ∙ count_blocked p ds
    | inr small ↦ let e : ds ≡ s.decisions = ground arith in ap (count (λ d. p d.account)) (sym e)
  ],
  ground arith,
  λ b. ground (arith, none_selected-block ds),
  (λ b. ground arith, λ b. ground arith),
)

-- The observation is one that the run is about: any of them, or, in a run for one channel or group,
-- one in that group.
abbrev pub is_in_scope : AccountRecoveryRunTrigger → Option ℕ → AccountObservation → Bool
is_in_scope trigger group_id a = not (channel_scope trigger group_id) || in_group group_id a

-- A selection decides about each account in scope once and about no other: whatever is asked of an
-- account, as many decisions as observations in scope have an account of which it is so. It lists
-- exactly the accounts that its decisions select, and is blocked exactly if a run for one channel
-- or group has more accounts than an episode may have; then it selects none.
pub selection_exact :
    (observations : List AccountObservation) (trigger : AccountRecoveryRunTrigger)
    (policy : AccountRecoveryPolicy) (monitored : List ℕ) (group_id : Option ℕ)
    (quarantined processed : List ℕ) {s : RecoverySelection}
    → select_account_recovery_candidates observations trigger policy monitored group_id quarantined
        processed
      ≡ Selected.ok s
    → ((p : AccountObservation → Bool)
        → count (λ d. p d.account) s.decisions
          ≡ count (λ a. is_in_scope trigger group_id a && p a) observations)
      × (s.selected_account_ids
          ≡ map (λ d. d.account.account_id) (keep_if (λ d. d.selected) s.decisions))
      × (s.global_block_reason ≢ none → s.selected_account_ids ≡ [])
      × ((s.global_block_reason ≢ none) ↔ (
          (channel_scope trigger group_id ≡ true)
          × (policy.max_accounts_per_episode < count (is_in_scope trigger group_id) observations)))
unfolding select_account_recovery_candidates
selection_exact observations trigger policy monitored group_id quarantined processed {s} h =
    let scope = channel_scope trigger group_id in
    let kept = keep_if (is_in_scope trigger group_id) observations in
    let decide = decide_account trigger group_id monitored quarantined processed in
    let decisions = map decide (sort_by by_account_id kept) in
    let size : length decisions ≡ count (is_in_scope trigger group_id) observations =
      length-map decide (sort_by by_account_id kept)
      ∙ length-sort_by by_account_id kept
      ∙ length-keep_if (is_in_scope trigger group_id) observations in
    let e : finish_selection trigger scope policy.max_accounts_per_episode decisions
        ≡ Selected.ok s =
      ground arith in
    let (a, b, c, d) = finish_exact trigger scope policy.max_accounts_per_episode decisions e in
    (
      λ p.
          a p
          ∙ count-decide_account p trigger group_id monitored quarantined processed
              (sort_by by_account_id kept)
          ∙ count-sort_by p by_account_id kept
          ∙ count-keep_if p (is_in_scope trigger group_id) observations,
      b,
      c,
      rw size at d,
    )
