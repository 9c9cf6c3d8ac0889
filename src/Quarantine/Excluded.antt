-- ===== src/Quarantine/Excluded.antt =====
-- What `_quarantined_account_ids` of src/sub2api_mcp/scheduler.py answers.
use sub2_ddq.Prelude.{
  ℕ, ◌≤◌, Bool, true, ◌||◌, none, List, [], ◌∷◌, ◌++◌, map, ◌==◌, all, elem, sort_by, length, Text,
  ◌≡◌, refl, ◌∙◌, arith, All-imp, All-sort_by, length-sort_by, get, is_some,
}
use sub2_ddq.Storage.Cursors.{Codec, encode_cursor}
use sub2_ddq.Storage.Paging.{Page, Scan}
use sub2_ddq.Storage.Paging.Complete.{take_short}
use sub2_ddq.Quarantine.Records.{is_identifier, is_valid_intent}
use sub2_ddq.Quarantine.Sound.{IsSound}
use sub2_ddq.Quarantine.Ordered.{
  any-sort_by, elem-map, all-of_All, All-of_entries, length-rows_of, any-rows_of,
}
use sub2_ddq.Quarantine.Listing.{
  rows_of, id_order, intent_order, cursor_kind, quarantined_account_ids,
  list_account_quarantine_intents,
}
use sub2_ddq.Quarantine.Scan.{IsTextOrder, record_facts, intent_facts, scan_quarantines_lem}
use sub2_ddq.Quarantine.{Registry, registry_count}

elem-append : (id : ℕ) (xs ys : List ℕ) → elem id (xs ++ ys) ≡ (elem id xs || elem id ys)
elem-append id [] ys = refl
elem-append id (x ∷ xs) ys = ground (arith, elem-append id xs ys)

module _ (spell : ℕ → Text) (below : Text → Text → Bool) (g : Registry) (s : IsSound g) where
  intents_listed :
      list_account_quarantine_intents spell below 10000 g
      ≡ Page.fetched (sort_by (intent_order spell below) (rows_of g.intents)) none
  unfolding list_account_quarantine_intents registry_count
  intents_listed =
      let sorted = sort_by (intent_order spell below) (rows_of g.intents) in
      let size : length sorted ≤ 10000 = omega (
        arith,
        length-sort_by (intent_order spell below) (rows_of g.intents),
        length-rows_of g.intents,
        s.bounded,
      ) in
      let valid : all is_valid_intent sorted ≡ true = all-of_All is_valid_intent sorted (
        All-sort_by _ _ (rows_of g.intents)
          (All-of_entries _ g.intents (All-imp _ _ g.intents (λ e h. h.0) (intent_facts g s)))) in
      rw (take_short 10000 sorted size, valid) refl

  elem-quarantines :
      (id : ℕ)
      → elem id (map (λ r. r.account_id) (sort_by (id_order spell below) (rows_of g.quarantines)))
        ≡ is_some (get id g.quarantines)
  elem-quarantines id =
      elem-map id (λ r. r.account_id) (sort_by (id_order spell below) (rows_of g.quarantines))
      ∙ any-sort_by (λ r. id == r.account_id) (id_order spell below) (rows_of g.quarantines)
      ∙ any-rows_of (λ r. r.account_id) id g.quarantines
          (All-imp _ _ g.quarantines (λ e h. h.1) (record_facts g s))

  elem-intents :
      (id : ℕ)
      → elem id (map (λ i. i.account_id) (sort_by (intent_order spell below) (rows_of g.intents)))
        ≡ is_some (get id g.intents)
  elem-intents id =
      elem-map id (λ i. i.account_id) (sort_by (intent_order spell below) (rows_of g.intents))
      ∙ any-sort_by (λ i. id == i.account_id) (intent_order spell below) (rows_of g.intents)
      ∙ any-rows_of (λ i. i.account_id) id g.intents
          (All-imp _ _ g.intents (λ e h. h.1) (intent_facts g s))

-- In a sound registry the scan of at most 100 pages of 100 rows neither raises nor reaches its
-- limit, and an account is among the excluded ones exactly when it has a quarantine or a pending
-- intent. It is assumed that the database's order of texts is strict and total, that different
-- identifiers are spelled differently, and that their cursors have at most 4,096 characters.
pub quarantined_account_ids_exact :
    (codec : Codec) (spell : ℕ → Text) (below : Text → Text → Bool) (g : Registry)
    → IsTextOrder below
    → ((m n : ℕ) → spell m ≡ spell n → m ≡ n)
    → ((id : ℕ)
        → is_identifier id ≡ true
        → length (encode_cursor codec (cursor_kind none) (spell id)) ≤ 4096)
    → IsSound g
    → (ids : List ℕ) × (quarantined_account_ids codec spell below g ≡ Scan.scanned ids)
      × ((id : ℕ) → elem id ids ≡ (is_some (get id g.quarantines) || is_some (get id g.intents)))
unfolding quarantined_account_ids
quarantined_account_ids_exact codec spell below g order injective short s =
    let kept = map (λ r. r.account_id) (sort_by (id_order spell below) (rows_of g.quarantines)) in
    let pending =
      map (λ i. i.account_id) (sort_by (intent_order spell below) (rows_of g.intents)) in
    (
      kept ++ pending,
      rw
          (
            scan_quarantines_lem codec spell below order injective g s short,
            intents_listed spell below g s,
          )
          refl,
      λ id.
          elem-append id kept pending
          ∙ rw (elem-quarantines spell below g s id, elem-intents spell below g s id) refl,
    )
