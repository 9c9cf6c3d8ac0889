-- ===== src/Quarantine/Scan.antt =====
-- The scan of src/sub2api_mcp/scheduler.py over the quarantine tables misses no account.
use sub2_ddq.Prelude.{
  ℕ, ◌+◌, ◌≤◌, Bool, true, false, ◌||◌, Option, none, some, List, [], ◌∷◌, ◌==◌, take, all, keep_if,
  sort_by, length, Text, text_eq, ◌≡◌, refl, sym, subst, ap, ◌∙◌, ◌≢◌, inl, inr, arith, Bool-cases,
  All, All-imp, All-sort_by, All-take, All-keep_if_of_All, length-sort_by, get,
}
use sub2_ddq.Storage.Cursors.{
  Codec, encode_cursor, decode_cursor, decode_cursor-encode_cursor, encode_cursor-ne-empty,
}
use sub2_ddq.Storage.Paging.{Scan, cut_page}
use sub2_ddq.Storage.Paging.Complete.{IsStrictlySorted, marked, scan_complete, page_capacity}
use sub2_ddq.Quarantine.Records.{
  AccountQuarantineRecord, AccountQuarantineIntent, is_valid_record, is_valid_intent, is_identifier,
  are_valid_fields,
}
use sub2_ddq.Quarantine.Sound.{IsSound, IsFit}
use sub2_ddq.Quarantine.Ordered.{
  sort_by-IsStrictlySorted, rows_of-IsApart, all-of_All, All-rows_of, All-of_entries,
  length-rows_of,
}
use sub2_ddq.Quarantine.Listing.{
  rows_of, id_order, is_beyond, matching_quarantines, quarantine_cursor, read_page, page_behind,
  page_at, page_of_kind, list_account_quarantines, cursor_kind, scan_quarantines,
}
use sub2_ddq.Quarantine.{Registry, registry_count}

-- What PostgreSQL documents of `<` on texts under a deterministic collation.
pub record IsTextOrder (below : Text → Text → Bool) : Type 0 where
  pub irreflexive : (s : Text) → below s s ≡ false
  pub transitive : (s t u : Text) → below s t ≡ true → below t u ≡ true → below s u ≡ true
  pub total : (s t : Text) → s ≢ t → (below s t || below t s) ≡ true

order-asymmetric :
    (below : Text → Text → Bool) (order : IsTextOrder below) (s t : Text)
    → below s t ≡ true
    → below t s ≡ false
order-asymmetric below order s t h = elim (Bool-cases (below t s)) [
  | inl e ↦ absurd (ground (arith, order.transitive s t s h e, order.irreflexive s))
  | inr e ↦ e
]

capacity_enough : (n : ℕ) → n ≤ 10000 → n ≤ page_capacity 100 100
unfolding page_capacity
capacity_enough n h = omega arith

fit_record :
    (id : ℕ) (q : AccountQuarantineRecord) (i : Option AccountQuarantineIntent) (t : Option ℕ)
    → IsFit id (some q) i t
    → (is_valid_record q ≡ true) × (q.account_id ≡ id)
unfolding IsFit
fit_record id q none t f = f
fit_record id q (some i) t f = elim f [ ]

fit_intent :
    (id : ℕ) (q : Option AccountQuarantineRecord) (i : AccountQuarantineIntent) (t : Option ℕ)
    → IsFit id q (some i) t
    → (is_valid_intent i ≡ true) × (i.account_id ≡ id)
unfolding IsFit
fit_intent id none i none f = f
fit_intent id none i (some t) f = elim f [ ]
fit_intent id (some q) i t f = elim f [ ]

text_eq_refl : (s : Text) → text_eq s s ≡ true
text_eq_refl [] = refl
text_eq_refl (c ∷ s) = ground (arith, text_eq_refl s)

module _ (g : Registry) (s : IsSound g) where
  pub record_facts : All (λ e. (is_valid_record e.1 ≡ true) × (e.1.account_id ≡ e.0)) g.quarantines
  record_facts =
      All-rows_of (λ id q. (is_valid_record q ≡ true) × (q.account_id ≡ id)) g.quarantines
        s.unique_quarantines
        (λ id q h.
          fit_record id q (get id g.intents) (get id g.restores)
            (subst (λ o. IsFit id o (get id g.intents) (get id g.restores)) h (s.fits id)))

  pub intent_facts : All (λ e. (is_valid_intent e.1 ≡ true) × (e.1.account_id ≡ e.0)) g.intents
  intent_facts =
      All-rows_of (λ id i. (is_valid_intent i ≡ true) × (i.account_id ≡ id)) g.intents
        s.unique_intents
        (λ id i h.
          fit_intent id (get id g.quarantines) i (get id g.restores)
            (subst (λ o. IsFit id (get id g.quarantines) o (get id g.restores)) h (s.fits id)))

cut_valid :
    (limit : ℕ) (xs : List AccountQuarantineRecord)
    → All (λ r. is_valid_record r ≡ true) xs
    → all is_valid_record (cut_page limit xs).0 ≡ true
unfolding cut_page
cut_valid limit xs h =
    all-of_All is_valid_record (take limit (take (limit + 1) xs))
      (All-take _ limit (take (limit + 1) xs) (All-take _ (limit + 1) xs h))

read_valid :
    (mark : AccountQuarantineRecord → Text)
    (page : List AccountQuarantineRecord × Option AccountQuarantineRecord)
    → all is_valid_record page.0 ≡ true
    → read_page mark page ≡ marked mark page
read_valid mark page h = rw h refl

identifier_of :
    (r : AccountQuarantineRecord) → is_valid_record r ≡ true → is_identifier r.account_id ≡ true
unfolding is_valid_record are_valid_fields
identifier_of r h = ground (arith, h)

keep_true {ℓ} : {A : Type ℓ} (xs : List A) → keep_if (λ x. true) xs ≡ xs
keep_true [] = refl
keep_true (x ∷ xs) = rw (keep_true xs) refl

module _ (codec : Codec) (spell : ℕ → Text) (below : Text → Text → Bool) (order : IsTextOrder below)
    (spell_injective : (m n : ℕ) → spell m ≡ spell n → m ≡ n) (g : Registry) (s : IsSound g) where
  lt : AccountQuarantineRecord → AccountQuarantineRecord → Bool
  lt a b = below (spell a.account_id) (spell b.account_id)

  rows : List AccountQuarantineRecord
  rows = matching_quarantines spell below none g

  rows_lem : rows ≡ sort_by (id_order spell below) (rows_of g.quarantines)
  unfolding rows matching_quarantines
  rows_lem = keep_true (sort_by (id_order spell below) (rows_of g.quarantines))

  lt_total :
      (a b : AccountQuarantineRecord)
      → (a.account_id == b.account_id) ≡ false
      → (lt a b || lt b a) ≡ true
  unfolding lt
  lt_total a b h = order.total (spell a.account_id) (spell b.account_id) (λ e.
      let same = spell_injective a.account_id b.account_id e in absurd (ground (arith, h, same)))

  rows-IsStrictlySorted : IsStrictlySorted lt rows
  unfolding lt
  rows-IsStrictlySorted = subst (IsStrictlySorted lt) (sym rows_lem) (
      sort_by-IsStrictlySorted lt
        (λ a b c. order.transitive (spell a.account_id) (spell b.account_id) (spell c.account_id))
        (rows_of g.quarantines)
        (rows_of-IsApart (λ r. r.account_id) lt lt_total g.quarantines s.unique_quarantines
          (All-imp _ _ g.quarantines (λ e h. h.1) (record_facts g s))))

  rows_valid : All (λ r. is_valid_record r ≡ true) rows
  rows_valid = subst (All (λ r. is_valid_record r ≡ true)) (sym rows_lem) (
      All-sort_by _ _ (rows_of g.quarantines) (
        All-of_entries _ g.quarantines (All-imp _ _ g.quarantines (λ e h. h.0) (record_facts g s))))

  length-rows : length rows ≤ 10000
  unfolding registry_count
  length-rows = rw rows_lem (
      omega (
        arith,
        length-sort_by (id_order spell below) (rows_of g.quarantines),
        length-rows_of g.quarantines,
        s.bounded,
      ))

  page_behind_lem :
      (bound : Option Text)
      → page_behind codec spell below 100 none g bound
        ≡ marked
            (quarantine_cursor codec spell none)
            (cut_page 100 (keep_if (is_beyond spell below bound) rows))
  unfolding page_behind rows
  page_behind_lem bound =
      read_valid (quarantine_cursor codec spell none)
        (cut_page 100 (keep_if (is_beyond spell below bound) rows))
        (cut_valid 100 (keep_if (is_beyond spell below bound) rows)
          (All-keep_if_of_All _ (is_beyond spell below bound) rows rows_valid))

  first_page :
      list_account_quarantines codec spell below 100 none g none
      ≡ marked (quarantine_cursor codec spell none) (cut_page 100 rows)
  unfolding list_account_quarantines
  first_page =
      page_behind_lem none
      ∙ ap (λ xs. marked (quarantine_cursor codec spell none) (cut_page 100 xs)) (keep_true rows)

  page_at-some :
      (cursor : Text)
      → cursor ≢ []
      → page_at codec spell below 100 none g (some cursor)
        ≡ page_of_kind codec spell below 100 none g (decode_cursor codec cursor)
  page_at-some [] h = absurd (h refl)
  page_at-some (c ∷ cursor) h = refl

  module _
      (short : (id : ℕ)
        → is_identifier id ≡ true
        → length (encode_cursor codec (cursor_kind none) (spell id)) ≤ 4096) where
    later_page :
        (l : AccountQuarantineRecord)
        → is_valid_record l ≡ true
        → list_account_quarantines codec spell below 100 none g
            (some (quarantine_cursor codec spell none l))
          ≡ marked (quarantine_cursor codec spell none) (cut_page 100 (keep_if (lt l) rows))
    unfolding list_account_quarantines lt quarantine_cursor
    later_page l v =
        let kind = cursor_kind none in
        let id = spell l.account_id in
        let decoded =
          decode_cursor-encode_cursor codec kind id (short l.account_id (identifier_of l v)) in
        page_at-some (encode_cursor codec kind id) (encode_cursor-ne-empty codec kind id)
        ∙ rw (decoded, text_eq_refl kind) (page_behind_lem (some id))

    pub scan_quarantines_lem :
        scan_quarantines codec spell below g
        ≡ Scan.scanned (sort_by (id_order spell below) (rows_of g.quarantines))
    unfolding scan_quarantines lt
    scan_quarantines_lem =
        scan_complete lt (λ a. order.irreflexive (spell a.account_id))
          (λ a b. order-asymmetric below order (spell a.account_id) (spell b.account_id))
          (list_account_quarantines codec spell below 100 none g)
          (quarantine_cursor codec spell none) 99 rows rows-IsStrictlySorted first_page
          (All-imp _ _ rows later_page rows_valid) 100 (omega arith)
          (capacity_enough (length rows) length-rows)
        ∙ ap (λ (xs : List AccountQuarantineRecord). Scan.scanned xs) rows_lem
