-- ===== src/Quarantine/Listing.antt =====
-- The listings of the quarantine tables in src/sub2api_mcp/repository.py, and the scan of
-- src/sub2api_mcp/scheduler.py that collects the accounts which maintenance leaves alone. The
-- digits of an identifier and the database's order of texts are parameters.
use sub2_ddq.Prelude.{
  ℕ, Bool, true, false, not, ◌&&◌, ◌||◌, Option, none, some, List, [], ◌∷◌, ◌++◌, map, Dict, ltb,
  leb, ◌==◌, if◌then◌else◌, take, all, keep_if, sort_by, Text, codes, text_eq,
}
use mathlib.Core.Option
use sub2_ddq.Storage.Cursors.{Codec, encode_cursor, decode_cursor}
use sub2_ddq.Storage.Paging.{Page, PageError, Scan, cut_page, scan_pages}
use sub2_ddq.Quarantine.Records.{
  AccountQuarantineRecord, AccountQuarantineIntent, AccountQuarantineReason, is_valid_record,
  is_valid_intent,
}
use sub2_ddq.Quarantine.{Registry, max_account_quarantines}

abbrev pub rows_of {ℓ} : {A : Type ℓ} → Dict A → List A
rows_of d = map (λ e. e.1) d

abbrev pub has_reason : Option AccountQuarantineReason → AccountQuarantineRecord → Bool
has_reason none r = true
has_reason (some AccountQuarantineReason.slow_first_token) r = elim r.reason [
  | AccountQuarantineReason.slow_first_token ↦ true
  | AccountQuarantineReason.channel_test_failed ↦ false
]
has_reason (some AccountQuarantineReason.channel_test_failed) r = elim r.reason [
  | AccountQuarantineReason.slow_first_token ↦ false
  | AccountQuarantineReason.channel_test_failed ↦ true
]

unfoldable pub cursor_kind : Option AccountQuarantineReason → Text
cursor_kind none = codes "account-quarantine:*"
cursor_kind (some AccountQuarantineReason.slow_first_token) =
    codes "account-quarantine:SLOW_FIRST_TOKEN"
cursor_kind (some AccountQuarantineReason.channel_test_failed) =
    codes "account-quarantine:CHANNEL_TEST_FAILED"

abbrev pub read_page :
    (AccountQuarantineRecord → Text)
    → List AccountQuarantineRecord × Option AccountQuarantineRecord
    → Page AccountQuarantineRecord
read_page mark (selected, end) =
    if all is_valid_record selected
    then Page.fetched selected (Option.map mark end)
    else Page.refused PageError.data_invalid

abbrev pub read_intents : List AccountQuarantineIntent → Page AccountQuarantineIntent
read_intents rows =
    if all is_valid_intent rows then Page.fetched rows none else Page.refused PageError.data_invalid

abbrev pub with_intents : List ℕ → Page AccountQuarantineIntent → Scan ℕ
with_intents ids (Page.refused e) = Scan.scan_raised e
with_intents ids (Page.fetched rows next) = Scan.scanned (ids ++ map (λ i. i.account_id) rows)

unfoldable pub quarantine_cursor :
    Codec → (ℕ → Text) → Option AccountQuarantineReason → AccountQuarantineRecord → Text
quarantine_cursor codec spell reason r =
    encode_cursor codec (cursor_kind reason) (spell r.account_id)

-- `below s t` is `s < t` in the database.
module _ (spell : ℕ → Text) (below : Text → Text → Bool) where
  -- `ORDER BY account_id ASC`
  abbrev pub id_order : AccountQuarantineRecord → AccountQuarantineRecord → Bool
  id_order a b = not (below (spell b.account_id) (spell a.account_id))

  -- `account_id > $`, where there is a cursor.
  abbrev pub is_beyond : Option Text → AccountQuarantineRecord → Bool
  is_beyond none r = true
  is_beyond (some id) r = below id (spell r.account_id)

  unfoldable pub matching_quarantines :
      Option AccountQuarantineReason → Registry → List AccountQuarantineRecord
  matching_quarantines reason g =
      keep_if (has_reason reason) (sort_by id_order (rows_of g.quarantines))

  -- `ORDER BY created_at, account_id`
  abbrev pub intent_order : AccountQuarantineIntent → AccountQuarantineIntent → Bool
  intent_order a b =
      ltb a.created_at b.created_at
      || (a.created_at == b.created_at && not (below (spell b.account_id) (spell a.account_id)))

  unfoldable pub list_account_quarantine_intents : ℕ → Registry → Page AccountQuarantineIntent
  list_account_quarantine_intents limit g =
      if leb 1 limit && leb limit max_account_quarantines
      then read_intents (take limit (sort_by intent_order (rows_of g.intents)))
      else Page.refused PageError.invalid_page_size

module _ (codec : Codec) (spell : ℕ → Text) (below : Text → Text → Bool) where
  unfoldable pub page_behind :
      ℕ → Option AccountQuarantineReason → Registry → Option Text → Page AccountQuarantineRecord
  page_behind limit reason g bound = read_page (quarantine_cursor codec spell reason) (
      cut_page limit
        (keep_if (is_beyond spell below bound) (matching_quarantines spell below reason g)))

  abbrev pub page_of_kind :
      ℕ
      → Option AccountQuarantineReason
      → Registry
      → Option (Text × Text)
      → Page AccountQuarantineRecord
  page_of_kind limit reason g none = Page.refused PageError.invalid_cursor
  page_of_kind limit reason g (some (kind, id)) =
      if text_eq kind (cursor_kind reason)
      then page_behind limit reason g (some id)
      else Page.refused PageError.invalid_cursor

  abbrev pub page_at :
      ℕ → Option AccountQuarantineReason → Registry → Option Text → Page AccountQuarantineRecord
  page_at limit reason g none = page_behind limit reason g none
  page_at limit reason g (some []) = page_behind limit reason g none
  page_at limit reason g (some (c ∷ cursor)) =
      page_of_kind limit reason g (decode_cursor codec (c ∷ cursor))

  unfoldable pub list_account_quarantines :
      ℕ → Option AccountQuarantineReason → Registry → Option Text → Page AccountQuarantineRecord
  list_account_quarantines limit reason g cursor =
      if leb 1 limit && leb limit 100
      then page_at limit reason g cursor
      else Page.refused PageError.invalid_page_size

  -- The loop of `_quarantined_account_ids`.
  unfoldable pub scan_quarantines : Registry → Scan AccountQuarantineRecord
  scan_quarantines g = scan_pages (list_account_quarantines 100 none g) 100 none []

  abbrev pub with_quarantines : Registry → Scan AccountQuarantineRecord → Scan ℕ
  with_quarantines g (Scan.scan_raised e) = Scan.scan_raised e
  with_quarantines g Scan.scan_limit_reached = Scan.scan_limit_reached
  with_quarantines g (Scan.scanned rows) =
      with_intents (map (λ r. r.account_id) rows)
        (list_account_quarantine_intents spell below 10000 g)

  -- `_quarantined_account_ids`; the set is the list of its items.
  unfoldable pub quarantined_account_ids : Registry → Scan ℕ
  quarantined_account_ids g = with_quarantines g (scan_quarantines g)
