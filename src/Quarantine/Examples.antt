-- ===== src/Quarantine/Examples.antt =====
-- The quarantine registry at concrete accounts.
use sub2_ddq.Prelude.{
  ℕ, ◌≤◌, Bool, true, false, not, ◌||◌, none, some, List, [], ◌∷◌, length, elem, get, is_some, Text,
  text_leb, codes, ◌≡◌, refl, inl, inr, arith, Bool-cases, All,
}
use sub2_ddq.Guardian.Contracts.{Moment}
use sub2_ddq.Storage.Cursors.{encode_cursor}
use sub2_ddq.Storage.Cursors.Examples.{toy_codec, length-encode_cursor}
use sub2_ddq.Storage.Paging.{Scan}
use sub2_ddq.Quarantine.Records.{
  AccountQuarantineRecord, AccountQuarantineIntent, AccountQuarantineReason, QuarantineProbeResult,
  PreviousStatus, is_valid_record, is_valid_intent, is_identifier, are_valid_fields, is_ascending,
}
use sub2_ddq.Quarantine.Probe.{Probe}
use sub2_ddq.Quarantine.Stages.{Op, run_ops, replay, accounts_of}
use sub2_ddq.Quarantine.Sound.{IsSound, IsFit}
use sub2_ddq.Quarantine.Refinement.{IsAdmissible, run_ops_refines}
use sub2_ddq.Quarantine.Listing.{quarantined_account_ids, cursor_kind}
use sub2_ddq.Quarantine.Scan.{IsTextOrder}
use sub2_ddq.Quarantine.Excluded.{quarantined_account_ids_exact}
use sub2_ddq.Quarantine.{Registry, registry_count, marker_of}

abbrev slow_intent : AccountQuarantineIntent
slow_intent = record {
  account_id = 7;
  reason = AccountQuarantineReason.slow_first_token;
  group_ids = 1 ∷ 3 ∷ [];
  threshold_ms = 8000;
  observed_count = 3;
  previous_status = PreviousStatus.active;
  previous_schedulable = true;
  created_at = 100;
}

abbrev failed_record : AccountQuarantineRecord
failed_record = record {
  account_id = 9;
  reason = AccountQuarantineReason.channel_test_failed;
  group_ids = 3 ∷ [];
  threshold_ms = 8000;
  observed_count = 1;
  quarantined_at = 50;
  last_probe_at = none;
  last_probe_latency_ms = none;
  last_probe_result = QuarantineProbeResult.never;
  recovery_success_streak = 0;
}

abbrev fast_probe : Probe
fast_probe = record {
  probed_at = Moment.aware 40;
  latency_ms = some 900;
  outcome = QuarantineProbeResult.passing;
}

abbrev empty : Registry
empty = record { quarantines = []; intents = []; restores = [] }

empty-IsSound : IsSound empty
unfolding IsFit registry_count
empty-IsSound = record {
  unique_quarantines = refl;
  unique_intents = refl;
  unique_restores = refl;
  fits = λ id. tt;
  bounded = omega arith;
}

-- An account is intended, promoted, probed, and restored; another stays.
abbrev history : List Op
history =
    Op.upsert failed_record
    ∷ Op.intend slow_intent
    ∷ Op.upsert (marker_of slow_intent)
    ∷ Op.promote 7
    ∷ Op.update_probe 7 fast_probe
    ∷ Op.update_probe 7 fast_probe
    ∷ Op.begin 7 400
    ∷ Op.complete 7
    ∷ []

slow_intent_valid : is_valid_intent slow_intent ≡ true
unfolding is_valid_intent are_valid_fields is_identifier is_ascending
slow_intent_valid = refl

failed_record_valid : is_valid_record failed_record ≡ true
unfolding is_valid_record are_valid_fields is_identifier is_ascending
failed_record_valid = refl

marker_valid : is_valid_record (marker_of slow_intent) ≡ true
unfolding is_valid_record are_valid_fields is_identifier is_ascending marker_of
marker_valid = refl

history-IsAdmissible : All IsAdmissible history
unfolding IsAdmissible
history-IsAdmissible =
    (failed_record_valid, (slow_intent_valid, (marker_valid, (tt, (refl, (refl, (tt, (tt, tt))))))))

run_ops_refines_example :
    IsSound (run_ops history empty).0
    × (replay history (accounts_of empty)
        ≡ (accounts_of (run_ops history empty).0, (run_ops history empty).1))
run_ops_refines_example = run_ops_refines history empty empty-IsSound history-IsAdmissible

history-IsSound : IsSound (run_ops history empty).0
history-IsSound = (run_ops_refines history empty empty-IsSound history-IsAdmissible).0

-- The toy order of texts: by code points.
abbrev before : Text → Text → Bool
before s t = not (text_leb t s)

text_leb_refl : (s : Text) → text_leb s s ≡ true
text_leb_refl [] = refl
text_leb_refl (a ∷ s) = ground (arith, text_leb_refl s)

text_leb_trans : (s t u : Text) → text_leb s t ≡ true → text_leb t u ≡ true → text_leb s u ≡ true
text_leb_trans [] t u h k = refl
text_leb_trans (a ∷ s) [] u h k = cc
text_leb_trans (a ∷ s) (b ∷ t) [] h k = cc
text_leb_trans (a ∷ s) (b ∷ t) (c ∷ u) h k = ground (arith, text_leb_trans s t u)

text_leb_total : (s t : Text) → text_leb s t ≡ false → text_leb t s ≡ true
text_leb_total [] t h = cc
text_leb_total (a ∷ s) [] h = refl
text_leb_total (a ∷ s) (b ∷ t) h = ground (arith, text_leb_total s t)

text_leb_antisym : (s t : Text) → text_leb s t ≡ true → text_leb t s ≡ true → s ≡ t
text_leb_antisym [] [] h k = refl
text_leb_antisym [] (b ∷ t) h k = cc
text_leb_antisym (a ∷ s) [] h k = cc
text_leb_antisym (a ∷ s) (b ∷ t) h k = ground (arith, text_leb_antisym s t)

before_transitive : (s t u : Text) → before s t ≡ true → before t u ≡ true → before s u ≡ true
before_transitive s t u h k = elim (Bool-cases (text_leb u s)) [
  | inl e ↦ ground (arith, text_leb_total u t, text_leb_trans t u s, h, k)
  | inr e ↦ rw e refl
]

before-IsTextOrder : IsTextOrder before
before-IsTextOrder = record {
  irreflexive = λ s. rw (text_leb_refl s) refl;
  transitive = before_transitive;
  total = λ s t n. elim (Bool-cases (text_leb t s)) [
    | inl e ↦ elim (Bool-cases (text_leb s t)) [
      | inl f ↦ absurd (n (text_leb_antisym s t f e))
      | inr f ↦ rw (e, f) refl
    ]
    | inr e ↦ rw e refl
  ];
}

abbrev spelled : ℕ → Text
spelled n = n ∷ []

spelled_short :
    (id : ℕ)
    → is_identifier id ≡ true
    → length (encode_cursor toy_codec (cursor_kind none) (spelled id)) ≤ 4096
unfolding cursor_kind
spelled_short id h = omega (arith, length-encode_cursor (codes "account-quarantine:*") (spelled id))

quarantined_account_ids_exact_example :
    (ids : List ℕ) × (quarantined_account_ids toy_codec spelled before (run_ops history empty).0
      ≡ Scan.scanned ids)
    × ((id : ℕ)
        → elem id ids ≡ (
            is_some (get id (run_ops history empty).0.quarantines)
            || is_some (get id (run_ops history empty).0.intents)))
quarantined_account_ids_exact_example =
    quarantined_account_ids_exact toy_codec spelled before (run_ops history empty).0
      before-IsTextOrder (λ m n e. ground (arith, e)) spelled_short run_ops_refines_example.0
